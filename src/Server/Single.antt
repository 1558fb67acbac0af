-- ===== src/Server/Single.antt =====
-- xrpc_server.cpp: a connection has one exchange: what its reads come to, whatever bytes arrive.
use Prim.Native.Char.{Char}
use text.Mathlib.TextBridge.{of_list}
use xrpcserver.Prelude.{
  ℕ, suc, String, List, [], ◌∷◌, ◌≡◌, ◌⊎◌, refl, Option-cases, Bool-cases, is_empty, inl, inr, none,
  some, false, Outcome, done, thrown, undefined, length, arith,
}
use xrpcserver.Env.{Env}
use xrpcserver.Rpc.{World}
use xrpcserver.Handler.Serve.{serve}
use xrpcserver.Server.Http.{
  Connection, ReadUntil, until_space, until_blank_line, until_brace, fresh, do_read, do_write,
  put_text, method_done, header_done, on_options, on_post,
}
use xrpcserver.Server.Reads.{
  delimiter, bytes_until, receive, completed, turn, waits, turns, work, arrive, then_arrive,
  converse,
}
use xrpcserver.Server.Exchange.{work-idle, completed-brace, converse-idle}
use xrpcserver.Server.Reply.{do_write-reading}

do_write-written :
    (rsp : String) (c : Connection) → c.written ≡ [] → length (do_write rsp c).written ≡ 1
unfolding do_write put_text
do_write-written rsp c e = elim (Bool-cases (is_empty rsp)) [
  | inl h ↦ rw (h, e) refl
  | inr h ↦ rw (h, e) refl
]

-- No response was begun.
abbrev pub IsSilent : Connection → Type 0
IsSilent c = (c.response ≡ "") × (c.written ≡ [])

-- The answer to OPTIONS.
abbrev pub options_text : String
options_text =
    "HTTP/1.1 200 OK\r\nAccess-Control-Allow-Origin:*\r\nAccess-Control-Request-Method:POST\r\nAccess-Control-Allow-Headers:Origin,X-Requested-With,Content-Type,Accept\r\nAccess-Control-Request-Headers:Content-type\r\n"

-- The first word decides.
method_done-cases :
    (n : ℕ) (c : Connection)
    → (method_done false n c ≡ c)
      ⊎ (method_done false n c ≡ on_options c)
      ⊎ (method_done false n c ≡ on_post c)
unfolding method_done
method_done-cases n c = ground arith

module _ ⦃E : Env⦄ where
  -- The connection ends as its handler has: with a text, nothing more is read, and one response was
  -- written.
  abbrev pub IsOver : Outcome String → Outcome Connection → Type 0
  IsOver (done rsp) (done c) = (c.reading ≡ []) × (length c.written ≡ 1)
  IsOver thrown thrown = Unit
  IsOver undefined undefined = Unit
  IsOver _ _ = ⊥

  -- What a connection may come to.
  pub data Conversed (world : World) (result : Outcome Connection × World) : Type 0 where
    -- its read waits for bytes that have not come, and nothing was written
    reads :
        (d : ReadUntil) (c : Connection)
        → c.reading ≡ d ∷ []
        → bytes_until (delimiter d) c.request ≡ none
        → IsSilent c
        → result ≡ (done c, world)
        → Conversed world result
    -- it is over, nothing was handed to the handler, and nothing was written, or the answer to OPTIONS
    declined :
        (c : Connection)
        → c.reading ≡ []
        → (c.written ≡ []) ⊎ (c.written ≡ options_text ∷ [])
        → result ≡ (done c, world)
        → Conversed world result
    -- it is over, after one request
    handled :
        (bytes : List Char) (o : Outcome Connection)
        → IsOver (serve (of_list bytes) world).0 o
        → result ≡ (o, (serve (of_list bytes) world).1)
        → Conversed world result

  turn-none :
      (d : ReadUntil) (rest : List ReadUntil) (c : Connection) (world : World)
      → c.reading ≡ d ∷ rest
      → bytes_until (delimiter d) c.request ≡ none
      → turn c world ≡ waits
  unfolding turn
  turn-none d rest c world pending e = rw (pending, e) refl

  turn-some :
      (d : ReadUntil) (rest : List ReadUntil) (c : Connection) (world : World) (k : ℕ)
      → c.reading ≡ d ∷ rest
      → bytes_until (delimiter d) c.request ≡ some k
      → turn c world ≡ turns (completed d k (record c { reading = rest }) world)
  unfolding turn
  turn-some d rest c world k pending e = rw (pending, e) refl

  -- A read that cannot complete is waited for.
  work-waits :
      (fuel : ℕ) (d : ReadUntil) (c : Connection) (world : World)
      → c.reading ≡ d ∷ []
      → IsSilent c
      → bytes_until (delimiter d) c.request ≡ none
      → Conversed world (work (suc fuel) c world)
  unfolding work
  work-waits fuel d c world pending empty e =
      reads d c pending e empty (rw (turn-none d [] c world pending e) refl)

  written_once :
      (fuel : ℕ) (c : Connection) (world : World) (o : Outcome String)
      → c.reading ≡ until_brace ∷ []
      → IsSilent c
      → (serve (of_list c.request) world).0 ≡ o
      → (k : ℕ) → bytes_until (delimiter until_brace) c.request ≡ some k
      → Conversed world (work (suc fuel) c world)
  unfolding work
  written_once fuel c world (done rsp) pending empty served k e =
      let c' : Connection = record c { reading = [] } in
      handled c.request (done (do_write rsp c'))
        (rw served (do_write-reading rsp c', do_write-written rsp c' empty.1))
        (rw (turn-some until_brace [] c world k pending e, completed-brace k c' world, served)
          (work-idle fuel (do_write rsp c') _ (do_write-reading rsp c')))
  written_once fuel c world thrown pending empty served k e =
      let c' : Connection = record c { reading = [] } in
      handled c.request thrown (rw served tt)
        (rw (turn-some until_brace [] c world k pending e, completed-brace k c' world, served) refl)
  written_once fuel c world undefined pending empty served k e =
      let c' : Connection = record c { reading = [] } in
      handled c.request undefined (rw served tt)
        (rw (turn-some until_brace [] c world k pending e, completed-brace k c' world, served) refl)

  work-brace :
      (fuel : ℕ) (c : Connection) (world : World)
      → c.reading ≡ until_brace ∷ []
      → IsSilent c
      → Conversed world (work (suc fuel) c world)
  work-brace fuel c world pending empty =
      elim (Option-cases (bytes_until (delimiter until_brace) c.request)) [
        | inl e ↦ work-waits fuel until_brace c world pending empty e
        | inr (k, e) ↦ written_once fuel c world _ pending empty refl k e
      ]

  work-blank_line :
      (fuel : ℕ) (c : Connection) (world : World)
      → c.reading ≡ until_blank_line ∷ []
      → IsSilent c
      → Conversed world (work (suc (suc fuel)) c world)
  unfolding work completed header_done
  work-blank_line fuel c world pending empty =
      elim (Option-cases (bytes_until (delimiter until_blank_line) c.request)) [
        | inl e ↦ work-waits (suc fuel) until_blank_line c world pending empty e
        | inr (k, e) ↦
            rw (turn-some until_blank_line [] c world k pending e)
              (work-brace fuel (header_done false k (record c { reading = [] })) world refl empty)
      ]

  -- No read is pending, and no handler runs.
  work-over :
      (fuel : ℕ) (c : Connection) (world : World)
      → c.reading ≡ []
      → (c.written ≡ []) ⊎ (c.written ≡ options_text ∷ [])
      → Conversed world (work fuel c world)
  work-over fuel c world idle answer = declined c idle answer (work-idle fuel c world idle)

  work-method :
      (fuel n : ℕ) (c : Connection) (world : World)
      → c.reading ≡ []
      → IsSilent c
      → Conversed world (work (suc (suc fuel)) (method_done false n c) world)
  unfolding on_options on_post put_text
  work-method fuel n c world idle empty = elim (method_done-cases n c) [
    | inl e ↦ rw e (work-over (suc (suc fuel)) c world idle (inl empty.1))
    | inr (inl e) ↦
        rw e
          (work-over (suc (suc fuel)) (on_options c) world idle (inr (rw (empty.0, empty.1) refl)))
    | inr (inr e) ↦ rw e (work-blank_line fuel (on_post c) world (rw idle refl) empty)
  ]

  work-space :
      (fuel : ℕ) (c : Connection) (world : World)
      → c.reading ≡ until_space ∷ []
      → IsSilent c
      → Conversed world (work (suc (suc (suc fuel))) c world)
  unfolding work completed
  work-space fuel c world pending empty =
      elim (Option-cases (bytes_until (delimiter until_space) c.request)) [
        | inl e ↦ work-waits (suc (suc fuel)) until_space c world pending empty e
        | inr (k, e) ↦
            rw (turn-some until_space [] c world k pending e)
              (work-method fuel k (record c { reading = [] }) world refl empty)
      ]

  -- Three reads are enough for any of them.
  arrive-Conversed :
      (bytes : List Char) (d : ReadUntil) (c : Connection) (world : World)
      → c.reading ≡ d ∷ []
      → IsSilent c
      → Conversed world (arrive bytes c world)
  unfolding arrive
  arrive-Conversed bytes until_space c world = work-space 0 (receive bytes c) world
  arrive-Conversed bytes until_blank_line c world = work-blank_line 1 (receive bytes c) world
  arrive-Conversed bytes until_brace c world = work-brace 2 (receive bytes c) world

  converse-IsOver :
      (later : List (List Char)) (answer : Outcome String) (o : Outcome Connection) (world : World)
      → IsOver answer o
      → (o' : Outcome Connection) × (then_arrive (converse later) (o, world) ≡ (o', world))
        × IsOver answer o'
  converse-IsOver later (done rsp) (done c) world (idle, one) =
      let (c', ends, idle', same) = converse-idle later c world idle in
      (done c', ends, (idle', rw same one))
  converse-IsOver later thrown thrown world over = (thrown, refl, over)
  converse-IsOver later undefined undefined world over = (undefined, refl, over)
  converse-IsOver later (done rsp) thrown world over = elim over [ ]
  converse-IsOver later (done rsp) undefined world over = elim over [ ]
  converse-IsOver later thrown (done c) world over = elim over [ ]
  converse-IsOver later thrown undefined world over = elim over [ ]
  converse-IsOver later undefined (done c) world over = elim over [ ]
  converse-IsOver later undefined thrown world over = elim over [ ]

  converse-Conversed :
      (pieces : List (List Char)) (d : ReadUntil) (c : Connection) (world : World)
      → c.reading ≡ d ∷ []
      → IsSilent c
      → bytes_until (delimiter d) c.request ≡ none
      → Conversed world (converse pieces c world)
  unfolding converse
  converse-Conversed [] d c world pending empty lacks = reads d c pending lacks empty refl
  converse-Conversed (bytes ∷ later) d c world pending empty lacks =
      elim (arrive-Conversed bytes d c world pending empty) [
        | reads d' c' pending' lacks' empty' e ↦
            rw e (converse-Conversed later d' c' world pending' empty' lacks')
        | declined c' over answer e ↦
            let (c'', ends, idle, same) = converse-idle later c' world over in
            declined c'' idle (rw same answer) (rw e ends)
        | handled text o over e ↦
            let (o', ends, over') =
              converse-IsOver later (serve (of_list text) world).0 o (serve (of_list text) world).1
                over in
            handled text o' over' (rw e ends)
      ]

  -- Where the call of `parse_method`, which returns no value, is read as false: whatever bytes a
  -- connection sends, in whatever pieces, while none of its reads fails, it comes to one of these.
  -- Its read waits for a delimiter that is not among the bytes it has, nothing was written, and the
  -- world is as it was. Or nothing more is read, nothing was written or the one answer to OPTIONS, and
  -- the world is as it was. Or one request was handed to the handler, and the world is what the
  -- handler made of it: if the handler yields a text, one response was written, and nothing more is
  -- read; if not, the connection ends as the handler does.
  pub do_read-Conversed :
      (pieces : List (List Char)) (world : World)
      → Conversed world (converse pieces (do_read false fresh) world)
  unfolding do_read bytes_until
  do_read-Conversed pieces world =
      converse-Conversed pieces until_space (do_read false fresh) world refl (refl, refl) refl
