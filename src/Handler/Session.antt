-- ===== src/Handler/Session.antt =====
-- What the servers do to the world by one request after another.
use xrpcserver.Prelude.{
  ℕ, ◌+◌, ◌≤◌, length-append, String, List, [], ◌∷◌, ◌++◌, append-nil, append_assoc, ◌≡◌, refl, sym,
  ap, ◌∙◌, inl, inr, Bool-cases, true, false, done, length, All, arith,
}
use xrpcserver.Env.{Env}
use xrpcserver.Rpc.{Json, Tx, World, State, ◌>>=◌, string_in, done_unit}
use xrpcserver.Rpc.Leads.{Leads, Leads-first, continue-Leads}
use xrpcserver.Handler.Frame.{IsFrame, set_result_fail-Preserves, get_response-Preserves}
use xrpcserver.Handler.Response.{get_response}
use xrpcserver.Handler.Quiet.{
  Message, IsQuiet, MaySubmit, Carries, IsQuiet-frame, IsSubmitted-frame,
}
use xrpcserver.Handler.Actions.{action_of}
use xrpcserver.Handler.Dispatch.{blank, xrpc_handler, handle_request}
use xrpcserver.Handler.Effects.{is_administrative, run-MaySubmit, handle_request-Leads}
use xrpcserver.Handler.Serve.{answer, serve}

module _ ⦃E : Env⦄ where
  -- One request after another, each with a handler of its own.
  unfoldable pub serve_all : List String → World → World
  unfolding serve
  serve_all [] w = w
  serve_all (body ∷ l) w = serve_all l (serve body w).1

  -- What the parser leaves of the request has no action on the node itself.
  abbrev pub IsOrdinary : String → Type 0
  IsOrdinary body =
      (action : String)
      → string_in (E.parse body).1 "action" ≡ done action
      → is_administrative (action_of action) ≡ false

  -- The handler after its constructor.
  record IsBegun (w : World) (root : Json) (s : State) : Type 0 where
    same_world : s.world ≡ w
    same_root : s.root ≡ root

  IsBegun-frame : (w : World) (root : Json) → IsFrame (IsBegun w root)
  IsBegun-frame w root = record {
    at = λ s a b c h. record { same_world = h.same_world; same_root = h.same_root };
  }

  xrpc_handler-IsBegun :
      (body : String) (w : World) → IsBegun w (E.parse body).1 (xrpc_handler body (blank w)).1
  unfolding xrpc_handler done_unit
  xrpc_handler-IsBegun body w = elim (Bool-cases (E.parse body).0) [
    | inl e ↦ rw e begun
    | inr e ↦
        rw e ((set_result_fail-Preserves (IsBegun-frame w (E.parse body).1) _).at parsed begun)
  ]
    where
      parsed : State
      parsed = record (blank w) { request_http = body; root = (E.parse body).1 }

      begun : IsBegun w (E.parse body).1 parsed
      begun = record { same_world = refl; same_root = refl }

  MaySubmit-frame : (w : World) → IsFrame (MaySubmit w)
  MaySubmit-frame w = record { at = kept }
    where
      kept :
          (s : State) (rsp array_obj item : Json)
          → MaySubmit w s
          → MaySubmit w (record s { rsp = rsp; array_obj = array_obj; item = item })
      kept s a b c (inl h) = inl ((IsQuiet-frame w).at s a b c h)
      kept s a b c (inr h) = inr (IsSubmitted-frame.at s a b c h)

  handle_request-IsBegun :
      (body : String) (w : World)
      → IsOrdinary body
      → Leads (IsBegun w (E.parse body).1) (MaySubmit w) handle_request
  handle_request-IsBegun body w ordinary = record {
    at = λ s h.
        let quiet : IsQuiet w s = record {
          same_store = ap (λ (v : World). v.store) h.same_world;
          same_sent = ap (λ (v : World). v.sent) h.same_world;
        } in
        handle_request-Leads (MaySubmit w) s (inl quiet) λ action nohash e.
          (run-MaySubmit w (action_of action) nohash (ordinary action (rw (← h.same_root) e))).at s
            quiet;
  }

  -- A request that is served leaves the world of some state of its handler.
  serve-MaySubmit :
      (body : String) (w : World)
      → IsOrdinary body
      → (s : State) × ((serve body w).1 ≡ s.world) × MaySubmit w s
  unfolding serve answer ◌>>=◌
  serve-MaySubmit body w ordinary = (
    (answer body (blank w)).1,
    refl,
    continue-Leads (MaySubmit w) (xrpc_handler body (blank w)).0 _ (xrpc_handler body (blank w)).1
        (inl (record {
          same_store = ap (λ (v : World). v.store) begun.same_world;
          same_sent = ap (λ (v : World). v.sent) begun.same_world;
        }))
        λ u e.
          (Leads-first handle_request (λ _. get_response) (handle_request-IsBegun body w ordinary)
              λ _. get_response-Preserves (MaySubmit-frame w)).at
            _ begun,
  )
    where
      begun : IsBegun w (E.parse body).1 (xrpc_handler body (blank w)).1
      begun = xrpc_handler-IsBegun body w

  -- The message carries a transaction whose hash and signature are verified.
  abbrev pub IsSigned : Message → Type 0
  IsSigned message = (t : Tx) × (E.tx_hash_and_sign_verify t ≡ true) × Carries t message

  -- The world `v` is `w` but for the clock and at most `n` messages that were sent.
  pub record IsAfter (n : ℕ) (w v : World) : Type 0 where
    pub same_store : v.store ≡ w.store
    pub messages : List Message
    pub all_sent : v.sent ≡ w.sent ++ messages
    pub few : length messages ≤ n
    pub signed : All IsSigned messages

  serve-IsAfter : (body : String) (w : World) → IsOrdinary body → IsAfter 1 w (serve body w).1
  serve-IsAfter body w ordinary =
      let (s, same, may) = serve-MaySubmit body w ordinary in rw same (after s may)
    where
      after : (s : State) → MaySubmit w s → IsAfter 1 w s.world
      after s (inl quiet) = record {
        same_store = quiet.same_store;
        messages = [];
        all_sent = quiet.same_sent ∙ sym (append-nil w.sent);
        few = omega arith;
        signed = tt;
      }
      after s (inr h) = record {
        same_store = h.same_store;
        messages = h.message ∷ [];
        all_sent = h.one_sent;
        few = omega arith;
        signed = ((s.tx, h.verified, h.carries), tt);
      }

  All-IsSigned-append :
      (k l : List Message) → All IsSigned k → All IsSigned l → All IsSigned (k ++ l)
  All-IsSigned-append [] l h i = i
  All-IsSigned-append (m ∷ k) l (h, hs) i = (h, All-IsSigned-append k l hs i)

  IsAfter-trans : (m n : ℕ) (u v w : World) → IsAfter m u v → IsAfter n v w → IsAfter (m + n) u w
  IsAfter-trans m n u v w h i = record {
    same_store = i.same_store ∙ h.same_store;
    messages = h.messages ++ i.messages;
    all_sent =
        i.all_sent
        ∙ ap (λ l. l ++ i.messages) h.all_sent
        ∙ append_assoc u.sent h.messages i.messages;
    few = omega (arith, length-append h.messages i.messages, h.few, i.few);
    signed = All-IsSigned-append h.messages i.messages h.signed i.signed;
  }

  -- Where no request of a sequence has an action on the node itself: after all of them, each served
  -- by a handler of its own, the store is as it was, and at most as many messages were sent as there
  -- were requests; each of them carries a transaction whose hash and signature are verified.
  pub serve_all-IsAfter :
      (l : List String) (w : World) → All IsOrdinary l → IsAfter (length l) w (serve_all l w)
  unfolding serve_all
  serve_all-IsAfter [] w h = record {
    same_store = refl;
    messages = [];
    all_sent = sym (append-nil w.sent);
    few = omega arith;
    signed = tt;
  }
  serve_all-IsAfter (body ∷ l) w (h, hs) = rw (← one_more) (
      IsAfter-trans 1 (length l) w (serve body w).1 _ (serve-IsAfter body w h)
        (serve_all-IsAfter l (serve body w).1 hs))
    where
      one_more : 1 + length l ≡ length (body ∷ l)
      one_more = omega arith
