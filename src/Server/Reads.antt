-- ===== src/Server/Reads.antt =====
-- xrpc_server.cpp: the handlers of a connection as asio calls them, on the bytes as they come. A read
-- with a delimiter completes, as asio documents it, once the buffer holds the delimiter, and its
-- handler is given the number of bytes up to the end of the first one.
use Prim.Native.Char.{Char, code}
use xrpcserver.Prelude.{
  ℕ, zero, suc, List, [], ◌∷◌, ◌++◌, Option, none, some, Bool, true, false, ◌&&◌, Outcome, done,
  thrown, undefined, length, ◌==◌, if◌then◌else◌,
}
use xrpcserver.Env.{Env}
use xrpcserver.Rpc.{World}
use xrpcserver.Server.Http.{
  Connection, ReadUntil, until_space, until_blank_line, until_brace, method_done, header_done,
  body_done,
}

unfoldable pub delimiter : ReadUntil → List Char
delimiter until_space = " " ∷ []
delimiter until_blank_line = "\r" ∷ "\n" ∷ "\r" ∷ "\n" ∷ []
delimiter until_brace = "}" ∷ []

-- Does the text begin so?
pub begins : List Char → List Char → Bool
begins [] s = true
begins (c ∷ pattern) [] = false
begins (c ∷ pattern) (d ∷ s) = code c == code d && begins pattern s

pub one_more : Option ℕ → Option ℕ
one_more none = none
one_more (some n) = some (suc n)

-- The number of bytes that a read hands over, where the buffer holds what it waits for.
unfoldable pub bytes_until : List Char → List Char → Option ℕ
unfolding begins one_more
bytes_until pattern [] = none
bytes_until pattern (c ∷ s) =
    let later = one_more (bytes_until pattern s) in
    if begins pattern (c ∷ s) then some (length pattern) else later

-- Bytes arrive in `m_request`.
abbrev pub receive : List Char → Connection → Connection
receive bytes c = record c { request = c.request ++ bytes }

module _ ⦃E : Env⦄ where
  -- The handler that the call of `async_read_until` has passed on.
  unfoldable pub completed : ReadUntil → ℕ → Connection → World → Outcome Connection × World
  unfolding method_done header_done body_done
  completed until_space n c world = (done (method_done false n c), world)
  completed until_blank_line n c world = (done (header_done false n c), world)
  completed until_brace n c world = body_done false n c world

  -- The first read that is pending completes, if the buffer holds what it waits for.
  pub data Turn : Type 0 where
    waits : Turn
    turns : Outcome Connection × World → Turn

  abbrev turn_at : ReadUntil → Option ℕ → Connection → World → Turn
  turn_at d none c world = waits
  turn_at d (some n) c world = turns (completed d n c world)

  abbrev turn_of : List ReadUntil → Connection → World → Turn
  turn_of [] c world = waits
  turn_of (d ∷ rest) c world =
      turn_at d (bytes_until (delimiter d) c.request) (record c { reading = rest }) world

  unfoldable pub turn : Connection → World → Turn
  unfolding bytes_until delimiter completed
  turn c world = turn_of c.reading c world

  -- What follows a turn: nothing after an exception.
  abbrev pub resume :
      (Connection → World → Outcome Connection × World)
      → Connection
      → World
      → Turn
      → Outcome Connection × World
  resume more c world waits = (done c, world)
  resume more c world (turns (done c', world')) = more c' world'
  resume more c world (turns (thrown, world')) = (thrown, world')
  resume more c world (turns (undefined, world')) = (undefined, world')

  -- The reads complete, one after the other; there are three at most.
  unfoldable pub work : ℕ → Connection → World → Outcome Connection × World
  unfolding turn
  work zero c world = (done c, world)
  work (suc fuel) c world = resume (work fuel) c world (turn c world)

  -- The bytes come, and the handlers run.
  unfoldable pub arrive : List Char → Connection → World → Outcome Connection × World
  unfolding work
  arrive bytes c world = work 3 (receive bytes c) world

  abbrev pub then_arrive :
      (Connection → World → Outcome Connection × World)
      → Outcome Connection × World
      → Outcome Connection × World
  then_arrive more (done c, world) = more c world
  then_arrive more (thrown, world) = (thrown, world)
  then_arrive more (undefined, world) = (undefined, world)

  -- One piece after another.
  unfoldable pub converse : List (List Char) → Connection → World → Outcome Connection × World
  unfolding arrive
  converse [] c world = (done c, world)
  converse (bytes ∷ rest) c world = then_arrive (converse rest) (arrive bytes c world)
