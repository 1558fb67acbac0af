-- ===== src/Service/Phases.antt =====
-- What the asynchronous service is, without its lists: which state each instance is in, and the
-- replies.
use xrpcserver.Prelude.{
  ℕ, ◌+◌, String, List, [], ◌∷◌, ◌++◌, ◌≡◌, Option, none, some, done, ◌==◌, ltb, if◌then◌else◌,
}
use xrpcserver.Env.{Env}
use xrpcserver.Rpc.{World}
use xrpcserver.Handler.Serve.{serve}
use xrpcserver.Service.Async.{CallStatus, process, finish, AsyncService, status_of}

pub record Phases : Type 0 where
  pub phase : ℕ → Option CallStatus
  pub next : ℕ
  pub replied : List (ℕ × String)

abbrev pub view : AsyncService → Phases
view svc = record {
  phase = λ a. status_of a svc.instances;
  next = svc.next_address;
  replied = svc.replied;
}

module _ ⦃E : Env⦄ where
  -- An instance that waits is given a request: it answers as a handler of the request does, and a new
  -- one waits. An instance that has answered goes away.
  pub data Move (t u : Phases) : Type 0 where
    answers :
        (tag : ℕ) (body rsp : String) (w : World)
        → (serve body w).0 ≡ done rsp
        → t.phase tag ≡ some process
        → ((a : ℕ)
            → u.phase a
              ≡ (if a == t.next then some process else if a == tag then some finish else t.phase a))
        → u.next ≡ t.next + 1
        → u.replied ≡ t.replied ++ (tag, rsp) ∷ []
        → Move t u
    leaves :
        (tag : ℕ)
        → t.phase tag ≡ some finish
        → ((a : ℕ) → u.phase a ≡ (if a == tag then none else t.phase a))
        → u.next ≡ t.next
        → u.replied ≡ t.replied
        → Move t u

  pub data Moves (s : Phases) : Phases → Type 0 where
    here : Moves s s
    then_move : {t u : Phases} → Moves s t → Move t u → Moves s u

-- The phases before the first event: six instances wait.
abbrev pub six_wait : Phases
six_wait = record { phase = λ a. if ltb a 6 then some process else none; next = 6; replied = [] }
