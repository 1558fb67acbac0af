-- ===== src/Service/Once.antt =====
-- No request is answered twice.
use xrpcserver.Prelude.{ℕ, ◌<◌, String, List, [], ◌∷◌, ◌++◌, ◌≡◌, ◌≢◌, sym, All, some, done, arith}
use xrpcserver.Env.{Env}
use xrpcserver.Rpc.{World}
use xrpcserver.Service.Async.{CallStatus, process, AsyncService, run}
use xrpcserver.Service.Phases.{
  Phases, view, six_wait, Move, answers, leaves, Moves, here, then_move,
}
use xrpcserver.Service.Refines.{run-Moves}

-- The replies are those of different instances.
abbrev pub AllOnce : List (ℕ × String) → Type 0
AllOnce [] = Unit
AllOnce (r ∷ l) = All (λ (q : ℕ × String). q.0 ≢ r.0) l × AllOnce l

All-apart-concat :
    (b tag : ℕ) (rsp : String) (m : List (ℕ × String))
    → b ≢ tag
    → All (λ (q : ℕ × String). q.0 ≢ b) m
    → All (λ (q : ℕ × String). q.0 ≢ b) (m ++ (tag, rsp) ∷ [])
All-apart-concat b tag rsp [] d h = (λ same. d (sym same), tt)
All-apart-concat b tag rsp (q ∷ m) d (e, h) = (e, All-apart-concat b tag rsp m d h)

AllOnce-concat :
    (l : List (ℕ × String)) (tag : ℕ) (rsp : String)
    → AllOnce l
    → All (λ (q : ℕ × String). q.0 ≢ tag) l
    → AllOnce (l ++ (tag, rsp) ∷ [])
AllOnce-concat [] tag rsp h d = (tt, tt)
AllOnce-concat (r ∷ l) tag rsp (e, h) (d, ds) =
    (All-apart-concat r.0 tag rsp l d e, AllOnce-concat l tag rsp h ds)

-- An instance that has answered does not wait, and is not a new one.
abbrev IsSettled : Phases → ℕ × String → Type 0
IsSettled t r = (r.0 < t.next) × (t.phase r.0 ≢ some process)

record IsOnce (t : Phases) : Type 0 where
  below : (a : ℕ) (st : CallStatus) → t.phase a ≡ some st → a < t.next
  settled : All (IsSettled t) t.replied
  once : AllOnce t.replied

All-IsSettled :
    (t u : Phases) (l : List (ℕ × String))
    → ((r : ℕ × String) → IsSettled t r → IsSettled u r)
    → All (IsSettled t) l
    → All (IsSettled u) l
All-IsSettled t u [] f h = tt
All-IsSettled t u (r ∷ l) f (s, h) = (f r s, All-IsSettled t u l f h)

not_waiting :
    (t : Phases) (tag : ℕ) (l : List (ℕ × String))
    → t.phase tag ≡ some process
    → All (IsSettled t) l
    → All (λ (q : ℕ × String). q.0 ≢ tag) l
not_waiting t tag [] e h = tt
not_waiting t tag (r ∷ l) e ((lt, s), h) = (λ same. s (rw same e), not_waiting t tag l e h)

All-IsSettled-concat :
    (t : Phases) (l : List (ℕ × String)) (r : ℕ × String)
    → All (IsSettled t) l
    → IsSettled t r
    → All (IsSettled t) (l ++ r ∷ [])
All-IsSettled-concat t [] r h s = (s, tt)
All-IsSettled-concat t (q ∷ l) r (e, h) s = (e, All-IsSettled-concat t l r h s)

module _ ⦃E : Env⦄ where
  Move-IsOnce : (t u : Phases) → Move t u → IsOnce t → IsOnce u
  Move-IsOnce t u (answers tag body rsp w served st ph nx rp) h = record {
    below = λ a st' e. ground (arith, ph a, h.below a st', h.below tag process st);
    settled = rw rp (
        All-IsSettled-concat u t.replied (tag, rsp)
          (All-IsSettled t u t.replied
            (λ r s. (ground (arith, s.0), λ e. ground (arith, ph r.0, s.0, s.1, e))) h.settled)
          (
            ground (arith, h.below tag process st),
            λ e. ground (arith, ph tag, h.below tag process st, e),
          ));
    once =
        rw rp (AllOnce-concat t.replied tag rsp h.once (not_waiting t tag t.replied st h.settled));
  }
  Move-IsOnce t u (leaves tag st ph nx rp) h = record {
    below = λ a st' e. ground (arith, ph a, h.below a st');
    settled = rw rp (
        All-IsSettled t u t.replied
          (λ r s. (ground (arith, s.0), λ e. ground (arith, ph r.0, s.1, e))) h.settled);
    once = rw rp h.once;
  }

  Moves-IsOnce : (t u : Phases) → Moves t u → IsOnce t → IsOnce u
  Moves-IsOnce t u here h = h
  Moves-IsOnce t u (then_move {t = mid} m move) h = Move-IsOnce mid u move (Moves-IsOnce t mid m h)

six_wait-IsOnce : IsOnce six_wait
six_wait-IsOnce = record { below = λ a st e. ground arith; settled = tt; once = tt }

-- Whatever events the queue hands out, while the process lives no instance has replied twice.
pub run-AllOnce :
    ⦃E : Env⦄
    → (l : List (ℕ × String)) (svc : AsyncService) (w : World) → (run l w).0 ≡ done svc
    → AllOnce svc.replied
run-AllOnce l svc w e =
    (Moves-IsOnce six_wait (view svc) (run-Moves l svc w e) six_wait-IsOnce).once
