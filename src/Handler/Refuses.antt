-- ===== src/Handler/Refuses.antt =====
-- What the response says where the check of the input refuses it.
use xrpcserver.Prelude.{
  ◌≡◌, refl, Bool, true, false, not, ℤ, Outcome, done, thrown, undefined, if◌then◌else◌,
}
use xrpcserver.Env.{Env, JsonLaws}
use xrpcserver.Rpc.{State, Rpc, ◌>>=◌, ◌>>◌, continue, pure}
use xrpcserver.Handler.Response.{set_result_fail}
use xrpcserver.Handler.Transfer.{check_input}
use xrpcserver.Handler.Answers.{Result, set_result_fail-Result}

module _ ⦃E : Env⦄ where
  -- Where this ends with `false`, "Result" is 0.
  pub record Refuses (m : Rpc Bool) : Type 0 where
    pub at : (s : State) → (m s).0 ≡ done false → Result 0 (m s).1

  Refuses-true : Refuses (pure true)
  unfolding pure
  Refuses-true = record { at = λ s e. cc }

  Refuses-if : (b : Bool) (m n : Rpc Bool) → Refuses m → Refuses n → Refuses (if b then m else n)
  Refuses-if true m n rm rn = rm
  Refuses-if false m n rm rn = rn

  Refuses-bind :
      {A : Type 0} (m : Rpc A) (f : A → Rpc Bool) → ((a : A) → Refuses (f a)) → Refuses (m >>= f)
  unfolding ◌>>=◌
  Refuses-bind {A} m f rf = record { at = λ s e. go (m s).0 (m s).1 e }
    where
      go :
          (o : Outcome A) (s : State)
          → (continue o f s).0 ≡ done false
          → Result 0 (continue o f s).1
      go (done a) s e = (rf a).at s e
      go thrown s e = cc
      go undefined s e = cc

  Refuses-then :
      (m n : Rpc Bool)
      → Refuses m
      → Refuses n
      → Refuses (m >>= λ valid. if not valid then pure false else n)
  unfolding ◌>>=◌
  Refuses-then m n rm rn = record { at = λ s e. go (m s).0 (m s).1 (rm.at s) e }
    where
      rest : Bool → Rpc Bool
      rest valid = if not valid then pure false else n

      go :
          (o : Outcome Bool) (s : State)
          → (o ≡ done false → Result 0 s)
          → (continue o rest s).0 ≡ done false
          → Result 0 (continue o rest s).1
      go (done true) s h e = rn.at s e
      go (done false) s h e = h refl
      go thrown s h e = cc
      go undefined s h e = cc

  module _ (L : JsonLaws E.json) where
    Refuses-fail : (r : ℤ) → Refuses (set_result_fail r >> pure false)
    unfolding ◌>>=◌
    Refuses-fail r = record {
      at = λ s e.
          go (set_result_fail r s).0 (set_result_fail r s).1
            (λ a. (set_result_fail-Result L (λ s'. Unit {0}) r).at s tt a) e;
    }
      where
        go :
            (o : Outcome (Unit {0})) (s : State)
            → ((a : Unit {0}) → o ≡ done a → Result 0 s)
            → (continue o (λ u. pure false) s).0 ≡ done false
            → Result 0 (continue o (λ u. pure false) s).1
        go (done a) s h e = h a refl
        go thrown s h e = cc
        go undefined s h e = cc

    pub check_input-Refuses : Refuses check_input
    unfolding check_input
    check_input-Refuses =
        search (Refuses-then, Refuses-fail, Refuses-true, Refuses-if, Refuses-bind) depth 20
