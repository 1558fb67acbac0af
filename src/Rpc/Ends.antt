-- ===== src/Rpc/Ends.antt =====
-- What holds where a method ends normally: one rule for each way to build a method.
use xrpcserver.Prelude.{
  ◌≡◌, refl, Bool, true, false, Option, none, some, Outcome, done, thrown, undefined, if◌then◌else◌,
}
use xrpcserver.Env.{Env}
use xrpcserver.Rpc.Request.{State, Rpc}
use xrpcserver.Rpc.Monad.{when_found, continue, ◌>>=◌}
use xrpcserver.Rpc.Leads.{Preserves}

module _ ⦃E : Env⦄ where
  pub record Ends {A : Type 0} (P Q : State → Type 0) (m : Rpc A) : Type 0 where
    pub at : (s : State) → P s → (a : A) → (m s).0 ≡ done a → Q (m s).1

  Ends-kept :
      {A B : Type 0} {Q : State → Type 0} (o : Outcome A) (f : A → Rpc B) (s : State)
      → ((a : A) → o ≡ done a → Q s)
      → ((a : A) → Preserves Q (f a))
      → (b : B) → (continue o f s).0 ≡ done b
      → Q (continue o f s).1
  Ends-kept (done a) f s h kf b e = (kf a).at s (h a refl)
  Ends-kept thrown f s h kf b e = cc
  Ends-kept undefined f s h kf b e = cc

  module _ {P Q : State → Type 0} where
    Ends-continue :
        {A B : Type 0} (o : Outcome A) (f : A → Rpc B) (s : State)
        → P s
        → ((a : A) → Ends P Q (f a))
        → (b : B) → (continue o f s).0 ≡ done b
        → Q (continue o f s).1
    Ends-continue (done a) f s h ef b e = (ef a).at s h b e
    Ends-continue thrown f s h ef b e = cc
    Ends-continue undefined f s h ef b e = cc

    pub Ends-bind :
        {A B : Type 0} (m : Rpc A) (f : A → Rpc B)
        → Preserves P m
        → ((a : A) → Ends P Q (f a))
        → Ends P Q (m >>= f)
    unfolding ◌>>=◌
    Ends-bind m f km ef = record {
      at = λ s h b e. Ends-continue (m s).0 f (m s).1 (km.at s h) ef b e;
    }

    pub Ends-if :
        {A : Type 0} (b : Bool) (m n : Rpc A)
        → Ends P Q m
        → Ends P Q n
        → Ends P Q (if b then m else n)
    Ends-if true m n em en = em
    Ends-if false m n em en = en

    pub Ends-when_found :
        {A B : Type 0} (o : Option A) (m : Rpc B) (f : A → Rpc B)
        → Ends P Q m
        → ((a : A) → Ends P Q (f a))
        → Ends P Q (when_found o m f)
    unfolding when_found
    Ends-when_found none m f em ef = em
    Ends-when_found (some a) m f em ef = ef a

    -- The first step establishes `Q`, and the rest keeps it.
    pub Ends-first :
        {A B : Type 0} (m : Rpc A) (f : A → Rpc B)
        → Ends P Q m
        → ((a : A) → Preserves Q (f a))
        → Ends P Q (m >>= f)
    unfolding ◌>>=◌
    Ends-first m f em kf = record { at = λ s h b e. Ends-kept (m s).0 f (m s).1 (em.at s h) kf b e }

  pub ruleset ends_rules = (Ends-bind, Ends-if, Ends-when_found)
