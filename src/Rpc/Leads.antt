-- ===== src/Rpc/Leads.antt =====
-- What every run of a method keeps, whether it ends normally, throws or has no defined result: one
-- rule for each way to build a method.
use xrpcserver.Prelude.{
  String, ◌≡◌, refl, Bool, true, false, Option, none, some, Outcome, done, thrown, undefined,
  if◌then◌else◌,
}
use xrpcserver.Env.{Env}
use xrpcserver.Rpc.Request.{State, Rpc}
use xrpcserver.Rpc.Monad.{
  pure, done_unit, lift, gets, query, when_found, root_string, root_int, root_int64, item_string,
  continue, ◌>>=◌,
}

module _ ⦃E : Env⦄ where
  -- From a state with `P`, the method leaves a state with `Q`.
  pub record Leads {A : Type 0} (P Q : State → Type 0) (m : Rpc A) : Type 0 where
    pub at : (s : State) → P s → Q (m s).1

  pub record Preserves {A : Type 0} (P : State → Type 0) (m : Rpc A) : Type 0 where
    pub at : (s : State) → P s → P (m s).1

  module _ {P : State → Type 0} where
    pub Preserves-pure : {A : Type 0} (a : A) → Preserves P (pure a)
    unfolding pure
    Preserves-pure a = record { at = λ s h. h }

    pub Preserves-done_unit : Preserves P done_unit
    unfolding done_unit
    Preserves-done_unit = record { at = λ s h. h }

    pub Preserves-lift : {A : Type 0} (o : Outcome A) → Preserves P (lift o)
    unfolding lift
    Preserves-lift o = record { at = λ s h. h }

    pub Preserves-gets : {A : Type 0} (f : State → A) → Preserves P (gets f)
    unfolding gets
    Preserves-gets f = record { at = λ s h. h }

    pub Preserves-query : {A : Type 0} (f : E.Store → A) → Preserves P (query f)
    unfolding query
    Preserves-query f = record { at = λ s h. h }

    pub Preserves-root_string : (k : String) → Preserves P (root_string k)
    unfolding root_string
    Preserves-root_string k = record { at = λ s h. h }

    pub Preserves-root_int : (k : String) → Preserves P (root_int k)
    unfolding root_int
    Preserves-root_int k = record { at = λ s h. h }

    pub Preserves-root_int64 : (k : String) → Preserves P (root_int64 k)
    unfolding root_int64
    Preserves-root_int64 k = record { at = λ s h. h }

    pub Preserves-item_string : (k : String) → Preserves P (item_string k)
    unfolding item_string
    Preserves-item_string k = record { at = λ s h. h }

    pub Preserves-if :
        {A : Type 0} (b : Bool) (m n : Rpc A)
        → Preserves P m
        → Preserves P n
        → Preserves P (if b then m else n)
    Preserves-if true m n km kn = km
    Preserves-if false m n km kn = kn

    pub Preserves-when_found :
        {A B : Type 0} (o : Option A) (m : Rpc B) (f : A → Rpc B)
        → Preserves P m
        → ((a : A) → Preserves P (f a))
        → Preserves P (when_found o m f)
    unfolding when_found
    Preserves-when_found none m f km kf = km
    Preserves-when_found (some a) m f km kf = kf a

    Preserves-continue :
        {A B : Type 0} (o : Outcome A) (f : A → Rpc B) (s : State)
        → ((a : A) → Preserves P (f a))
        → P s
        → P (continue o f s).1
    Preserves-continue (done a) f s kf h = (kf a).at s h
    Preserves-continue thrown f s kf h = h
    Preserves-continue undefined f s kf h = h

    pub Preserves-bind :
        {A B : Type 0} (m : Rpc A) (f : A → Rpc B)
        → Preserves P m
        → ((a : A) → Preserves P (f a))
        → Preserves P (m >>= f)
    unfolding ◌>>=◌
    Preserves-bind m f km kf = record {
      at = λ s h. Preserves-continue (m s).0 f (m s).1 kf (km.at s h);
    }

  pub ruleset preserves_rules = (
    Preserves-pure, Preserves-done_unit, Preserves-lift, Preserves-gets, Preserves-query,
    Preserves-root_string, Preserves-root_int, Preserves-root_int64, Preserves-item_string,
    Preserves-if, Preserves-when_found, Preserves-bind,
  )

  -- `Q` is what holds at the end: by `weaken` also where the method stops early.
  module _ {P Q : State → Type 0} (weaken : (s : State) → P s → Q s) where
    pub Leads-Preserves : {A : Type 0} (m : Rpc A) → Preserves P m → Leads P Q m
    Leads-Preserves m km = record { at = λ s h. weaken (m s).1 (km.at s h) }

    Leads-continue :
        {A B : Type 0} (o : Outcome A) (f : A → Rpc B) (s : State)
        → ((a : A) → Leads P Q (f a))
        → P s
        → Q (continue o f s).1
    Leads-continue (done a) f s lf h = (lf a).at s h
    Leads-continue thrown f s lf h = weaken s h
    Leads-continue undefined f s lf h = weaken s h

    pub Leads-bind :
        {A B : Type 0} (m : Rpc A) (f : A → Rpc B)
        → Preserves P m
        → ((a : A) → Leads P Q (f a))
        → Leads P Q (m >>= f)
    unfolding ◌>>=◌
    Leads-bind m f km lf = record { at = λ s h. Leads-continue (m s).0 f (m s).1 lf (km.at s h) }

  -- A step that leaves the state alone, for a proof that needs what it yields.
  pub continue-Leads :
      {A B : Type 0} (Q : State → Type 0) (o : Outcome A) (f : A → Rpc B) (s : State)
      → Q s
      → ((a : A) → o ≡ done a → Q (f a s).1)
      → Q (continue o f s).1
  continue-Leads Q (done a) f s h each = each a refl
  continue-Leads Q thrown f s h each = h
  continue-Leads Q undefined f s h each = h

  module _ {P Q : State → Type 0} where
    pub Leads-if :
        {A : Type 0} (b : Bool) (m n : Rpc A)
        → Leads P Q m
        → Leads P Q n
        → Leads P Q (if b then m else n)
    Leads-if true m n lm ln = lm
    Leads-if false m n lm ln = ln

    pub Leads-when_found :
        {A B : Type 0} (o : Option A) (m : Rpc B) (f : A → Rpc B)
        → Leads P Q m
        → ((a : A) → Leads P Q (f a))
        → Leads P Q (when_found o m f)
    unfolding when_found
    Leads-when_found none m f lm lf = lm
    Leads-when_found (some a) m f lm lf = lf a

    -- The first step establishes `Q`, and the rest keeps it.
    pub Leads-first :
        {A B : Type 0} (m : Rpc A) (f : A → Rpc B)
        → Leads P Q m
        → ((a : A) → Preserves Q (f a))
        → Leads P Q (m >>= f)
    unfolding ◌>>=◌
    Leads-first m f lm kf = record {
      at = λ s h. Preserves-continue (m s).0 f (m s).1 kf (lm.at s h);
    }

  pub ruleset leads_rules = (Leads-bind, Leads-if, Leads-when_found)
