-- ===== src/Handler/Members.antt =====
-- What a member of a JSON value is after another has been written.
use xrpcserver.Prelude.{String, ◌≡◌, refl, ◌∙◌, true, false, str_eq, eq_iff, arith}
use xrpcserver.Env.{Env, JsonLaws}
use xrpcserver.Rpc.{Json}

module _ ⦃E : Env⦄ where
  module _ (L : JsonLaws E.json) where
    str_eq_self : (k : String) → str_eq k k ≡ true
    str_eq_self k = ground (arith, eq_iff k k)

    -- The member that was written last, and any other.
    pub same : {v x : Json} {k : String} → E.keyed v ≡ true → E.get (E.put v k x) k ≡ x
    same {v} {x} {k} h = L.get-put v k x k h ∙ rw (str_eq_self k) refl

    pub other :
        {v x : Json} {k j : String}
        → str_eq k j ≡ false
        → E.keyed v ≡ true
        → E.get (E.put v k x) j ≡ E.get v j
    other {v} {x} {k} {j} e h = L.get-put v k x j h ∙ rw e refl
