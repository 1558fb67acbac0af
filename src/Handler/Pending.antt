-- ===== src/Handler/Pending.antt =====
-- xrpc_handler.cpp: what `account_pending` answers.
use xrpcserver.Prelude.{
  Forall2, ℕ, zero, suc, ◌+◌, ◌<◌, ◌^◌, String, List, [], ◌∷◌, ◌++◌, ◌≡◌, refl, ap, pos, true,
  false, done, ◌∙◌, sym, subst, append-nil, leb_ℤ, length, take, arith, to_string, append_assoc,
}
use xrpcserver.Env.{Env, JsonLaws}
use xrpcserver.Rpc.{Json, Tx, State, ◌>>=◌, string_in, int_in, set_rsp, set_item, append_item}
use xrpcserver.Utility.{hash_to_json_string}
use xrpcserver.Handler.Response.{set_result_ok}
use xrpcserver.Handler.History.{pending_item, pending_loop, account_pending}
use xrpcserver.Handler.Counts.{next_num_lem}
use xrpcserver.Handler.Members.{same, other}
use xrpcserver.Handler.Answers.{Result}

module _ ⦃E : Env⦄ where
  -- The members of `v` say who sent the transaction, what, how much, and its digest.
  pub record IsPending (t : Tx) (v : Json) : Type 0 where
    pub sender : E.get v "sender" ≡ E.of_string t.sender_addr
    pub property_key : E.get v "property_key" ≡ E.of_string t.property_key
    pub amount : E.get v "amount" ≡ E.of_string t.transaction_params
    pub block : E.get v "block" ≡ E.of_string (hash_to_json_string t.tx_digest)

  abbrev pending_value : Tx → Json → Json
  pending_value t v =
      E.put
        (E.put
          (E.put (E.put v "sender" (E.of_string t.sender_addr)) "property_key"
            (E.of_string t.property_key))
          "amount" (E.of_string t.transaction_params))
        "block" (E.of_string (hash_to_json_string t.tx_digest))

  abbrev pending_values : Json → List Tx → List Json
  pending_values v [] = []
  pending_values v (t ∷ l) = pending_value t v ∷ pending_values (pending_value t v) l

  module _ (L : JsonLaws E.json) where
    keyed-pending_value :
        (t : Tx) (v : Json) → E.keyed v ≡ true → E.keyed (pending_value t v) ≡ true
    keyed-pending_value t v k =
        L.keyed-put _ _ _ (L.keyed-put _ _ _ (L.keyed-put _ _ _ (L.keyed-put _ _ _ k)))

    pending_value-IsPending :
        (t : Tx) (v : Json) → E.keyed v ≡ true → IsPending t (pending_value t v)
    pending_value-IsPending t v k₁ =
        let k₂ = L.keyed-put v "sender" (E.of_string t.sender_addr) k₁ in
        let k₃ = L.keyed-put _ "property_key" (E.of_string t.property_key) k₂ in
        let k₄ = L.keyed-put _ "amount" (E.of_string t.transaction_params) k₃ in
        record {
          sender = other L refl k₄ ∙ other L refl k₃ ∙ other L refl k₂ ∙ same L k₁;
          property_key = other L refl k₄ ∙ other L refl k₃ ∙ same L k₂;
          amount = other L refl k₄ ∙ same L k₃;
          block = same L k₄;
        }

    pending_values-Shows :
        (v : Json) (l : List Tx) → E.keyed v ≡ true → Forall2 IsPending l (pending_values v l)
    pending_values-Shows v [] k = tt
    pending_values-Shows v (t ∷ l) k = (
      pending_value-IsPending t v k,
      pending_values-Shows (pending_value t v) l (keyed-pending_value t v k),
    )

    abbrev shown : Tx → State → State
    shown t s = record s {
      item = pending_value t s.item;
      array_obj = E.append s.array_obj (pending_value t s.item);
    }

    pending_item_lem :
        (t : Tx) (s : State)
        → E.keyed s.item ≡ true
        → E.listed s.array_obj ≡ true
        → pending_item t s ≡ (done tt, shown t s)
    unfolding pending_item ◌>>=◌ set_item append_item
    pending_item_lem t s k₁ h =
        let k₂ = L.keyed-put s.item "sender" (E.of_string t.sender_addr) k₁ in
        let k₃ = L.keyed-put _ "property_key" (E.of_string t.property_key) k₂ in
        let k₄ = L.keyed-put _ "amount" (E.of_string t.transaction_params) k₃ in
        rw (k₁, k₂, k₃, k₄, h) refl

    -- The loop from `n`, which shows `c` transactions at most.
    pending_loop_lem :
        (l : List Tx) (n c count : ℕ) (s : State)
        → count ≡ n + c
        → n + length l < 2 ^ 31
        → E.keyed s.item ≡ true
        → E.listed s.array_obj ≡ true
        → (s' : State) × (pending_loop (pos count) l n s ≡ (done tt, s'))
          × (s'.rsp ≡ s.rsp)
          × (E.elements s'.array_obj ≡ E.elements s.array_obj ++ pending_values s.item (take c l))
    unfolding pending_loop ◌>>=◌
    pending_loop_lem [] n zero count s e h k a =
        (s, refl, refl, sym (append-nil (E.elements s.array_obj)))
    pending_loop_lem [] n (suc c) count s e h k a =
        (s, refl, refl, sym (append-nil (E.elements s.array_obj)))
    pending_loop_lem (t ∷ l) n zero count s e h k a =
        let full : leb_ℤ (pos count) (pos n) ≡ true = ground arith in
        (
          s,
          rw (next_num_lem n (omega arith), full) refl,
          refl,
          sym (append-nil (E.elements s.array_obj)),
        )
    pending_loop_lem (t ∷ l) n (suc c) count s e h k a =
        let more : leb_ℤ (pos count) (pos n) ≡ false = ground arith in
        let (s', run, same, all) =
          pending_loop_lem l (n + 1) c count (shown t s) (omega arith) (omega arith)
            (keyed-pending_value t s.item k) (L.listed-append s.array_obj _ a) in
        (
          s',
          rw (next_num_lem n (omega arith), more, pending_item_lem t s k a) run,
          same,
          all
              ∙ ap (λ vs. vs ++ pending_values (pending_value t s.item) (take c l))
                  (L.elements-append s.array_obj _ a)
              ∙ append_assoc (E.elements s.array_obj) _ _,
        )

    -- Where the account and the count read, the count is a natural number, less than 2 ^ 31 blocks
    -- wait for the account, and the handler has an object or nothing in each member and no block
    -- yet: the request ends normally, "Result" is 1, "count" is the number of the blocks that wait,
    -- and "blocks" shows the first of them, as many as the count, in order.
    pub account_pending-Shows :
        (s : State) (account : String) (c : ℕ)
        → string_in s.root "account" ≡ done account
        → int_in s.root "count" ≡ done (pos c)
        → length (E.get_receive_blocks s.store account) < 2 ^ 31
        → E.keyed s.rsp ≡ true
        → E.keyed s.item ≡ true
        → E.listed s.array_obj ≡ true
        → E.elements s.array_obj ≡ []
        → ((account_pending s).0 ≡ done tt)
          × Result 1 (account_pending s).1
          × (E.get (account_pending s).1.rsp "count"
              ≡ E.of_string (to_string (length (E.get_receive_blocks s.store account))))
          × Forall2 IsPending
              (take c (E.get_receive_blocks s.store account))
              (E.elements (E.get (account_pending s).1.rsp "blocks"))
    unfolding account_pending ◌>>=◌ set_result_ok set_rsp
    account_pending-Shows s account c e₁ e₂ h k₁ i a blank =
        let l = E.get_receive_blocks s.store account in
        let begun : State = record s { rsp = E.put s.rsp "Result" (E.of_int (pos 1)) } in
        let (s', run, same_rsp, all) =
          pending_loop_lem l 0 c c begun (omega arith) (omega (arith, h)) i a in
        let k₂ = L.keyed-put s.rsp "Result" (E.of_int (pos 1)) k₁ in
        let k₃ = L.keyed-put (E.put s.rsp "Result" (E.of_int (pos 1))) "blocks" s'.array_obj k₂ in
        let blocks : E.elements (
              E.get
                (E.put (E.put (E.put s.rsp "Result" (E.of_int (pos 1))) "blocks" s'.array_obj)
                  "count" (E.of_string (to_string (length l))))
                "blocks")
            ≡ pending_values s.item (take c l) =
          ap E.elements (other L refl k₃ ∙ same L k₂) ∙ all ∙ rw blank refl in
        rw (e₁, e₂, k₁, run, same_rsp, k₂, k₃)
          (
            refl,
            other L refl k₃ ∙ other L refl k₂ ∙ same L k₁,
            same L k₃,
            subst (Forall2 IsPending (take c l)) (sym blocks)
                (pending_values-Shows s.item (take c l) i),
          )
