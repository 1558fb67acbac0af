-- ===== src/Handler/Page.antt =====
-- xrpc_handler.cpp: the page that `query_online_tx` answers.
use xrpcserver.Prelude.{
  Forall2, Bool-cases, inl, inr, ℕ, ◌+◌, ◌-◌, ◌*◌, ◌<◌, ◌^◌, List, [], ◌∷◌, ◌++◌, ◌≡◌, refl, ap,
  sym, subst, ◌∙◌, append-nil, append_assoc, pos, true, false, done, some, length, take, drop,
  arith, to_string,
}
use xrpcserver.Env.{Env, JsonLaws}
use xrpcserver.Rpc.{Tx, State, ◌>>=◌, int_in, set_rsp, done_unit}
use xrpcserver.Handler.Response.{set_result_ok}
use xrpcserver.Handler.History.{in_page, online_loop, query_online_tx}
use xrpcserver.Handler.Members.{same, other}
use xrpcserver.Handler.Answers.{Result}
use xrpcserver.Handler.Counts.{page, page_lem, next_num_lem, int_mul_lem, int_add_lem}
use xrpcserver.Handler.Online.{
  IsOnline, online_value, online_values, keyed-online_value, online_values-Shows, shown,
  online_item_lem,
}

module _ ⦃E : Env⦄ where
  module _ (L : JsonLaws E.json) where
    -- What a run of the loop leaves, where it shows these transactions.
    record Ran (start stop n : ℕ) (l page : List Tx) (s : State) : Type 0 where
      end : State
      run : online_loop (pos start) (pos stop) l n s ≡ (done tt, end)
      same_rsp : end.rsp ≡ s.rsp
      all : E.elements end.array_obj ≡ E.elements s.array_obj ++ online_values s.item page

    Ran-nil : (start stop n : ℕ) (s : State) → Ran start stop n [] [] s
    unfolding online_loop done_unit
    Ran-nil start stop n s = record {
      end = s;
      run = refl;
      same_rsp = refl;
      all = sym (append-nil (E.elements s.array_obj));
    }

    -- A transaction outside the page, and one of the page.
    Ran-skip :
        (start stop n : ℕ) (t : Tx) (l page : List Tx) (s : State)
        → n + 1 < 2 ^ 31
        → in_page (pos start) (pos stop) n ≡ false
        → Ran start stop (n + 1) l page s
        → Ran start stop n (t ∷ l) page s
    unfolding online_loop ◌>>=◌
    Ran-skip start stop n t l page s h e r = record {
      end = r.end;
      run = rw (e, next_num_lem n h) r.run;
      same_rsp = r.same_rsp;
      all = r.all;
    }

    Ran-show :
        (start stop n : ℕ) (t : Tx) (l page : List Tx) (s : State)
        → n + 1 < 2 ^ 31
        → in_page (pos start) (pos stop) n ≡ true
        → E.keyed s.item ≡ true
        → E.listed s.array_obj ≡ true
        → Ran start stop (n + 1) l page (shown L t s)
        → Ran start stop n (t ∷ l) (t ∷ page) s
    unfolding online_loop ◌>>=◌
    Ran-show start stop n t l page s h e k a r = record {
      end = r.end;
      run = rw (e, online_item_lem L t s k a, next_num_lem n h) r.run;
      same_rsp = r.same_rsp;
      all =
          r.all
          ∙ ap (λ vs. vs ++ online_values (online_value t s.item) page)
              (L.elements-append s.array_obj _ a)
          ∙ append_assoc (E.elements s.array_obj) _ _;
    }

    -- The loop shows the page, from any number on.
    Ran-page :
        (start stop : ℕ) (l : List Tx) (n : ℕ) (s : State)
        → n + length l < 2 ^ 31
        → E.keyed s.item ≡ true
        → E.listed s.array_obj ≡ true
        → Ran start stop n l (page start stop n l) s
    unfolding page
    Ran-page start stop [] n s h k a = Ran-nil start stop n s
    Ran-page start stop (t ∷ l) n s h k a = elim (Bool-cases (in_page (pos start) (pos stop) n)) [
      | inl inside ↦ rw inside (
          Ran-show start stop n t l (page start stop (n + 1) l) s (omega arith) inside k a (
            Ran-page start stop l (n + 1) (shown L t s) (omega arith)
              (keyed-online_value L t s.item k) (L.listed-append s.array_obj _ a)))
      | inr outside ↦ rw outside (
          Ran-skip start stop n t l (page start stop (n + 1) l) s (omega arith) outside
            (Ran-page start stop l (n + 1) s (omega arith) k a))
    ]

    -- Where "count" reads as `m` and "per_page" as `p`, the numbers are in the range of `int`, the
    -- store has less than 2 ^ 31 transactions, and the handler has an object or nothing in each
    -- member and no block yet: the request ends normally, "Result" is 1, "count" is the number of
    -- the transactions, and "blocks" shows page `m` of them in order: `p` at most, after the first
    -- `m * p`.
    pub query_online_tx-Shows :
        (s : State) (m p : ℕ) (l : List Tx)
        → int_in s.root "count" ≡ done (pos m)
        → int_in s.root "per_page" ≡ done (pos p)
        → E.query_online_tx s.store ≡ some l
        → m + 1 < 2 ^ 31
        → (m + 1) * p < 2 ^ 31
        → length l < 2 ^ 31
        → E.keyed s.rsp ≡ true
        → E.keyed s.item ≡ true
        → E.listed s.array_obj ≡ true
        → E.elements s.array_obj ≡ []
        → ((query_online_tx s).0 ≡ done tt)
          × Result 1 (query_online_tx s).1
          × (E.get (query_online_tx s).1.rsp "count" ≡ E.of_string (to_string (length l)))
          × Forall2 IsOnline
              (take p (drop (m * p) l))
              (E.elements (E.get (query_online_tx s).1.rsp "blocks"))
    unfolding query_online_tx ◌>>=◌ set_result_ok set_rsp
    query_online_tx-Shows s m p l e₁ e₂ e₃ h₁ h₂ h₃ k₁ i a blank =
        let r = Ran-page (m * p) ((m + 1) * p) l 0 s (omega (arith, h₃)) i a in
        let size : (m + 1) * p - m * p ≡ p = omega arith in
        let k₂ = L.keyed-put s.rsp "blocks" r.end.array_obj k₁ in
        let k₃ = L.keyed-put _ "count" (E.of_string (to_string (length l))) k₂ in
        let blocks : E.elements (
              E.get
                (E.put
                  (E.put (E.put s.rsp "blocks" r.end.array_obj) "count"
                    (E.of_string (to_string (length l))))
                  "Result" (E.of_int (pos 1)))
                "blocks")
            ≡ online_values s.item (take p (drop (m * p) l)) =
          ap E.elements (other L refl k₃ ∙ other L refl k₂ ∙ same L k₁)
          ∙ r.all
          ∙ rw (blank, page_lem (m * p) ((m + 1) * p) 0 (m * p) l (omega arith), size) refl in
        rw
          (
            e₁,
            e₂,
            int_mul_lem m p (omega arith),
            int_add_lem m 1 h₁,
            int_mul_lem (m + 1) p h₂,
            e₃,
            r.run,
            r.same_rsp,
            k₁,
            k₂,
            k₃,
          )
          (
            refl,
            same L k₃,
            other L refl k₃ ∙ same L k₂,
            subst (Forall2 IsOnline (take p (drop (m * p) l))) (sym blocks)
                (online_values-Shows L s.item (take p (drop (m * p) l)) i),
          )
