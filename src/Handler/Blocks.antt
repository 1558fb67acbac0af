-- ===== src/Handler/Blocks.antt =====
-- xrpc_handler.cpp: the page that `account_history` answers.
use xrpcserver.Prelude.{
  ℕ, suc, ◌+◌, ◌-◌, ◌*◌, ◌<◌, ◌^◌, String, List, [], ◌∷◌, ◌++◌, ◌≡◌, refl, ap, sym, subst, ◌∙◌, inl,
  inr, append-nil, append_assoc, pos, Bool-cases, true, false, done, length, select, take, drop,
  Forall2, arith, to_string,
}
use xrpcserver.Env.{Env, JsonLaws}
use xrpcserver.Rpc.{Json, Tx, State, ◌>>=◌, string_in, int_in, set_rsp, pure}
use xrpcserver.Handler.Response.{set_result_ok}
use xrpcserver.Handler.History.{UserTag, is_transfer, in_page, history_loop, account_history}
use xrpcserver.Handler.Members.{same, other}
use xrpcserver.Handler.Answers.{Result}
use xrpcserver.Handler.Counts.{page, page_lem, next_num_lem, int_mul_lem, int_add_lem}
use xrpcserver.Handler.Tags.{LeavesOut, Names}
use xrpcserver.Handler.Block.{ShownBlock, history_item-ShownBlock}
use xrpcserver.Handler.Shown.{IsBlock}

module _ ⦃E : Env⦄ where
  -- What a run of the loop leaves, from the number `n` on.
  record Listed (start stop n : ℕ) (l : List Tx) (m : UserTag) (s : State) : Type 0 where
    end : State
    blocks : List Json
    run :
        history_loop (pos start) (pos stop) l n m s
        ≡ (done (n + length (select is_transfer l)), end)
    keyed_rsp : E.keyed end.rsp ≡ true
    ok : Result 1 end
    all : E.elements end.array_obj ≡ E.elements s.array_obj ++ blocks
    shows : Forall2 (IsBlock s.store) (page start stop n (select is_transfer l)) blocks

  -- A handler in the middle of the loop: its members can be written, and the table agrees with the
  -- store.
  record IsReady (m : UserTag) (s : State) : Type 0 where
    keyed : E.keyed s.item ≡ true
    keyed_rsp : E.keyed s.rsp ≡ true
    listed : E.listed s.array_obj ≡ true
    ok : Result 1 s
    names : Names s.store m

  module _ (L : JsonLaws E.json) where
    -- A transaction of the kind that is counted, outside the page, and in it.
    Listed-skip :
        (start stop n : ℕ) (t : Tx) (l : List Tx) (m : UserTag) (s : State)
        → is_transfer t ≡ true
        → in_page (pos start) (pos stop) n ≡ false
        → n + 1 < 2 ^ 31
        → Listed start stop (n + 1) l m s
        → Listed start stop n (t ∷ l) m s
    unfolding history_loop page ◌>>=◌
    Listed-skip start stop n t l m s counted outside h rest =
        let e : n + suc (length (select is_transfer l)) ≡ n + 1 + length (select is_transfer l) =
          omega arith in
        record {
          end = rest.end;
          blocks = rest.blocks;
          run = rw (counted, outside, next_num_lem n h, e) rest.run;
          keyed_rsp = rest.keyed_rsp;
          ok = rest.ok;
          all = rest.all;
          shows = rw (counted, outside) rest.shows;
        }

    abbrev after_block : {t : Tx} {m : UserTag} {s : State} → ShownBlock L t m s → State
    after_block {s} a = record s {
      item = a.item;
      rsp = E.put s.rsp "Result" (E.of_int (pos 1));
      array_obj = E.append s.array_obj a.item;
    }

    Listed-show :
        (start stop n : ℕ) (t : Tx) (l : List Tx) (m : UserTag) (s : State)
        → is_transfer t ≡ true
        → in_page (pos start) (pos stop) n ≡ true
        → n + 1 < 2 ^ 31
        → E.listed s.array_obj ≡ true
        → (a : ShownBlock L t m s) → Listed start stop (n + 1) l a.tags (after_block a)
        → Listed start stop n (t ∷ l) m s
    unfolding history_loop page ◌>>=◌
    Listed-show start stop n t l m s counted inside h listed a rest =
        let e : n + suc (length (select is_transfer l)) ≡ n + 1 + length (select is_transfer l) =
          omega arith in
        record {
          end = rest.end;
          blocks = a.item ∷ rest.blocks;
          run = rw (counted, inside, a.run, next_num_lem n h, e) rest.run;
          keyed_rsp = rest.keyed_rsp;
          ok = rest.ok;
          all =
              rest.all
              ∙ ap (λ vs. vs ++ rest.blocks) (L.elements-append s.array_obj a.item listed)
              ∙ append_assoc (E.elements s.array_obj) _ _;
          shows = rw (counted, inside) (a.is_block, rest.shows);
        }

    IsReady-after_block :
        {t : Tx} {m : UserTag} {s : State} (a : ShownBlock L t m s)
        → IsReady m s
        → IsReady a.tags (after_block a)
    IsReady-after_block {s} a r = record {
      keyed = a.keyed;
      keyed_rsp = L.keyed-put s.rsp "Result" (E.of_int (pos 1)) r.keyed_rsp;
      listed = L.listed-append s.array_obj a.item r.listed;
      ok = same L r.keyed_rsp;
      names = a.names;
    }

    history_loop-Listed :
        (start stop : ℕ) (l : List Tx) (n : ℕ) (m : UserTag) (s : State)
        → n + length (select is_transfer l) < 2 ^ 31
        → LeavesOut
        → IsReady m s
        → Listed start stop n l m s
    unfolding history_loop page pure
    history_loop-Listed start stop [] n m s h out r = record {
      end = s;
      blocks = [];
      run = let e : n + 0 ≡ n = omega arith in rw e refl;
      keyed_rsp = r.keyed_rsp;
      ok = r.ok;
      all = sym (append-nil (E.elements s.array_obj));
      shows = tt;
    }
    history_loop-Listed start stop (t ∷ l) n m s h out r = elim (Bool-cases (is_transfer t)) [
      | inr skipped ↦
          let rest = history_loop-Listed start stop l n m s (rw skipped at h) out r in
          record {
            end = rest.end;
            blocks = rest.blocks;
            run = rw skipped rest.run;
            keyed_rsp = rest.keyed_rsp;
            ok = rest.ok;
            all = rest.all;
            shows = rw skipped rest.shows;
          }
      | inl counted ↦
          let few : n + 1 + length (select is_transfer l) < 2 ^ 31 =
            let h' = rw counted at h in omega arith in
          elim (Bool-cases (in_page (pos start) (pos stop) n)) [
            | inr outside ↦
                Listed-skip start stop n t l m s counted outside (omega arith)
                  (history_loop-Listed start stop l (n + 1) m s few out r)
            | inl inside ↦
                let a = history_item-ShownBlock L t m s r.keyed r.keyed_rsp r.listed r.names out in
                Listed-show start stop n t l m s counted inside (omega arith) r.listed a (
                  history_loop-Listed start stop l (n + 1) a.tags (after_block a) few out
                    (IsReady-after_block a r))
          ]
    ]

    -- Where the account reads, "count" reads as `p` and "per_page" as `size`, the numbers are in the
    -- range of `int`, less than 2 ^ 31 transfers are settled for the account, the handler has an
    -- object or nothing in each member and no block yet, and a getter that finds no property leaves
    -- its out parameter alone: the request ends normally, "Result" is 1, "count" is the number of
    -- the transfers among the settled transactions, and "blocks" shows page `p` of them in order,
    -- `size` at most, after the first `p * size`, each with its members and with the names that the
    -- store has for its accounts.
    pub account_history-Shows :
        (s : State) (account : String) (p size : ℕ)
        → string_in s.root "account" ≡ done account
        → int_in s.root "count" ≡ done (pos p)
        → int_in s.root "per_page" ≡ done (pos size)
        → p + 1 < 2 ^ 31
        → (p + 1) * size < 2 ^ 31
        → length (select is_transfer (E.get_settle_blocks s.store account)) < 2 ^ 31
        → E.keyed s.rsp ≡ true
        → E.keyed s.item ≡ true
        → E.listed s.array_obj ≡ true
        → E.elements s.array_obj ≡ []
        → LeavesOut
        → ((account_history s).0 ≡ done tt)
          × Result 1 (account_history s).1
          × (E.get (account_history s).1.rsp "count"
              ≡ E.of_string
                  (to_string (length (select is_transfer (E.get_settle_blocks s.store account)))))
          × Forall2
              (IsBlock s.store)
              (take size
                (drop (p * size) (select is_transfer (E.get_settle_blocks s.store account))))
              (E.elements (E.get (account_history s).1.rsp "blocks"))
    unfolding account_history ◌>>=◌ set_result_ok set_rsp
    account_history-Shows s account p size e₁ e₂ e₃ h₁ h₂ h₃ k i a blank out =
        let l = E.get_settle_blocks s.store account in
        let transfers = select is_transfer l in
        let k₁ = L.keyed-put s.rsp "Result" (E.of_int (pos 1)) k in
        let r =
          history_loop-Listed (p * size) ((p + 1) * size) l 0 []
            (record s { rsp = E.put s.rsp "Result" (E.of_int (pos 1)) }) (omega (arith, h₃)) out
            (record { keyed = i; keyed_rsp = k₁; listed = a; ok = same L k; names = tt }) in
        let k₂ = L.keyed-put r.end.rsp "blocks" r.end.array_obj r.keyed_rsp in
        let width : (p + 1) * size - p * size ≡ size = omega arith in
        let none_before : 0 + length transfers ≡ length transfers = omega arith in
        let blocks : E.elements (
              E.get
                (E.put (E.put r.end.rsp "blocks" r.end.array_obj) "count"
                  (E.of_string (to_string (length transfers))))
                "blocks")
            ≡ r.blocks =
          ap E.elements (other L refl k₂ ∙ same L r.keyed_rsp) ∙ r.all ∙ rw blank refl in
        let shown : Forall2 (IsBlock s.store) (take size (drop (p * size) transfers)) r.blocks =
          subst (λ (n : ℕ). Forall2 (IsBlock s.store) (take n (drop (p * size) transfers)) r.blocks)
            width
            (subst (λ (t : List Tx). Forall2 (IsBlock s.store) t r.blocks)
              (page_lem (p * size) ((p + 1) * size) 0 (p * size) transfers (omega arith))
              r.shows) in
        rw
          (
            e₁,
            e₂,
            e₃,
            int_mul_lem p size (omega arith),
            int_add_lem p 1 h₁,
            int_mul_lem (p + 1) size h₂,
            k,
            r.run,
            none_before,
            r.keyed_rsp,
            k₂,
          )
          (
            refl,
            other L refl k₂ ∙ other L refl r.keyed_rsp ∙ r.ok,
            same L k₂,
            subst
                (λ (vs : List Json).
                  Forall2 (IsBlock s.store) (take size (drop (p * size) transfers)) vs)
                (sym blocks) shown,
          )
