-- ===== src/Handler/Verdict.antt =====
-- The checks of `transfer_out` as a function of the store and the transaction.
use xrpcserver.Prelude.{
  String, ◌≡◌, ◌⊎◌, refl, inl, inr, Option, Option-cases, none, some, true, false, ℤ, eq_ℤ, ltb_ℤ,
  ◌≤ℤ◌, stoll, arith, if◌then◌else◌, thrown,
}
use xrpcserver.Base.{
  XrpcReturnEn, value, xrpc_server_account_not_found, xrpc_no_property_key,
  xrpc_server_account_balance_not_enough, xrpc_last_hash_error,
}
use xrpcserver.Env.{Env}
use xrpcserver.Rpc.{Tx, State, Rpc, ◌>>=◌, set_rsp}
use xrpcserver.Handler.Response.{set_result_ok, set_result_fail}
use xrpcserver.Handler.Transfer.{accept, check_funds}
use xrpcserver.Handler.Quiet.{do_transaction_own_lem}

-- What the checks come to.
pub data Verdict : Type 0 where
  pay : Verdict
  refuse : XrpcReturnEn → Verdict
  crash : Verdict

module _ ⦃E : Env⦄ where
  -- `get_last_hash` has no hash for the account, or has the transaction's.
  abbrev pub IsFresh : E.Store → String → Tx → Type 0
  IsFresh store account t =
      (E.get_last_hash store account ≡ none)
      ⊎ ((h : E.Hash) × (E.get_last_hash store account ≡ some h)
          × (E.hash_eq h t.last_msg_digest ≡ true))

  -- The account has a balance of the asset that reads as a number, not below the amount.
  pub record IsFunded (store : E.Store) (account asset amount : String) : Type 0 where
    pub funds : ℤ
    pub wanted : ℤ
    pub exists : eq_ℤ E.account_not_exist (E.get_account_balance store account asset).0 ≡ false
    pub has_asset : eq_ℤ E.no_property_key (E.get_account_balance store account asset).0 ≡ false
    pub balance_reads : stoll (E.get_account_balance store account asset).1 ≡ some funds
    pub amount_reads : stoll amount ≡ some wanted
    pub enough : wanted ≤ℤ funds

  fresh_verdict : Option E.Hash → E.Hash → Verdict
  fresh_verdict none digest = pay
  fresh_verdict (some h) digest = if E.hash_eq h digest then pay else refuse xrpc_last_hash_error

  abbrev compare_funds : Option ℤ → Option ℤ → Verdict → Verdict
  compare_funds none wanted v = crash
  compare_funds (some funds) none v = crash
  compare_funds (some funds) (some wanted) v =
      if ltb_ℤ funds wanted then refuse xrpc_server_account_balance_not_enough else v

  -- The checks as a function of the store and the transaction.
  pub funds_verdict : E.Store → Tx → String → String → String → Verdict
  unfolding fresh_verdict
  funds_verdict store t account asset amount =
      let answer = E.get_account_balance store account asset in
      if eq_ℤ E.account_not_exist answer.0
      then refuse xrpc_server_account_not_found
      else if eq_ℤ E.no_property_key answer.0
      then refuse xrpc_no_property_key
      else compare_funds (stoll answer.1) (stoll amount)
          (fresh_verdict (E.get_last_hash store account) t.last_msg_digest)

  unfoldable pub act : Verdict → Rpc (Unit {0})
  act pay s = accept s
  act (refuse e) s = set_result_fail (value e) s
  act crash s = (thrown, s)

  pub check_funds-eq-act :
      (account asset amount : String) (s : State)
      → check_funds account asset amount s ≡ act (funds_verdict s.store s.tx account asset amount) s
  unfolding check_funds ◌>>=◌ funds_verdict act
  check_funds-eq-act account asset amount s = ground arith

  fresh_sound :
      (o : Option E.Hash) (digest : E.Hash)
      → fresh_verdict o digest ≡ pay
      → (o ≡ none) ⊎ ((h : E.Hash) × (o ≡ some h) × (E.hash_eq h digest ≡ true))
  unfolding fresh_verdict
  fresh_sound none digest e = inl refl
  fresh_sound (some h) digest e = inr (h, refl, ground arith)

  -- The verdict `pay` is right.
  pub pay_sound :
      (store : E.Store) (t : Tx) (account asset amount : String)
      → funds_verdict store t account asset amount ≡ pay
      → IsFunded store account asset amount × IsFresh store account t
  unfolding funds_verdict
  pay_sound store t account asset amount e =
      elim (Option-cases (stoll (E.get_account_balance store account asset).1)) [
        | inl no_funds ↦ ground arith
        | inr (funds, reads) ↦ elim (Option-cases (stoll amount)) [
          | inl no_amount ↦ ground arith
          | inr (wanted, reads') ↦ (
            record {
              funds = funds;
              wanted = wanted;
              exists = ground arith;
              has_asset = ground arith;
              balance_reads = reads;
              amount_reads = reads';
              enough = ground arith;
            },
            fresh_sound (E.get_last_hash store account) t.last_msg_digest (ground arith),
          )
        ]
      ]

  -- The transaction that `accept` sends is the one that it was given.
  pub tx-accept : (s : State) → (accept s).1.tx ≡ s.tx
  unfolding accept ◌>>=◌ set_result_ok set_rsp
  tx-accept s = rw (do_transaction_own_lem s) (ground arith)
