-- ===== src/Handler/Gift.antt =====
-- When `give` gives: the receiver exists and has received nothing yet.
use xrpcserver.Prelude.{
  String, List, [], ◌∷◌, ◌≡◌, ◌⊎◌, refl, inl, inr, subst, Bool-cases, true, false, not, ℤ, done,
  arith, ltb, length, any, All, to_uint64, if◌then◌else◌,
}
use xrpcserver.Base.{xrpc_server_account_not_found, xrpc_server_hash_signature_check_fail}
use xrpcserver.Env.{Env}
use xrpcserver.Rpc.{Tx, State, World, Rpc, ◌>>=◌, ◌>>◌, string_in, int64_in, set_tx, when_found}
use xrpcserver.Rpc.Leads.{Leads, Preserves, continue-Leads, leads_rules}
use xrpcserver.Utility.{transaction_make_transfer_out}
use xrpcserver.Handler.Frame.{set_result_fail-Preserves}
use xrpcserver.Handler.Response.{set_result_fail, fail}
use xrpcserver.Handler.Query.{is_asset_in}
use xrpcserver.Handler.Submit.{
  test_genesis_account_address, last_digest_set, tx_digest_signature_set,
}
use xrpcserver.Handler.Transfer.{verify, check_gift, give}
use xrpcserver.Handler.Quiet.{
  IsQuiet, IsVerified, IsSubmitted, IsQuiet-frame, accept-IsSubmitted, verify-Leads, fail-IsQuiet,
  quiet_rules, tx_digest_signature_set-IsQuiet,
}

module _ ⦃E : Env⦄ where
  -- The account exists, no block waits to be received by it, and no transfer has come in.
  pub record IsNew (store : E.Store) (account : String) : Type 0 where
    pub exists : E.exist_account store account ≡ true
    pub none_pending : E.get_receive_blocks store account ≡ []
    pub none_received : All (λ t. is_asset_in t ≡ false) (E.get_settle_blocks store account)

  none_of_any : (l : List Tx) → any is_asset_in l ≡ false → All (λ t. is_asset_in t ≡ false) l
  none_of_any [] e = tt
  none_of_any (t ∷ l) e = (ground arith, none_of_any l (ground arith))

  empty_of_length : (l : List Tx) → ltb 0 (length l) ≡ false → l ≡ []
  empty_of_length [] e = refl
  empty_of_length (t ∷ l) e = absurd (ground arith)

  abbrev pub MayGive : World → String → State → Type 0
  MayGive w account s = IsQuiet w s ⊎ (IsSubmitted w s × IsNew w.store account)

  check_gift-MayGive :
      (w : World) (account : String) → Leads (IsVerified w) (MayGive w account) (check_gift account)
  unfolding check_gift ◌>>=◌
  check_gift-MayGive w account = record {
    at = λ s h. elim (Bool-cases (E.exist_account s.store account)) [
      | inr e ↦ rw e (refused s _ h.quiet)
      | inl e₁ ↦ rw e₁ (elim (Bool-cases (ltb 0 (length (E.get_receive_blocks s.store account)))) [
        | inl e ↦ rw e (refused s _ h.quiet)
        | inr e₂ ↦
            rw e₂ (elim (Bool-cases (any is_asset_in (E.get_settle_blocks s.store account))) [
              | inl e ↦ rw e (refused s _ h.quiet)
              | inr e₃ ↦ rw e₃ (inr (accept-IsSubmitted.at s h, fresh s h.quiet e₁ e₂ e₃))
            ])
      ])
    ];
  }
    where
      refused : (s : State) (e : ℤ) → IsQuiet w s → MayGive w account (set_result_fail e s).1
      refused s e h = inl ((set_result_fail-Preserves (IsQuiet-frame w) e).at s h)

      fresh :
          (s : State)
          → IsQuiet w s
          → E.exist_account s.store account ≡ true
          → ltb 0 (length (E.get_receive_blocks s.store account)) ≡ false
          → any is_asset_in (E.get_settle_blocks s.store account) ≡ false
          → IsNew w.store account
      fresh s h e₁ e₂ e₃ =
          subst (λ (store : E.Store). IsNew store account) h.same_store
            (record {
              exists = e₁;
              none_pending = empty_of_length _ e₂;
              none_received = none_of_any _ e₃;
            })

  module _ {w : World} {account : String} where
    quiet_give : (s : State) → IsQuiet w s → MayGive w account s
    quiet_give s h = inl h

    fail_give : (e : ℤ) → Leads (IsQuiet w) (MayGive w account) (set_result_fail e)
    fail_give = fail-IsQuiet quiet_give

    verify-MayGive :
        (m n : Rpc (Unit {0}))
        → Preserves (IsQuiet w) m
        → Leads (IsVerified w) (MayGive w account) n
        → Leads
            (IsQuiet w)
            (MayGive w account)
            (verify >>= λ verified. if not verified then m else n)
    verify-MayGive = verify-Leads quiet_give

    ruleset give_rules = (
      fail_give, quiet_rules, leads_rules, quiet_give, verify-MayGive, check_gift-MayGive,
      tx_digest_signature_set-IsQuiet,
    )

  -- What `give` does once it has read its members.
  give_checked : String → ℤ → Rpc (Unit {0})
  give_checked dst_account timestamp = do
    digest ← last_digest_set true test_genesis_account_address
    when_found digest (fail xrpc_server_account_not_found) λ last_hash. do
      set_tx (
          transaction_make_transfer_out test_genesis_account_address dst_account "$$" "100000"
            (to_uint64 timestamp) last_hash)
      tx_digest_signature_set true
      verified ← verify
      if not verified then fail xrpc_server_hash_signature_check_fail else check_gift dst_account

  give_checked-MayGive :
      (dst : String) (timestamp : ℤ) (w : World)
      → Leads (IsQuiet w) (MayGive w dst) (give_checked dst timestamp)
  unfolding give_checked
  give_checked-MayGive dst timestamp w = search give_rules depth 40

  -- However `give` ends, the store is as it was and nothing was sent, or one message was sent that
  -- carries a verified transaction: then the request names a receiver that exists, for which no block
  -- waits, and to which no transfer has come in.
  pub give-IsNew :
      (s : State)
      → IsQuiet s.world (give s).1
        ⊎ ((dst : String) × (string_in s.root "destination" ≡ done dst)
            × IsSubmitted s.world (give s).1
            × IsNew s.store dst)
  unfolding give give_checked ◌>>=◌
  give-IsNew s = continue-Leads Q (string_in s.root "destination") _ s (inl self) λ dst e.
      continue-Leads Q (int64_in s.root "timestamp") _ s (inl self)
        λ timestamp e'. given dst e ((give_checked-MayGive dst timestamp s.world).at s self)
    where
      Q : State → Type 0
      Q s' =
          IsQuiet s.world s'
          ⊎ ((dst : String) × (string_in s.root "destination" ≡ done dst)
              × IsSubmitted s.world s'
              × IsNew s.store dst)

      self : IsQuiet s.world s
      self = record { same_store = refl; same_sent = refl }

      given :
          (dst : String) {s' : State}
          → string_in s.root "destination" ≡ done dst
          → MayGive s.world dst s'
          → Q s'
      given dst e (inl quiet) = inl quiet
      given dst e (inr (submitted, new)) = inr (dst, e, submitted, new)
