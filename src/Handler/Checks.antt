-- ===== src/Handler/Checks.antt =====
-- xrpc_handler.cpp: what `check_input` lets through, for `account_create` and `set_property`.
use xrpcserver.Prelude.{
  String, ◌≡◌, ◌≢◌, refl, inl, inr, Bool, Bool-cases, true, false, not, ℤ, Outcome, done, thrown,
  undefined, to_uint64, if◌then◌else◌,
}
use xrpcserver.Base.{
  xrpc_server_account_exist, xrpc_property_key_not_valid, xrpc_server_account_not_found,
  xrpc_server_hash_signature_check_fail,
}
use xrpcserver.Env.{Env}
use xrpcserver.Rpc.{
  State, World, Rpc, ◌>>=◌, ◌>>◌, pure, string_in, root_string, root_int64, gets, lift, c_string_in,
  set_tx, when_found,
}
use xrpcserver.Rpc.Leads.{Leads}
use xrpcserver.Utility.{transaction_make_account_create, transaction_set_property}
use xrpcserver.Handler.Response.{set_result_fail, fail}
use xrpcserver.Handler.Submit.{last_digest_set, tx_digest_signature_set}
use xrpcserver.Handler.Transfer.{is_bad_key, check_input, verify, accept}
use xrpcserver.Handler.Authority.{submit_rules}
use xrpcserver.Handler.Quiet.{IsQuiet, MaySubmit}

module _ ⦃E : Env⦄ where
  -- What `account_create` does once its input is checked.
  unfoldable pub create_checked : Bool → Rpc (Unit {0})
  create_checked nohash = do
    account ← root_string "account"
    amount ← root_string "amount"
    timestamp ← root_int64 "timestamp"
    set_tx (transaction_make_account_create account amount (to_uint64 timestamp))
    tx_digest_signature_set nohash
    verified ← verify
    if not verified then fail xrpc_server_hash_signature_check_fail else accept

  pub create_checked-MaySubmit :
      (nohash : Bool) (w : World) → Leads (IsQuiet w) (MaySubmit w) (create_checked nohash)
  unfolding create_checked
  create_checked-MaySubmit nohash w = search submit_rules depth 40

  -- What `set_property` does once its input is checked.
  unfoldable pub set_checked : Bool → Rpc (Unit {0})
  set_checked nohash = do
    root ← gets (λ s. s.root)
    account ← lift (c_string_in root "account")
    digest ← last_digest_set nohash account
    when_found digest (fail xrpc_server_account_not_found) λ last_hash. do
      transaction_set_property root last_hash
      tx_digest_signature_set nohash
      verified ← verify
      if not verified then fail xrpc_server_hash_signature_check_fail else accept

  pub set_checked-MaySubmit :
      (nohash : Bool) (w : World) → Leads (IsQuiet w) (MaySubmit w) (set_checked nohash)
  unfolding set_checked
  set_checked-MaySubmit nohash w = search submit_rules depth 40

  pub IsQuiet-self : (s : State) → IsQuiet s.world s
  IsQuiet-self s = record { same_store = refl; same_sent = refl }

  -- A method that begins with the check of its input.
  abbrev pub guarded : Rpc Bool → Rpc (Unit {0}) → Rpc (Unit {0})
  guarded check m = check >>= λ valid. if not valid then pure tt else m

  module _ (Q : State → Type 0) (check : Rpc Bool) (m : Rpc (Unit {0})) (s : State) where
    pub guarded-passes : check s ≡ (done true, s) → Q (m s).1 → Q (guarded check m s).1
    unfolding ◌>>=◌
    guarded-passes e h = rw e h

    pub guarded-ends :
        (o : Outcome Bool) → o ≢ done true → check s ≡ (o, s) → Q s → Q (guarded check m s).1
    unfolding ◌>>=◌
    guarded-ends (done true) d e h = absurd (d refl)
    guarded-ends (done false) d e h = rw e h
    guarded-ends thrown d e h = rw e h
    guarded-ends undefined d e h = rw e h

    pub guarded-refuses :
        (e : ℤ)
        → check s ≡ (set_result_fail e >> pure false) s
        → Q (set_result_fail e s).1
        → Q (guarded check m s).1
    unfolding ◌>>=◌
    guarded-refuses e eq h = rw eq (refused (set_result_fail e s).0 (set_result_fail e s).1 h)
      where
        refused :
            (o : Outcome (Unit {0})) (t : State)
            → Q t
            → Q (guarded (λ t. ((λ t'. (o, t')) >> pure false) t) m t).1
        refused (done u) t h' = h'
        refused thrown t h' = h'
        refused undefined t h' = h'

  -- The check for `account_create`: of the account, if it reads.
  pub create_input :
      (s : State) (account : String)
      → string_in s.root "action" ≡ done "account_create"
      → string_in s.root "account" ≡ done account
      → check_input s ≡ (
          if E.exist_account s.store account
          then (fail xrpc_server_account_exist >> pure false) s
          else (done true, s))
  unfolding check_input ◌>>=◌
  create_input s account e₁ e₂ = elim (Bool-cases (E.exist_account s.store account)) [
    | inl e ↦ rw (e₁, e₁, e₂, e) refl
    | inr e ↦ rw (e₁, e₁, e₂, e) refl
  ]

  pub create_input_unread :
      (s : State) (o : Outcome String)
      → string_in s.root "action" ≡ done "account_create"
      → string_in s.root "account" ≡ o
      → ((account : String) → o ≢ done account)
      → (o' : Outcome Bool) × (check_input s ≡ (o', s)) × (o' ≢ done true)
  unfolding check_input ◌>>=◌
  create_input_unread s (done account) e₁ e₂ d = absurd (d account refl)
  create_input_unread s thrown e₁ e₂ d = (thrown, rw (e₁, e₁, e₂) refl, λ e. cc)
  create_input_unread s undefined e₁ e₂ d = (undefined, rw (e₁, e₁, e₂) refl, λ e. cc)

  -- A refusal, and what follows it in the check.
  refusal_stops :
      (m : Rpc Bool) (o : Outcome (Unit {0})) (t : State)
      → ((λ t'. (o, t')) >> pure false >>= λ valid. if not valid then pure false else m) t
        ≡ ((λ t'. (o, t')) >> pure false) t
  unfolding ◌>>=◌
  refusal_stops m (done u) t = refl
  refusal_stops m thrown t = refl
  refusal_stops m undefined t = refl

  -- The same for `set_property`: of the key, if it reads.
  pub set_input :
      (s : State) (key : String)
      → string_in s.root "action" ≡ done "set_property"
      → string_in s.root "property_key" ≡ done key
      → check_input s ≡ (
          if is_bad_key key
          then (fail xrpc_property_key_not_valid >> pure false) s
          else (done true, s))
  unfolding check_input ◌>>=◌
  set_input s key e₁ e₂ = elim (Bool-cases (is_bad_key key)) [
    | inl e ↦
        rw (e₁, e₂, e)
          (refusal_stops _ (fail xrpc_property_key_not_valid s).0
            (fail xrpc_property_key_not_valid s).1)
    | inr e ↦ rw (e₁, e₂, e, e₁) refl
  ]

  pub set_input_unread :
      (s : State) (o : Outcome String)
      → string_in s.root "action" ≡ done "set_property"
      → string_in s.root "property_key" ≡ o
      → ((key : String) → o ≢ done key)
      → (o' : Outcome Bool) × (check_input s ≡ (o', s)) × (o' ≢ done true)
  unfolding check_input ◌>>=◌
  set_input_unread s (done key) e₁ e₂ d = absurd (d key refl)
  set_input_unread s thrown e₁ e₂ d = (thrown, rw (e₁, e₂) refl, λ e. cc)
  set_input_unread s undefined e₁ e₂ d = (undefined, rw (e₁, e₂) refl, λ e. cc)
