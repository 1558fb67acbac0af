-- ===== src/Handler/Guarded.antt =====
-- xrpc_handler.cpp: which requests for `account_create` and `set_property` are sent.
use xrpcserver.Prelude.{
  String, ◌≡◌, ◌≢◌, ◌⊎◌, refl, ◌∙◌, inl, inr, Bool, Bool-cases, false, Outcome, done, thrown,
  undefined, codes,
}
use xrpcserver.Base.{value, xrpc_server_account_exist, xrpc_property_key_not_valid}
use xrpcserver.Env.{Env}
use xrpcserver.Rpc.{State, string_in}
use xrpcserver.Handler.Frame.{set_result_fail-Preserves}
use xrpcserver.Handler.Transfer.{is_bad_key, check_input, account_create, set_property}
use xrpcserver.Handler.Quiet.{IsQuiet, IsSubmitted, MaySubmit, IsQuiet-frame}
use xrpcserver.Handler.Keys.{IsPropertyKey, is_bad_key_iff}
use xrpcserver.Handler.Checks.{
  create_checked, create_checked-MaySubmit, set_checked, set_checked-MaySubmit, IsQuiet-self,
  guarded-passes, guarded-ends, guarded-refuses, create_input, create_input_unread, set_input,
  set_input_unread,
}
use xrpcserver.Handler.Actions.{action_of}
use xrpcserver.Handler.Dispatch.{run, handle_request}
use xrpcserver.Handler.Effects.{handle_request-Leads}

module _ ⦃E : Env⦄ where
  -- Nothing was sent, or a verified transaction, and a member of the request has a text with `P`.
  abbrev pub SubmitsIf : String → (String → Type 0) → State → State → Type 0
  SubmitsIf member P s s' =
      IsQuiet s.world s'
      ⊎ ((text : String) × (string_in s.root member ≡ done text) × P text × IsSubmitted s.world s')

  submits :
      (member : String) (P : String → Type 0) (s s' : State) (text : String)
      → string_in s.root member ≡ done text
      → P text
      → MaySubmit s.world s'
      → SubmitsIf member P s s'
  submits member P s s' text e p (inl quiet) = inl quiet
  submits member P s s' text e p (inr submitted) = inr (text, e, p, submitted)

  -- The ending of a read: a text, or none.
  read_cases :
      (o : Outcome String) → ((text : String) × (o ≡ done text)) ⊎ ((text : String) → o ≢ done text)
  read_cases (done text) = inl (text, refl)
  read_cases thrown = inr (λ text e. cc)
  read_cases undefined = inr (λ text e. cc)

  abbrev IsUnknown : State → String → Type 0
  IsUnknown s account = E.exist_account s.store account ≡ false

  account_create-SubmitsIf :
      (nohash : Bool) (s : State)
      → string_in s.root "action" ≡ done "account_create"
      → SubmitsIf "account" (IsUnknown s) s (account_create nohash s).1
  unfolding account_create create_checked
  account_create-SubmitsIf nohash s e = elim (read_cases (string_in s.root "account")) [
    | inr unread ↦
        let (o, eq, d) = create_input_unread s (string_in s.root "account") e refl unread in
        guarded-ends Q check_input (create_checked nohash) s o d eq (inl (IsQuiet-self s))
    | inl (account, e') ↦ elim (Bool-cases (E.exist_account s.store account)) [
      | inl known ↦
          guarded-refuses Q check_input (create_checked nohash) s (value xrpc_server_account_exist)
            (create_input s account e e' ∙ rw known refl)
            (inl ((set_result_fail-Preserves (IsQuiet-frame s.world) _).at s (IsQuiet-self s)))
      | inr new ↦
          guarded-passes Q check_input (create_checked nohash) s
            (create_input s account e e' ∙ rw new refl)
            (submits "account" (IsUnknown s) s _ account e' new
              ((create_checked-MaySubmit nohash s.world).at s (IsQuiet-self s)))
    ]
  ]
    where
      Q : State → Type 0
      Q = SubmitsIf "account" (IsUnknown s) s

  set_property-SubmitsIf :
      (nohash : Bool) (s : State)
      → string_in s.root "action" ≡ done "set_property"
      → SubmitsIf "property_key" (λ key. IsPropertyKey (codes key)) s (set_property nohash s).1
  unfolding set_property set_checked
  set_property-SubmitsIf nohash s e = elim (read_cases (string_in s.root "property_key")) [
    | inr unread ↦
        let (o, eq, d) = set_input_unread s (string_in s.root "property_key") e refl unread in
        guarded-ends Q check_input (set_checked nohash) s o d eq (inl (IsQuiet-self s))
    | inl (key, e') ↦ elim (Bool-cases (is_bad_key key)) [
      | inl bad ↦
          guarded-refuses Q check_input (set_checked nohash) s (value xrpc_property_key_not_valid)
            (set_input s key e e' ∙ rw bad refl)
            (inl ((set_result_fail-Preserves (IsQuiet-frame s.world) _).at s (IsQuiet-self s)))
      | inr good ↦
          guarded-passes Q check_input (set_checked nohash) s (set_input s key e e' ∙ rw good refl)
            (submits "property_key" (λ k. IsPropertyKey (codes k)) s _ key e'
              ((is_bad_key_iff key).0 good)
              ((set_checked-MaySubmit nohash s.world).at s (IsQuiet-self s)))
    ]
  ]
    where
      Q : State → Type 0
      Q = SubmitsIf "property_key" (λ k. IsPropertyKey (codes k)) s

  -- However a request to create an account ends, the store is as it was and nothing was sent, or one
  -- message was sent that carries a verified transaction: then the request names an account that
  -- does not exist.
  pub handle_request-create :
      (s : State)
      → string_in s.root "action" ≡ done "account_create"
      → IsQuiet s.world (handle_request s).1
        ⊎ ((account : String) × (string_in s.root "account" ≡ done account)
            × (E.exist_account s.store account ≡ false)
            × IsSubmitted s.world (handle_request s).1)
  unfolding action_of run
  handle_request-create s e =
      handle_request-Leads (SubmitsIf "account" (IsUnknown s) s) s (inl (IsQuiet-self s))
        λ a nohash e'.
          let same : a ≡ "account_create" = cc in rw same (account_create-SubmitsIf nohash s e)

  -- However a request to set a property ends, the store is as it was and nothing was sent, or one
  -- message was sent that carries a verified transaction: then the key in the request begins with "@",
  -- and has neither "#" nor "$" after it.
  pub handle_request-set :
      (s : State)
      → string_in s.root "action" ≡ done "set_property"
      → IsQuiet s.world (handle_request s).1
        ⊎ ((key : String) × (string_in s.root "property_key" ≡ done key)
            × IsPropertyKey (codes key)
            × IsSubmitted s.world (handle_request s).1)
  unfolding action_of run
  handle_request-set s e =
      handle_request-Leads (SubmitsIf "property_key" (λ key. IsPropertyKey (codes key)) s) s
        (inl (IsQuiet-self s))
        λ a nohash e'.
          let same : a ≡ "set_property" = cc in rw same (set_property-SubmitsIf nohash s e)
