-- ===== src/Handler/Funds.antt =====
-- When `transfer_out` pays: its checks of the accounts, the funds and the last hash.
use xrpcserver.Prelude.{
  String, ◌≡◌, ◌≢◌, ◌⊎◌, refl, inl, inr, subst, Bool, Bool-cases, not, ℤ, done, str_eq, eq_iff,
  if◌then◌else◌,
}
use xrpcserver.Base.{value}
use xrpcserver.Env.{Env, ChainLaws}
use xrpcserver.Rpc.{State, World, Rpc, ◌>>=◌, string_in, int64_in}
use xrpcserver.Rpc.Leads.{Leads, Preserves, continue-Leads, leads_rules}
use xrpcserver.Handler.Frame.{set_result_fail-Preserves}
use xrpcserver.Handler.Response.{set_result_fail}
use xrpcserver.Handler.Transfer.{verify, check_funds, transfer_out}
use xrpcserver.Handler.Quiet.{
  IsQuiet, IsVerified, IsSubmitted, IsQuiet-frame, accept-IsSubmitted, verify-Leads, fail-IsQuiet,
  quiet_rules, tx_digest_signature_set-IsQuiet,
}
use xrpcserver.Handler.Order.{IsPayment, transfer_checked, transfer_checked-MayOrder}
use xrpcserver.Handler.Verdict.{
  tx-accept, pay, refuse, crash, Verdict, IsFresh, IsFunded, funds_verdict, act, check_funds-eq-act,
  pay_sound,
}

module _ ⦃E : Env⦄ where
  -- Nothing is sent, or a payment that was checked.
  abbrev pub MayPay : World → String → String → String → State → Type 0
  MayPay w account asset amount s =
      IsQuiet w s
      ⊎ (IsSubmitted w s × IsFunded w.store account asset amount × IsFresh w.store account s.tx)

  act-MayPay :
      (w : World) (account asset amount : String) (s : State) (v : Verdict)
      → funds_verdict s.store s.tx account asset amount ≡ v
      → IsVerified w s
      → MayPay w account asset amount (act v s).1
  unfolding act
  act-MayPay w account asset amount s pay e h =
      let (funded, fresh) = pay_sound s.store s.tx account asset amount e in
      let same = h.quiet.same_store in
      inr (
        accept-IsSubmitted.at s h,
        subst (λ (store : E.Store). IsFunded store account asset amount) same funded,
        rw (tx-accept s) (subst (λ (store : E.Store). IsFresh store account s.tx) same fresh),
      )
  act-MayPay w account asset amount s (refuse r) e h =
      inl ((set_result_fail-Preserves (IsQuiet-frame w) (value r)).at s h.quiet)
  act-MayPay w account asset amount s crash e h = inl h.quiet

  check_funds-MayPay :
      (w : World) (account asset amount : String)
      → Leads (IsVerified w) (MayPay w account asset amount) (check_funds account asset amount)
  check_funds-MayPay w account asset amount = record {
    at = λ s h.
        rw (check_funds-eq-act account asset amount s)
          (act-MayPay w account asset amount s _ refl h);
  }

  module _ {w : World} {src asset amount : String} where
    quiet_pay : (s : State) → IsQuiet w s → MayPay w src asset amount s
    quiet_pay s h = inl h

    fail_pay : (e : ℤ) → Leads (IsQuiet w) (MayPay w src asset amount) (set_result_fail e)
    fail_pay = fail-IsQuiet quiet_pay

    verify-MayPay :
        (m n : Rpc (Unit {0}))
        → Preserves (IsQuiet w) m
        → Leads (IsVerified w) (MayPay w src asset amount) n
        → Leads
            (IsQuiet w)
            (MayPay w src asset amount)
            (verify >>= λ verified. if not verified then m else n)
    verify-MayPay = verify-Leads quiet_pay

    ruleset pay_rules = (
      fail_pay, quiet_rules, leads_rules, quiet_pay, verify-MayPay, check_funds-MayPay,
      tx_digest_signature_set-IsQuiet,
    )

  transfer_checked-MayPay :
      (nohash : Bool) (src dst asset amount : String) (timestamp : ℤ) (w : World)
      → Leads
          (IsQuiet w)
          (MayPay w src asset amount)
          (transfer_checked nohash src dst asset amount timestamp)
  unfolding transfer_checked
  transfer_checked-MayPay nohash src dst asset amount timestamp w = search pay_rules depth 40

  -- What the request must say and the store must hold for a payment.
  pub record IsPaid (s₀ s : State) : Type 0 where
    pub src : String
    pub dst : String
    pub asset : String
    pub amount : String
    pub source : string_in s₀.root "source" ≡ done src
    pub destination : string_in s₀.root "destination" ≡ done dst
    pub property_key : string_in s₀.root "property_key" ≡ done asset
    pub amount_read : string_in s₀.root "amount" ≡ done amount
    pub distinct : src ≢ dst
    pub submitted : IsSubmitted s₀.world s
    pub funded : IsFunded s₀.store src asset amount
    pub fresh : IsFresh s₀.store src s.tx
    pub payment : IsPayment src dst asset amount s.tx

  -- Where to sign a transaction leaves what it says as it is: however `transfer_out` ends, the store
  -- is as it was and nothing was sent, or one message was sent. Then the transaction that it carries
  -- is verified, and transfers the amount of the asset out, from the source to the destination that
  -- the request names, which are not the same; the source's balance of the asset is a number that is
  -- not below the amount, and the store's last hash of the source, if it has one, is the
  -- transaction's last digest.
  pub transfer_out-IsPaid :
      (C : ChainLaws E.chain) (nohash : Bool) (s : State)
      → IsQuiet s.world (transfer_out nohash s).1 ⊎ IsPaid s (transfer_out nohash s).1
  unfolding transfer_out transfer_checked ◌>>=◌
  transfer_out-IsPaid C nohash s =
      continue-Leads Q (string_in s.root "source") _ s (inl self) λ src e₁.
        continue-Leads Q (string_in s.root "destination") _ s (inl self) λ dst e₂.
          continue-Leads Q (string_in s.root "property_key") _ s (inl self) λ asset e₃.
            continue-Leads Q (string_in s.root "amount") _ s (inl self) λ amount e₄.
              continue-Leads Q (int64_in s.root "timestamp") _ s (inl self) λ timestamp e₅.
                elim (Bool-cases (str_eq src dst)) [
                  | inl e ↦
                      rw e (inl ((set_result_fail-Preserves (IsQuiet-frame s.world) _).at s self))
                  | inr e ↦ rw e (
                      paid src dst asset amount e₁ e₂ e₃ e₄ (λ same. cc ((eq_iff src dst).1 same))
                        ((transfer_checked-MayPay nohash src dst asset amount timestamp s.world).at
                          s self)
                        ((transfer_checked-MayOrder C nohash timestamp s.world).at s self))
                ]
    where
      Q : State → Type 0
      Q s' = IsQuiet s.world s' ⊎ IsPaid s s'

      self : IsQuiet s.world s
      self = record { same_store = refl; same_sent = refl }

      paid :
          (src dst asset amount : String) {s' : State}
          → string_in s.root "source" ≡ done src
          → string_in s.root "destination" ≡ done dst
          → string_in s.root "property_key" ≡ done asset
          → string_in s.root "amount" ≡ done amount
          → src ≢ dst
          → MayPay s.world src asset amount s'
          → IsQuiet s.world s' ⊎ IsPayment src dst asset amount s'.tx
          → Q s'
      paid src dst asset amount e₁ e₂ e₃ e₄ ne (inl quiet) order = inl quiet
      paid src dst asset amount e₁ e₂ e₃ e₄ ne (inr pays) (inl quiet) = inl quiet
      paid src dst asset amount e₁ e₂ e₃ e₄ ne (inr (submitted, funded, fresh)) (inr order) =
          inr (record {
            src = src;
            dst = dst;
            asset = asset;
            amount = amount;
            source = e₁;
            destination = e₂;
            property_key = e₃;
            amount_read = e₄;
            distinct = ne;
            submitted = submitted;
            funded = funded;
            fresh = fresh;
            payment = order;
          })
