-- ===== src/Handler/Authority.antt =====
-- What a request may do to the world: a transaction goes out only if its signature was verified.
use xrpcserver.Prelude.{String, Bool, not, ℤ, if◌then◌else◌}
use xrpcserver.Env.{Env}
use xrpcserver.Rpc.{World, Rpc, ◌>>=◌, pure}
use xrpcserver.Rpc.Leads.{
  Leads, Preserves, preserves_rules, leads_rules, Leads-first, Leads-Preserves, Preserves-pure,
}
use xrpcserver.Handler.Response.{set_result_fail}
use xrpcserver.Handler.Transfer.{
  verify, account_create, check_funds, transfer_out, check_gift, give, transfer_in, set_property,
}
use xrpcserver.Handler.Quiet.{
  Message, IsQuiet, IsVerified, Carries, IsSubmitted, MaySubmit, IsQuiet-frame, IsVerified-frame,
  proposal, do_transaction_own_lem, quiet_may, verified_may, set_tx-IsQuiet, read_clock-IsQuiet,
  quiet_rules, tx_digest_signature_set-IsQuiet, transaction_set_property-IsQuiet,
  do_transaction_own-IsSubmitted, IsSubmitted-frame, accept-IsSubmitted, accept-MaySubmit,
  fail-IsQuiet, fail-IsVerified, stop-IsQuiet, verify-Leads,
}

module _ ⦃E : Env⦄ where
  module _ {w : World} where
    pub fail-IsQuiet_may : (e : ℤ) → Leads (IsQuiet w) (MaySubmit w) (set_result_fail e)
    fail-IsQuiet_may = fail-IsQuiet quiet_may

    pub fail-IsVerified_may : (e : ℤ) → Leads (IsVerified w) (MaySubmit w) (set_result_fail e)
    fail-IsVerified_may = fail-IsVerified quiet_may

    pub stop-IsQuiet_may : Leads (IsQuiet w) (MaySubmit w) (pure tt)
    stop-IsQuiet_may = stop-IsQuiet quiet_may

    pub verify-MaySubmit :
        (m n : Rpc (Unit {0}))
        → Preserves (IsQuiet w) m
        → Leads (IsVerified w) (MaySubmit w) n
        → Leads (IsQuiet w) (MaySubmit w) (verify >>= λ verified. if not verified then m else n)
    verify-MaySubmit = verify-Leads quiet_may

    pub ruleset submit_rules = (
      fail-IsQuiet_may, fail-IsVerified_may, stop-IsQuiet_may, quiet_rules, leads_rules, quiet_may,
      verified_may, IsVerified-frame, accept-MaySubmit, verify-MaySubmit,
      tx_digest_signature_set-IsQuiet, transaction_set_property-IsQuiet,
    )

    pub account_create-MaySubmit :
        (nohash : Bool) → Leads (IsQuiet w) (MaySubmit w) (account_create nohash)
    unfolding account_create
    account_create-MaySubmit nohash = search submit_rules depth 40

    check_funds-MaySubmit :
        (a b c : String) → Leads (IsVerified w) (MaySubmit w) (check_funds a b c)
    unfolding check_funds
    check_funds-MaySubmit a b c = search submit_rules depth 40

    pub transfer_out-MaySubmit :
        (nohash : Bool) → Leads (IsQuiet w) (MaySubmit w) (transfer_out nohash)
    unfolding transfer_out
    transfer_out-MaySubmit nohash = search (submit_rules, check_funds-MaySubmit) depth 40

    check_gift-MaySubmit : (a : String) → Leads (IsVerified w) (MaySubmit w) (check_gift a)
    unfolding check_gift
    check_gift-MaySubmit a = search submit_rules depth 40

    pub give-MaySubmit : Leads (IsQuiet w) (MaySubmit w) give
    unfolding give
    give-MaySubmit = search (submit_rules, check_gift-MaySubmit) depth 40

    pub transfer_in-MaySubmit :
        (nohash : Bool) → Leads (IsQuiet w) (MaySubmit w) (transfer_in nohash)
    unfolding transfer_in
    transfer_in-MaySubmit nohash = search submit_rules depth 40

    pub set_property-MaySubmit :
        (nohash : Bool) → Leads (IsQuiet w) (MaySubmit w) (set_property nohash)
    unfolding set_property
    set_property-MaySubmit nohash = search submit_rules depth 40
