-- ===== src/Handler/Receipt.antt =====
-- xrpc_handler.cpp: which transactions `transfer_in` sends.
use xrpcserver.Prelude.{◌⊎◌, refl, inl, inr, Bool, Bool-cases, Option-cases, not, ℤ, if◌then◌else◌}
use xrpcserver.Base.{value, xrpc_last_hash_error}
use xrpcserver.Env.{Env}
use xrpcserver.Rpc.{State, World, Rpc, ◌>>=◌, gets}
use xrpcserver.Rpc.Leads.{Leads, Preserves, leads_rules}
use xrpcserver.Handler.Frame.{set_result_fail-Preserves}
use xrpcserver.Handler.Response.{set_result_fail, fail}
use xrpcserver.Handler.Transfer.{accept, verify, is_stale, transfer_in}
use xrpcserver.Handler.Quiet.{
  IsQuiet, IsVerified, IsSubmitted, IsQuiet-frame, accept-IsSubmitted, verify-Leads, fail-IsQuiet,
  quiet_rules, tx_digest_signature_set-IsQuiet,
}
use xrpcserver.Handler.Verdict.{tx-accept}
use xrpcserver.Handler.Verdict.{IsFresh}

module _ ⦃E : Env⦄ where
  -- Nothing is sent, or a transaction that follows its sender's last one.
  abbrev pub MayReceive : World → State → Type 0
  MayReceive w s = IsQuiet w s ⊎ (IsSubmitted w s × IsFresh w.store s.tx.sender_addr s.tx)

  -- The end of `transfer_in`: the check of the last hash.
  last_check : Rpc (Unit {0})
  last_check = do
    owner ← gets (λ s. s.tx.sender_addr)
    stale ← is_stale owner
    if stale then fail xrpc_last_hash_error else accept

  module _ {w : World} where
    accepted :
        (s : State)
        → IsVerified w s
        → IsFresh s.store s.tx.sender_addr s.tx
        → MayReceive w (accept s).1
    accepted s h fresh =
        inr (accept-IsSubmitted.at s h, rw (tx-accept s, ← h.quiet.same_store) fresh)

    last_check-MayReceive : Leads (IsVerified w) (MayReceive w) last_check
    unfolding last_check is_stale ◌>>=◌
    last_check-MayReceive = record {
      at = λ s h. elim (Option-cases (E.get_last_hash s.store s.tx.sender_addr)) [
        | inl unknown ↦ rw unknown (accepted s h (inl unknown))
        | inr (hash, e) ↦ elim (Bool-cases (E.hash_eq hash s.tx.last_msg_digest)) [
          | inl same ↦ rw (e, same) (accepted s h (inr (hash, e, same)))
          | inr other ↦
              rw (e, other)
                (inl (
                  (set_result_fail-Preserves (IsQuiet-frame w) (value xrpc_last_hash_error)).at s
                    h.quiet))
        ]
      ];
    }

    quiet_receive : (s : State) → IsQuiet w s → MayReceive w s
    quiet_receive s h = inl h

    fail_receive : (e : ℤ) → Leads (IsQuiet w) (MayReceive w) (set_result_fail e)
    fail_receive = fail-IsQuiet quiet_receive

    verify-MayReceive :
        (m n : Rpc (Unit {0}))
        → Preserves (IsQuiet w) m
        → Leads (IsVerified w) (MayReceive w) n
        → Leads (IsQuiet w) (MayReceive w) (verify >>= λ verified. if not verified then m else n)
    verify-MayReceive = verify-Leads quiet_receive

    ruleset receive_rules = (
      fail_receive, quiet_rules, leads_rules, quiet_receive, verify-MayReceive,
      last_check-MayReceive, tx_digest_signature_set-IsQuiet,
    )

    transfer_in-MayReceive : (nohash : Bool) → Leads (IsQuiet w) (MayReceive w) (transfer_in nohash)
    unfolding transfer_in last_check
    transfer_in-MayReceive nohash = search receive_rules depth 60

  -- However `transfer_in` ends, the store is as it was and nothing was sent, or one message was sent
  -- that carries a verified transaction: then the store has no last hash of the transaction's
  -- sender, or it has the one that is the transaction's last digest.
  pub transfer_in-IsFresh :
      (nohash : Bool) (s : State)
      → IsQuiet s.world (transfer_in nohash s).1
        ⊎ (IsSubmitted s.world (transfer_in nohash s).1
            × IsFresh s.store (transfer_in nohash s).1.tx.sender_addr (transfer_in nohash s).1.tx)
  transfer_in-IsFresh nohash s =
      (transfer_in-MayReceive nohash).at s (record { same_store = refl; same_sent = refl })
