-- ===== src/Handler/Giving.antt =====
-- xrpc_handler.cpp: a gift that meets every check of `give` is sent.
use xrpcserver.Prelude.{
  ◌+◌, String, List, [], ◌∷◌, ◌≡◌, refl, true, false, ℤ, done, some, back, any, All, arith,
  to_uint64,
}
use xrpcserver.Env.{Env, JsonLaws}
use xrpcserver.Rpc.{Tx, State, ◌>>=◌, string_in, int64_in}
use xrpcserver.Utility.{transaction_make_transfer_out}
use xrpcserver.Handler.Query.{is_asset_in}
use xrpcserver.Handler.Submit.{
  test_genesis_account_address, test_genesis_account_pri_key, last_digest_set,
  tx_digest_signature_set,
}
use xrpcserver.Handler.Transfer.{accept, check_gift, give}
use xrpcserver.Handler.Quiet.{IsSubmitted}
use xrpcserver.Handler.Gift.{IsNew}
use xrpcserver.Handler.Accepted.{accept-Result}
use xrpcserver.Handler.Answers.{Result}

module _ ⦃E : Env⦄ where
  any_of_none : (l : List Tx) → All (λ t. is_asset_in t ≡ false) l → any is_asset_in l ≡ false
  any_of_none [] h = refl
  any_of_none (t ∷ l) (e, h) = ground (arith, any_of_none l h)

  check_gift_lem :
      (s : State) (account : String) → IsNew s.store account → check_gift account s ≡ accept s
  unfolding check_gift ◌>>=◌
  check_gift_lem s account n =
      rw
        (
          n.exists,
          n.none_pending,
          any_of_none (E.get_settle_blocks s.store account) n.none_received,
        )
        refl

  abbrev unsigned_gift : State → String → ℤ → E.Hash → Tx
  unsigned_gift s dst timestamp last_hash = record s.tx {
    transaction_type = E.type_transfer_asset_out;
    sender_addr = test_genesis_account_address;
    receiver_addr = dst;
    property_key = "$$";
    transaction_params = "100000";
    timestamp = to_uint64 timestamp;
    last_msg_digest = last_hash;
    random_nounce = 0;
    work_proof = 0;
  }

  -- The gift of the genesis account to `dst`, signed with its key, as it is sent.
  abbrev pub gift_of : State → String → ℤ → E.Hash → Tx
  gift_of s dst timestamp last_hash =
      record (E.tx_hash_and_sign_calc (E.key_of test_genesis_account_pri_key)
        (record (unsigned_gift s dst timestamp last_hash) {
          tx_digest = E.sha256 (unsigned_gift s dst timestamp last_hash);
        })) { edge_timestamp = E.timestamp_now_ms s.ticks }

  abbrev given : State → Tx → State
  given s t = record s { tx = t; world = record s.world { ticks = s.ticks + 1 } }

  give_lem :
      (s : State) (dst : String) (timestamp : ℤ) (snap : E.AccountSnap) (last_hash : E.Hash)
      → string_in s.root "destination" ≡ done dst
      → int64_in s.root "timestamp" ≡ done timestamp
      → E.get_account_snap_info s.store test_genesis_account_address ≡ some snap
      → back (E.unit_snap snap) ≡ some last_hash
      → E.tx_hash_and_sign_verify (gift_of s dst timestamp last_hash) ≡ true
      → give s ≡ check_gift dst (given s (gift_of s dst timestamp last_hash))
  unfolding give last_digest_set tx_digest_signature_set transaction_make_transfer_out ◌>>=◌
  give_lem s dst timestamp snap last_hash e₁ e₂ e₃ e₄ v = rw (e₁, e₂, e₃, e₄, v) refl

  -- Where the request reads, the genesis account has a last hash, its transaction to the receiver is
  -- verified once it is signed, and the receiver exists and has received nothing: `give` ends
  -- normally, the transaction is sent, as one message, and "Result" is 1.
  pub give-Result :
      (L : JsonLaws E.json) (s : State) (dst : String) (timestamp : ℤ) (snap : E.AccountSnap)
      (last_hash : E.Hash)
      → string_in s.root "destination" ≡ done dst
      → int64_in s.root "timestamp" ≡ done timestamp
      → E.get_account_snap_info s.store test_genesis_account_address ≡ some snap
      → back (E.unit_snap snap) ≡ some last_hash
      → E.tx_hash_and_sign_verify (gift_of s dst timestamp last_hash) ≡ true
      → IsNew s.store dst
      → E.keyed s.rsp ≡ true
      → ((give s).0 ≡ done tt)
        × IsSubmitted s.world (give s).1
        × Result 1 (give s).1
        × ((give s).1.tx ≡ gift_of s dst timestamp last_hash)
  give-Result L s dst timestamp snap last_hash e₁ e₂ e₃ e₄ v new k =
      let s' = given s (gift_of s dst timestamp last_hash) in
      let s' = given s (gift_of s dst timestamp last_hash) in
      rw (give_lem s dst timestamp snap last_hash e₁ e₂ e₃ e₄ v, check_gift_lem s' dst new)
        (accept-Result L s' k v)
