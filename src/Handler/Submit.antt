-- ===== src/Handler/Submit.antt =====
-- xrpc_handler.cpp: how a transaction is completed, signed and handed to the network.
use xrpcserver.Prelude.{
  ℕ, ◌+◌, ◌%◌, ◌^◌, String, List, [], ◌∷◌, Option, none, some, Bool, true, false, not, ℤ, pos, eq_ℤ,
  or_undefined, str_eq, back, if◌then◌else◌,
}
use xrpcserver.Env.{Env, XtopMessage, broadcast, broadcast_ex}
use xrpcserver.Rpc.{
  Tx, Rpc, ◌>>=◌, ◌>>◌, pure, lift, gets, query, when_found, read_clock, send, root_string, set_tx,
  done_unit,
}
use xrpcserver.Utility.{json_string_to_hash, json_string_to_signature}

abbrev pub test_genesis_account_address : String
test_genesis_account_address = "T-Um45LZ8HZYUpm5jdWi6bh99mdNjEHkz6w"

abbrev pub user_a_account_address : String
user_a_account_address = "T-cEcYfbpbmGvwQbHL349G8khFMcqLmpxig"

abbrev pub user_b_account_address : String
user_b_account_address = "T-c1ayVXVmMPajuCTj1ahgWLPyU4m9XUBGk"

abbrev pub test_genesis_account_pri_key : List ℕ
test_genesis_account_pri_key =
    0x83 ∷ 0xab ∷ 0x81 ∷ 0xe3 ∷ 0xcf ∷ 0xe1 ∷ 0x44 ∷ 0x25 ∷ 0xe5 ∷ 0x30 ∷ 0xea ∷ 0xb1 ∷ 0xd3 ∷ 0x87
    ∷ 0xc6 ∷ 0xff ∷ 0x80 ∷ 0x50 ∷ 0x63 ∷ 0x73 ∷ 0xc0 ∷ 0xa1 ∷ 0xcf ∷ 0x5c ∷ 0x63 ∷ 0xc7 ∷ 0x55
    ∷ 0x1c ∷ 0x68 ∷ 0x40 ∷ 0x06 ∷ 0xed ∷ []

abbrev pub user_a_pri_key : List ℕ
user_a_pri_key =
    0x78 ∷ 0x09 ∷ 0xab ∷ 0xc8 ∷ 0xb4 ∷ 0xa4 ∷ 0x73 ∷ 0x88 ∷ 0x55 ∷ 0xbd ∷ 0xd0 ∷ 0xfa ∷ 0xe4 ∷ 0x24
    ∷ 0x0b ∷ 0x6c ∷ 0x66 ∷ 0xd2 ∷ 0x00 ∷ 0x17 ∷ 0xf1 ∷ 0x93 ∷ 0x2c ∷ 0x30 ∷ 0x67 ∷ 0x15 ∷ 0x39
    ∷ 0xef ∷ 0xf2 ∷ 0xb8 ∷ 0x4b ∷ 0xa7 ∷ []

abbrev pub user_b_pri_key : List ℕ
user_b_pri_key =
    0xb2 ∷ 0xec ∷ 0x24 ∷ 0x76 ∷ 0x58 ∷ 0x03 ∷ 0x40 ∷ 0xbe ∷ 0x98 ∷ 0x02 ∷ 0x33 ∷ 0xaa ∷ 0x74 ∷ 0xf1
    ∷ 0x36 ∷ 0x7a ∷ 0x69 ∷ 0x4c ∷ 0x60 ∷ 0xc5 ∷ 0x3b ∷ 0x78 ∷ 0xc3 ∷ 0x32 ∷ 0x15 ∷ 0x73 ∷ 0xc2
    ∷ 0x2d ∷ 0xc7 ∷ 0x8e ∷ 0x7c ∷ 0x60 ∷ []

module _ ⦃E : Env⦄ where
  unfoldable pub get_timestamp : Rpc ℕ
  get_timestamp = read_clock (λ n. (E.timeofday n).0 % 2 ^ 64)

  unfoldable pub get_transaction_unique_id : Rpc ℕ
  unfolding get_timestamp
  get_transaction_unique_id = do
    seconds ← get_timestamp
    random ← read_clock E.rand
    pure ((seconds + random) % 2 ^ 64)

  -- The hash, or `false`.
  unfoldable pub last_digest_set : Bool → String → Rpc (Option E.Hash)
  unfolding json_string_to_hash
  last_digest_set nohash account =
      if nohash
      then (do
        find ← query (λ store. E.get_account_snap_info store account)
        when_found find (pure none) λ local_account. do
          last_hash ← lift (or_undefined (back (E.unit_snap local_account)))
          pure (some last_hash))
      else do
        digest ← root_string "last_digest"
        last_hash ← lift (json_string_to_hash digest)
        pure (some last_hash)

  unfoldable pub transaction_digest_add : Rpc Bool
  transaction_digest_add = do
    sender ← gets (λ s. s.tx.sender_addr)
    if str_eq sender test_genesis_account_address
        then (do
          set_tx (E.tx_hash_and_sign_calc (E.key_of test_genesis_account_pri_key))
          pure true)
        else if str_eq sender user_a_account_address
        then (do set_tx (E.tx_hash_and_sign_calc (E.key_of user_a_pri_key)); pure true)
        else if str_eq sender user_b_account_address
        then (do set_tx (E.tx_hash_and_sign_calc (E.key_of user_b_pri_key)); pure true)
        else pure false

  unfoldable pub tx_digest_signature_set : Bool → Rpc (Unit {0})
  unfolding transaction_digest_add json_string_to_signature
  tx_digest_signature_set nohash = do
    if nohash then (do added ← transaction_digest_add; done_unit) else do
      signature ← root_string "signature"
      set_tx (λ tx. record tx { tx_signature = json_string_to_signature signature })
    now ← read_clock E.timestamp_now_ms
    set_tx (λ tx. record tx { edge_timestamp = now })

  -- Both overloads; one is given the member `tx`. The log lines are left out.
  unfoldable pub do_transaction : Tx → Rpc ℤ
  unfolding get_transaction_unique_id
  do_transaction tx = do
    seqno ← get_transaction_unique_id
    let msg : XtopMessage = record {
      msg_type = E.msg_type_proposal_message;
      content = E.serialize_no_type tx;
      transaction_unique_seqno = seqno;
    }
    if not (eq_ℤ E.node_type_rpc E.node_type)
        then send (broadcast_ex msg)
        else send
            (broadcast msg E.node_type_consensus_node (E.get_account_shard_info tx.sender_addr))
    pure (pos 0)

  -- `do_transaction()`, whose result the callers drop.
  unfoldable pub do_transaction_own : Rpc (Unit {0})
  unfolding do_transaction
  do_transaction_own = do tx ← gets (λ s. s.tx); code ← do_transaction tx; done_unit

  -- Its body is compiled out.
  abbrev pub transaction_retry_timer_start : Rpc (Unit {0})
  transaction_retry_timer_start = done_unit

  -- The balances that it reads are dropped.
  unfoldable pub timeout_handle : Rpc (Unit {0})
  unfolding do_transaction_own
  timeout_handle = do
    tx ← gets (λ s. s.tx)
    balance ← query (λ store. E.get_account_balance store tx.sender_addr tx.property_key)
    balance' ← query (λ store. E.get_account_balance store tx.receiver_addr tx.property_key)
    find ← query (λ store. E.get_account_snap_info store tx.sender_addr)
    when_found find do_transaction_own λ local_account. done_unit
