-- ===== src/Handler/Transfer.antt =====
-- xrpc_handler.cpp: the methods that hand a transaction to the network.
use xrpcserver.Prelude.{
  String, ltb, Bool, true, false, not, ◌||◌, eq_ℤ, ltb_ℤ, or_throw, to_uint64, stoll, find_first_of,
  found_at_zero, is_found, codes, str_eq, length, any, if◌then◌else◌,
}
use xrpcserver.Base.{
  xrpc_server_account_not_found, xrpc_server_hash_signature_check_fail,
  xrpc_server_account_balance_not_enough, xrpc_no_property_key, xrpc_property_key_not_valid,
  xrpc_server_account_exist, xrpc_already_give, xrpc_last_hash_error, xrpc_sender_receiver_the_same,
}
use xrpcserver.Env.{Env}
use xrpcserver.Rpc.{
  Rpc, ◌>>=◌, ◌>>◌, pure, lift, gets, query, when_found, root_string, root_int64, c_string_in,
  set_tx,
}
use xrpcserver.Utility.{
  transaction_make_account_create, transaction_make_transfer_out, transaction_make_transfer_in,
  transaction_set_property, json_string_to_hash,
}
use xrpcserver.Handler.Response.{set_result_ok, fail}
use xrpcserver.Handler.Query.{is_asset_in}
use xrpcserver.Handler.Submit.{
  test_genesis_account_address, last_digest_set, tx_digest_signature_set, do_transaction_own,
  transaction_retry_timer_start,
}

-- `key.find_first_of("@") != 0 || key.find_first_of("#$") != npos`, refused by `check_input`.
unfoldable pub is_bad_key : String → Bool
is_bad_key key =
    not (found_at_zero (find_first_of (codes "@") (codes key)))
    || is_found (find_first_of (codes "#$") (codes key))

module _ ⦃E : Env⦄ where
  unfoldable pub check_input : Rpc Bool
  unfolding is_bad_key
  check_input = do
    action ← root_string "action"
    valid ←
        if str_eq action "set_property"
        then (do
          property_key ← root_string "property_key"
          if is_bad_key property_key
              then (do fail xrpc_property_key_not_valid; pure false)
              else pure true)
        else pure true
    if not valid then pure false else do
      action' ← root_string "action"
      if str_eq action' "account_create"
          then (do
            account ← root_string "account"
            exists ← query (λ store. E.exist_account store account)
            if exists then (do fail xrpc_server_account_exist; pure false) else pure true)
          else pure true

  -- `tx.tx_hash_and_sign_verify()`
  abbrev pub verify : Rpc Bool
  verify = gets (λ s. E.tx_hash_and_sign_verify s.tx)

  -- The end of a method that has accepted its transaction.
  unfoldable pub accept : Rpc (Unit {0})
  unfolding do_transaction_own set_result_ok
  accept = do do_transaction_own; transaction_retry_timer_start; set_result_ok

  unfoldable pub account_create : Bool → Rpc (Unit {0})
  account_create nohash = do
    valid ← check_input
    if not valid then pure tt else do
      account ← root_string "account"
      amount ← root_string "amount"
      timestamp ← root_int64 "timestamp"
      set_tx (transaction_make_account_create account amount (to_uint64 timestamp))
      tx_digest_signature_set nohash
      verified ← verify
      if not verified then fail xrpc_server_hash_signature_check_fail else accept

  -- `get_last_hash(account, h) && h != tx.m_last_msg_digest`
  unfoldable pub is_stale : String → Rpc Bool
  is_stale account = do
    acct_last_hash ← query (λ store. E.get_last_hash store account)
    digest ← gets (λ s. s.tx.last_msg_digest)
    when_found acct_last_hash (pure false) λ h. pure (not (E.hash_eq h digest))

  -- The checks of `transfer_out` that follow the signature's.
  unfoldable pub check_funds : String → String → String → Rpc (Unit {0})
  unfolding is_stale
  check_funds src_account asset_key ammount = do
    (ret, balance) ← query (λ store. E.get_account_balance store src_account asset_key)
    if eq_ℤ E.account_not_exist ret
        then fail xrpc_server_account_not_found
        else if eq_ℤ E.no_property_key ret
        then fail xrpc_no_property_key
        else do
          funds ← lift (or_throw (stoll balance))
          wanted ← lift (or_throw (stoll ammount))
          if ltb_ℤ funds wanted then fail xrpc_server_account_balance_not_enough else do
            stale ← is_stale src_account
            if stale then fail xrpc_last_hash_error else accept

  unfoldable pub transfer_out : Bool → Rpc (Unit {0})
  unfolding check_funds
  transfer_out nohash = do
    src_account ← root_string "source"
    dst_account ← root_string "destination"
    asset_key ← root_string "property_key"
    ammount ← root_string "amount"
    timestamp ← root_int64 "timestamp"
    if str_eq src_account dst_account then fail xrpc_sender_receiver_the_same else do
      digest ← last_digest_set nohash src_account
      when_found digest (fail xrpc_server_account_not_found) λ last_hash. do
        set_tx (
            transaction_make_transfer_out src_account dst_account asset_key ammount
              (to_uint64 timestamp) last_hash)
        tx_digest_signature_set nohash
        verified ← verify
        if not verified
            then fail xrpc_server_hash_signature_check_fail
            else check_funds src_account asset_key ammount

  -- The checks of `give` that follow the signature's.
  unfoldable pub check_gift : String → Rpc (Unit {0})
  check_gift dst_account = do
    exists ← query (λ store. E.exist_account store dst_account)
    if not exists then fail xrpc_server_account_not_found else do
      receive_list ← query (λ store. E.get_receive_blocks store dst_account)
      if ltb 0 (length receive_list) then fail xrpc_already_give else do
        settle_list ← query (λ store. E.get_settle_blocks store dst_account)
        if any is_asset_in settle_list then fail xrpc_already_give else accept

  unfoldable pub give : Rpc (Unit {0})
  unfolding check_gift
  give = do
    dst_account ← root_string "destination"
    timestamp ← root_int64 "timestamp"
    digest ← last_digest_set true test_genesis_account_address
    when_found digest (fail xrpc_server_account_not_found) λ last_hash. do
      set_tx (
          transaction_make_transfer_out test_genesis_account_address dst_account "$$" "100000"
            (to_uint64 timestamp) last_hash)
      tx_digest_signature_set true
      verified ← verify
      if not verified then fail xrpc_server_hash_signature_check_fail else check_gift dst_account

  unfoldable pub transfer_in : Bool → Rpc (Unit {0})
  unfolding is_stale
  transfer_in nohash = do
    timestamp ← root_int64 "timestamp"
    account ← root_string "account"
    digest ← last_digest_set nohash account
    when_found digest (fail xrpc_server_account_not_found) λ last_hash. do
      text ← root_string "tx_digest"
      tx_digest ← lift (json_string_to_hash text)
      set_tx (transaction_make_transfer_in account (to_uint64 timestamp) tx_digest last_hash)
      tx_digest_signature_set nohash
      sender ← root_string "sender"
      set_tx (λ tx. record tx { origin_sender = sender })
      amount ← root_string "amount"
      set_tx (λ tx. record tx { origin_amount = amount })
      verified ← verify
      if not verified then fail xrpc_server_hash_signature_check_fail else do
        owner ← gets (λ s. s.tx.sender_addr)
        stale ← is_stale owner
        if stale then fail xrpc_last_hash_error else accept

  unfoldable pub set_property : Bool → Rpc (Unit {0})
  set_property nohash = do
    valid ← check_input
    if not valid then pure tt else do
      root ← gets (λ s. s.root)
      account ← lift (c_string_in root "account")
      digest ← last_digest_set nohash account
      when_found digest (fail xrpc_server_account_not_found) λ last_hash. do
        transaction_set_property root last_hash
        tx_digest_signature_set nohash
        verified ← verify
        if not verified then fail xrpc_server_hash_signature_check_fail else accept
