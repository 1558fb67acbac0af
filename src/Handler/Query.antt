-- ===== src/Handler/Query.antt =====
-- xrpc_handler.cpp: the methods that answer from the store about one account, and `query_tps`.
use xrpcserver.Prelude.{
  ltb, String, List, [], ◌∷◌, Bool, pos, eq_ℤ, or_undefined, to_string, length, any, back,
  if◌then◌else◌,
}
use xrpcserver.Base.{xrpc_server_account_not_found, xrpc_no_property_key, xrpc_no_stat_info}
use xrpcserver.Env.{Env}
use xrpcserver.Rpc.{
  Tx, Rpc, ◌>>=◌, ◌>>◌, lift, query, set_rsp_value, when_found, root_string, set_rsp, done_unit,
}
use xrpcserver.Utility.{hash_to_json_string}
use xrpcserver.Handler.Response.{set_result_ok, fail}

module _ ⦃E : Env⦄ where
  unfoldable pub account_balance : Rpc (Unit {0})
  account_balance = do
    account ← root_string "account"
    asset_key ← root_string "property_key"
    (ret, balance) ← query (λ store. E.get_account_balance store account asset_key)
    if eq_ℤ E.account_not_exist ret
        then fail xrpc_server_account_not_found
        else if eq_ℤ E.no_property_key ret
        then fail xrpc_no_property_key
        else do set_result_ok; set_rsp "balance" (E.of_string balance)

  -- `m_transaction_type == enum_xtransaction_type_transfer_asset_in`
  abbrev pub is_asset_in : Tx → Bool
  is_asset_in t = eq_ℤ t.transaction_type E.type_transfer_asset_in

  unfoldable pub account_info : Rpc (Unit {0})
  account_info = do
    account ← root_string "account"
    found ← query (λ store. E.get_account_snap_info store account)
    when_found found (fail xrpc_server_account_not_found) λ account_snap. do
      set_result_ok
      set_rsp "balance" (E.of_string (E.get_balance account_snap "$$" "0"))
      set_rsp "sequence" (E.of_string (to_string (E.sequence_id account_snap)))
      last_hash ← lift (or_undefined (back (E.unit_snap account_snap)))
      set_rsp "lasthash" (E.of_string (hash_to_json_string last_hash))
      set_rsp "createtime" (E.of_string (to_string (E.create_time account_snap)))
      set_rsp "property_value" (E.of_string (E.get_property account_snap "@name" "").1)
      set_rsp "give" (E.of_int (pos 1))
      settle_list ← query (λ store. E.get_settle_blocks store account)
      if any is_asset_in settle_list then set_rsp "give" (E.of_int (pos 0)) else do
        receive_list ← query (λ store. E.get_receive_blocks store account)
        if ltb 0 (length receive_list) then set_rsp "give" (E.of_int (pos 0)) else done_unit

  unfoldable pub last_digest : Rpc (Unit {0})
  last_digest = do
    account ← root_string "account"
    find ← query (λ store. E.get_account_snap_info store account)
    when_found find (fail xrpc_server_account_not_found) λ local_account. do
      set_result_ok
      last_hash ← lift (or_undefined (back (E.unit_snap local_account)))
      set_rsp "last_digest" (E.of_string (hash_to_json_string last_hash))

  unfoldable pub query_tps : Rpc (Unit {0})
  query_tps = do
    result ← query E.get_stat_info
    if E.empty result then fail xrpc_no_stat_info else do set_rsp_value result; set_result_ok

  unfoldable pub query_property : Rpc (Unit {0})
  query_property = do
    account ← root_string "account"
    found ← query (λ store. E.get_account_snap_info store account)
    when_found found (fail xrpc_server_account_not_found) λ account_snap. do
      key ← root_string "property_key"
      let (has, property_value) = E.get_property account_snap key ""
      if has
          then (do set_rsp "property_value" (E.of_string property_value); set_result_ok)
          else fail xrpc_no_property_key

  -- The loop of `query_all_property`.
  unfoldable pub write_properties : List (String × String) → Rpc (Unit {0})
  write_properties [] = done_unit
  write_properties ((key, text) ∷ property_map) = do
    set_rsp key (E.of_string text)
    write_properties property_map

  unfoldable pub query_all_property : Rpc (Unit {0})
  query_all_property = do
    account ← root_string "account"
    found ← query (λ store. E.get_account_snap_info store account)
    when_found found (fail xrpc_server_account_not_found)
        λ account_snap. do write_properties (E.get_all_property account_snap); set_result_ok
