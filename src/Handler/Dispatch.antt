-- ===== src/Handler/Dispatch.antt =====
-- xrpc_handler.cpp: the constructors, and the choice of the method by the action.
use xrpcserver.Prelude.{String, Bool, ◌||◌, str_eq, if◌then◌else◌}
use xrpcserver.Base.{xrpc_server_json_parse_err, xrpc_server_action_invalid}
use xrpcserver.Env.{Env}
use xrpcserver.Rpc.{Json, World, State, Rpc, ◌>>=◌, gets, root_string, done_unit}
use xrpcserver.Handler.Actions.{Action, action_of}
use xrpcserver.Handler.Response.{fail}
use xrpcserver.Handler.Query.{
  account_balance, account_info, last_digest, query_tps, query_property, query_all_property,
}
use xrpcserver.Handler.History.{account_history, account_pending, query_online_tx}
use xrpcserver.Handler.Transfer.{account_create, transfer_out, give, transfer_in, set_property}
use xrpcserver.Handler.Account.{account_delete, account_snap_delete, account_sync, trigger_elect}

unfoldable pub no_hash : String → Bool
no_hash account =
    str_eq account "T-Um45LZ8HZYUpm5jdWi6bh99mdNjEHkz6w"
    || (str_eq account "T-cEcYfbpbmGvwQbHL349G8khFMcqLmpxig"
        || str_eq account "T-c1ayVXVmMPajuCTj1ahgWLPyU4m9XUBGk")

module _ ⦃E : Env⦄ where
  -- The members of a handler before the body of its constructor.
  abbrev pub blank : World → State
  blank world = record {
    request_http = "";
    root = E.null;
    rsp = E.null;
    array_obj = E.null;
    item = E.null;
    tx = E.new_tx;
    world = world;
  }

  -- `xrpc_handler(const std::string &req)`, after the members are set to `req` and to what the parser
  -- leaves in `m_root`.
  unfoldable pub xrpc_handler : String → Rpc (Unit {0})
  xrpc_handler req s =
      let (parsed, root) = E.parse req in
      let s' : State = record s { request_http = req; root = root } in
      if parsed then done_unit s' else fail xrpc_server_json_parse_err s'

  -- `xrpc_handler(const xJson::Value &req)`
  unfoldable pub xrpc_handler_of_value : Json → World → State
  xrpc_handler_of_value req world = record (blank world) { request_http = E.write req; root = req }

  unfoldable pub get_action : Rpc String
  get_action = root_string "action"

  unfoldable pub get_tx_digest : Rpc E.Hash
  get_tx_digest = gets (λ s. s.tx.tx_digest)

  -- The method of an action.
  unfoldable pub run : Action → Bool → Rpc (Unit {0})
  unfolding no_hash
  run Action.account_balance nohash = account_balance
  run Action.account_create nohash = account_create nohash
  run Action.account_info nohash = account_info
  run Action.transfer_out nohash = do source ← root_string "source"; transfer_out (no_hash source)
  run Action.transfer_in nohash = transfer_in nohash
  run Action.account_history nohash = account_history
  run Action.account_pending nohash = account_pending
  run Action.last_digest nohash = last_digest
  run Action.tps_query nohash = query_tps
  run Action.set_property nohash = set_property nohash
  run Action.query_property nohash = query_property
  run Action.query_all_property nohash = query_all_property
  run Action.give nohash = give
  run Action.query_online_tx nohash = query_online_tx
  run Action.account_delete nohash = account_delete
  run Action.account_snap_delete nohash = account_snap_delete
  run Action.account_sync nohash = account_sync
  run Action.trigger_elect nohash = trigger_elect
  run Action.invalid nohash = fail xrpc_server_action_invalid

  unfoldable pub handle_request : Rpc (Unit {0})
  unfolding run no_hash
  handle_request = do
    action ← root_string "action"
    account ← root_string "account"
    run (action_of action) (no_hash account)
