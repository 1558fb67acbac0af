-- ===== src/Handler/Actions.antt =====
-- xrpc_handler.cpp: the actions of `handle_request`.
use xrpcserver.Prelude.{String, str_eq, if◌then◌else◌}

-- The actions that `handle_request` knows, by the text of the member "action".
pub data Action : Type 0 where
  account_balance : Action
  account_create : Action
  account_info : Action
  transfer_out : Action
  transfer_in : Action
  account_history : Action
  account_pending : Action
  last_digest : Action
  tps_query : Action
  set_property : Action
  query_property : Action
  query_all_property : Action
  give : Action
  query_online_tx : Action
  account_delete : Action
  account_snap_delete : Action
  account_sync : Action
  trigger_elect : Action
  invalid : Action

-- The tests of `handle_request`, in its order.
unfoldable pub action_of : String → Action
action_of action =
    if str_eq action "account_balance"
    then Action.account_balance
    else if str_eq action "account_create"
    then Action.account_create
    else if str_eq action "account_info"
    then Action.account_info
    else if str_eq action "transfer_out"
    then Action.transfer_out
    else if str_eq action "transfer_in"
    then Action.transfer_in
    else if str_eq action "account_history"
    then Action.account_history
    else if str_eq action "account_pending"
    then Action.account_pending
    else if str_eq action "last_digest"
    then Action.last_digest
    else if str_eq action "tps_query"
    then Action.tps_query
    else if str_eq action "set_property"
    then Action.set_property
    else if str_eq action "query_property"
    then Action.query_property
    else if str_eq action "query_all_property"
    then Action.query_all_property
    else if str_eq action "give"
    then Action.give
    else if str_eq action "query_online_tx"
    then Action.query_online_tx
    else if str_eq action "account_delete"
    then Action.account_delete
    else if str_eq action "account_snap_delete"
    then Action.account_snap_delete
    else if str_eq action "account_sync"
    then Action.account_sync
    else if str_eq action "trigger_elect"
    then Action.trigger_elect
    else Action.invalid
