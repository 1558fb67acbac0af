-- ===== src/Handler/Account.antt =====
-- xrpc_handler.cpp: the methods that change the local store or address another part of the node.
use xrpcserver.Env.{
  Env, account_delete as sync_delete, account_sync as sync_account, trigger_elect as elect,
}
use xrpcserver.Rpc.{Rpc, ◌>>=◌, ◌>>◌, gets, change_store, set_rsp_value, send, root_string}
use xrpcserver.Handler.Response.{set_result_ok}

module _ ⦃E : Env⦄ where
  unfoldable pub account_delete : Rpc (Unit {0})
  account_delete = do
    account ← root_string "account"
    change_store (E.delete_account account)
    account' ← root_string "account"
    send (sync_delete account')
    set_result_ok

  unfoldable pub account_snap_delete : Rpc (Unit {0})
  account_snap_delete = do
    account ← root_string "account"
    change_store (E.account_snap_delete account)
    set_result_ok

  unfoldable pub account_sync : Rpc (Unit {0})
  account_sync = do account ← root_string "account"; send (sync_account account); set_result_ok

  -- `handle_request` has read the members "action" and "account" of `m_root` by now.
  unfoldable pub trigger_elect : Rpc (Unit {0})
  trigger_elect = do
    root ← gets (λ s. E.touch (E.touch s.root "action") "account")
    send (elect root)
    set_rsp_value (E.trigger_elect_reply root)
