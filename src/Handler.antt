-- ===== src/Handler.antt =====
-- xrpc_handler.cpp: the constructors, and the choice of the method by the action.
mod Response
mod Query
mod History
mod Submit
mod Transfer
mod Account
mod Actions
mod Dispatch
pub mod Frame
pub mod Authority
pub mod Quiet
pub mod Effects
pub mod Funds
pub mod Verdict
pub mod Order
pub mod Serve
pub mod Session
pub mod Info
pub mod Properties
pub mod Sending
pub mod Accepted
pub mod Receipt
pub mod Checks
pub mod Guarded
pub mod Keys
pub mod Gift
pub mod Giving
pub mod Answers
pub mod Truth
pub mod Refuses
pub mod Refusals
pub mod Tags
pub mod Block
pub mod Shown
pub mod Blocks
pub mod Counts
pub mod Members
pub mod Pending
pub mod Online
pub mod Page
pub mod Payment
unfoldable pub use Response.{set_result_ok, set_result_fail, get_response, get_response_ex, fail}
unfoldable pub use Query.{
  account_balance, account_info, last_digest, query_tps, query_property, query_all_property,
}
unfoldable pub use History.{set_property_value, account_history, account_pending, query_online_tx}
unfoldable pub use Submit.{
  last_digest_set, transaction_digest_add, tx_digest_signature_set, do_transaction, timeout_handle,
}
pub use Submit.{test_genesis_account_address, test_genesis_account_pri_key}
unfoldable pub use Transfer.{
  is_bad_key, check_input, check_funds, check_gift, accept, account_create, transfer_out, give,
  transfer_in, set_property,
}
unfoldable pub use Account.{account_delete, account_snap_delete, account_sync, trigger_elect}
pub use Actions.{Action}
unfoldable pub use Actions.{action_of}
unfoldable pub use Dispatch.{blank, xrpc_handler, no_hash, run, handle_request}
