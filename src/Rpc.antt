-- ===== src/Rpc.antt =====
-- The state of a request and the monad of the methods of `xrpc_handler`.
mod Request
mod Monad
pub mod Leads
pub mod Ends
pub mod Steps
pub use Request.{Json, Tx, World, State, Rpc}
unfoldable pub use Monad.{
  ◌>>=◌, ◌>>◌, continue, pure, lift, gets, set_rsp_value, query, change_store, read_clock,
  when_found, send, member, string_in, root_string, root_int, root_int64, int_in, int64_in,
  c_string_in, set_rsp, set_item, item_string, append_item, set_tx, done_unit,
}
