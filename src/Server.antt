-- ===== src/Server.antt =====
-- xrpc_server.cpp: the HTTP server.
mod Http
mod Listener
pub mod Reads
pub mod Single
pub mod Exchange
pub mod Client
pub mod Reply
pub mod Rounds
pub mod Listening
pub mod Start
mod Genesis
mod FreshKey
pub use Http.{Connection, ReadUntil, until_space, until_blank_line, until_brace, fresh}
unfoldable pub use Http.{
  async_read_until, put_text, async_write, parse_method, on_options, on_error, do_read, do_write,
  on_post, do_read_http_body, handle_accept, method_done, header_done, body_done, respond,
}
unfoldable pub use Genesis.{genesis_tx, genesis_unit, genesis_store, genesis_account_create}
pub use Listener.{Server, Running, returned, looping}
unfoldable pub use Listener.{do_accept, accept_done, round, run}
unfoldable pub use Listener.{xrpc_server}
unfoldable pub use FreshKey.{test}
