-- ===== src/Handler/Serve.antt =====
-- How the servers use a handler: `make_shared<xrpc_handler>(req)`, `handle_request`, `get_response`.
use xrpcserver.Prelude.{String, Outcome}
use xrpcserver.Env.{Env}
use xrpcserver.Rpc.{World, Rpc, ◌>>◌}
use xrpcserver.Handler.Response.{get_response}
use xrpcserver.Handler.Dispatch.{blank, xrpc_handler, handle_request}

module _ ⦃E : Env⦄ where
  unfoldable pub answer : String → Rpc String
  unfolding xrpc_handler handle_request get_response
  answer req = do xrpc_handler req; handle_request; get_response

  -- The outcome for a new handler, and the world that it leaves.
  unfoldable pub serve : String → World → Outcome String × World
  unfolding answer
  serve req world = let (outcome, s) = answer req (blank world) in (outcome, s.world)
