-- ===== src/Service/Grpc.antt =====
-- xrpc_service.cpp: what the service asks of the gRPC library, in order, and how its functions end.
use Prim.Native.String as Str
use xrpcserver.Prelude.{
  ℕ, String, List, [], ◌∷◌, ◌++◌, Bool, not, Outcome, undefined, to_string, if◌then◌else◌,
}

pub data GrpcCall : Type 0 where
  -- on an address, without credentials
  add_listening_port : String → GrpcCall
  register_service : GrpcCall
  add_completion_queue : GrpcCall
  build_and_start : GrpcCall
  wait : GrpcCall
  shutdown_server : GrpcCall
  shutdown_queue : GrpcCall

-- A function is still waiting, or it has ended.
pub data Halt : Type 0 where
  waiting : Halt
  ended : Outcome ℕ → Halt

-- The constructor: `m_address`.
unfoldable pub xrpc_service : String → ℕ → String
unfolding to_string
xrpc_service host port = Str.◌++◌ host (Str.◌++◌ ":" (to_string port))

-- `sync_run`, on `m_address`: `started` is whether `BuildAndStart` has made a server, and `stopped`
-- whether another thread shuts it down. A null server is dereferenced; behind `Wait` the function
-- has no return statement.
unfoldable pub sync_run : Bool → Bool → String → List GrpcCall × Halt
sync_run started stopped address =
    let calls = add_listening_port address ∷ register_service ∷ build_and_start ∷ [] in
    if not started
    then (calls, ended undefined)
    else (calls ++ wait ∷ [], if stopped then ended undefined else waiting)

-- `xrpc_service::run`, which has no return statement either: it ends where `sync_run` does.
unfoldable pub service_run : Bool → Bool → String → List GrpcCall × Halt
unfolding sync_run
service_run started stopped address = sync_run started stopped address

-- `xrpc_async_serviceimpl::Run`, up to the start of its threads.
unfoldable pub async_set_up : String → List GrpcCall
async_set_up server_address =
    add_listening_port server_address
    ∷ register_service
    ∷ add_completion_queue
    ∷ build_and_start
    ∷ []

-- The destructor of `xrpc_async_serviceimpl`.
unfoldable pub shutdown : List GrpcCall
shutdown = shutdown_server ∷ shutdown_queue ∷ []
