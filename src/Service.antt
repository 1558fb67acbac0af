-- ===== src/Service.antt =====
-- xrpc_service.cpp: the gRPC server.
mod Sync
mod Grpc
pub mod Async
pub mod Instances
pub mod Phases
pub mod Refines
pub mod Once
pub mod Agree
pub mod Replies
pub mod Waiting
pub mod Rate
pub use Sync.{SyncService}
unfoldable pub use Sync.{new_rate, count_call, call}
pub use Async.{CallStatus, create, process, finish, AsyncService}
unfoldable pub use Async.{count_waiting, status_of, call_data, proceed, events, handle_rpcs, run}
pub use Grpc.{
  GrpcCall, Halt, waiting, ended, add_listening_port, register_service, build_and_start, wait,
}
unfoldable pub use Grpc.{xrpc_service, sync_run, service_run, async_set_up, shutdown}
