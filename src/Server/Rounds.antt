-- ===== src/Server/Rounds.antt =====
-- xrpc_server.cpp: the endless loop of `run`, where each round ends by an exception that leaves
-- `m_io_service.run`, or by its return when no work is left. From then on the service is stopped,
-- as asio documents it: without `reset`, which the loop does not call, `run` returns at once.
use xrpcserver.Prelude.{ℕ, ◌+◌, ◌<◌, List, ◌≡◌, Bool, true, false, length}
use xrpcserver.Server.Http.{Connection}
use xrpcserver.Server.Listener.{Server, accept_done, do_accept}

-- `failed` counts the accepts that failed, and `thrown` the exceptions.
pub record Loop : Type 0 where
  pub server : Server
  pub stopped : Bool
  pub failed : ℕ
  pub thrown : ℕ

-- The first call of `m_io_service.run`.
abbrev pub begin : Server → Loop
begin s = record { server = s; stopped = false; failed = 0; thrown = 0 }

-- What may happen next, in a call of `m_io_service.run` or at its end.
pub data Step (t u : Loop) : Type 0 where
  -- a connection is accepted
  accepted :
      (returned : Bool)
      → t.stopped ≡ false
      → 0 < t.server.accepting
      → u ≡ record t { server = accept_done false returned t.server }
      → Step t u
  -- an accept fails
  refused :
      (returned : Bool)
      → t.stopped ≡ false
      → 0 < t.server.accepting
      → u ≡ record t { server = accept_done true returned t.server; failed = t.failed + 1 }
      → Step t u
  -- handlers of the connections run
  worked :
      (connections : List Connection)
      → t.stopped ≡ false
      → length connections ≡ length t.server.connections
      → u ≡ record t { server = record t.server { connections = connections } }
      → Step t u
  -- a handler throws, and the next round begins
  threw :
      t.stopped ≡ false
      → u ≡ record t { server = do_accept t.server; thrown = t.thrown + 1 }
      → Step t u
  -- no work is left, and the next round begins
  drained :
      t.stopped ≡ false
      → t.server.accepting ≡ 0
      → u ≡ record t { server = do_accept t.server; stopped = true }
      → Step t u
  -- the service is stopped, and the next round begins
  spun : t.stopped ≡ true → u ≡ record t { server = do_accept t.server } → Step t u

pub data Reach (s : Loop) : Loop → Type 0 where
  here : Reach s s
  next : {t u : Loop} → Reach s t → Step t u → Reach s u
