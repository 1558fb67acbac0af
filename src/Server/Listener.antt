-- ===== src/Server/Listener.antt =====
-- xrpc_server.cpp: `xrpc_server`, which accepts connections.
use Prim.Native.String as Str
use xrpcserver.Prelude.{
  ℕ, ◌+◌, ◌-◌, String, to_string, List, [], ◌∷◌, ◌++◌, Bool, true, false, Outcome, done, thrown,
  undefined, if◌then◌else◌,
}
use xrpcserver.Env.{Env}
use xrpcserver.Rpc.{World}
use xrpcserver.Server.Http.{Connection, fresh, handle_accept}
use xrpcserver.Server.Genesis.{genesis_account_create}

-- The number of calls of `async_accept` that have not completed, and the connections accepted.
pub record Server : Type 0 where
  pub accepting : ℕ
  pub connections : List Connection

unfoldable pub do_accept : Server → Server
do_accept s = record s { accepting = s.accepting + 1 }

-- The handler that `do_accept` passes on; `returned` is as for `do_read`.
unfoldable pub accept_done : Bool → Bool → Server → Server
unfolding do_accept handle_accept
accept_done error returned s =
    let s' : Server = record s { accepting = s.accepting - 1 } in
    if error
    then s'
    else do_accept (record s' { connections = s'.connections ++ handle_accept returned fresh ∷ [] })

-- `run` has returned a number, or is in its endless loop, at the call of `m_io_service.run`.
pub data Running : Type 0 where
  returned : ℕ → Running
  looping : Server → Running

-- One round of the loop, up to `m_io_service.run()`; an exception from there only starts the next.
unfoldable pub round : Running → Running
unfolding do_accept
round (returned n) = returned n
round (looping s) = looping (do_accept s)

abbrev pub started : Outcome Bool → Outcome Running
started (done true) = done (looping (record { accepting = 1; connections = [] }))
started (done false) = done (returned 0)
started thrown = thrown
started undefined = undefined

module _ ⦃E : Env⦄ where
  -- The constructor, and what it writes to the console.
  unfoldable pub xrpc_server : String → ℕ → Outcome (Server × String)
  unfolding to_string
  xrpc_server host port =
      let address = Str.◌++◌ host (Str.◌++◌ ":" (to_string port)) in
      if E.can_accept host port
      then done (
        record { accepting = 0; connections = [] },
        Str.◌++◌ "xrpc http server listening on " (Str.◌++◌ address "\n"),
      )
      else thrown

  -- `run`, up to its first call of `m_io_service.run`.
  unfoldable pub run : World → Outcome Running × World
  unfolding genesis_account_create
  run world = let (ok, world') = genesis_account_create world in (started ok, world')
