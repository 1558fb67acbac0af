-- ===== src/Tests/Servers.antt =====
-- The servers, on the small node of `Demo`.
use xrpcserver.Prelude.{
  ℕ, ◌+◌, ◌%◌, ◌^◌, String, List, [], ◌∷◌, ◌≡◌, ◌⊎◌, ◌↔◌, refl, false, done, undefined, arith,
  length, stoll,
}
use xrpcserver.Rpc.{World}
use xrpcserver.Base.{xrpc_return_str}
use xrpcserver.Demo.{DemoStore, demo}
use xrpcserver.Utility.{clock_ms}
use xrpcserver.Rpc.{string_in, ◌>>=◌, set_rsp}
use xrpcserver.Handler.{
  handle_request, action_of, run as run_method, account_sync, set_result_ok, set_result_fail,
}
use xrpcserver.Handler.Serve.{serve}
use xrpcserver.Server.{genesis_account_create, genesis_tx, returned, looping, run}
use xrpcserver.Server.Start.{IsCreated, run-IsCreated}
use xrpcserver.Service.{process, finish, SyncService, AsyncService, count_waiting, count_call}
use xrpcserver.Service.Async
use xrpcserver.Service.Rate.{count_call-undefined_iff}
use xrpcserver.Service.Replies.{run-IsBalanced}

abbrev node_store : DemoStore
node_store = record { balance = "500"; settle = []; receive = []; known = false; last_hash = 7 }

abbrev pub demo_world : World ⦃E = demo⦄
demo_world = record { store = node_store; sent = []; ticks = 0 }

run-IsCreated_example :
    ((looping (record { accepting = 1; connections = [] })
        ≡ looping (record { accepting = 1; connections = [] }))
      × IsCreated ⦃E = demo⦄ demo_world (run ⦃E = demo⦄ demo_world).1)
    ⊎ (looping (record { accepting = 1; connections = [] }) ≡ returned 0)
      × ((genesis_account_create ⦃E = demo⦄ demo_world).0 ≡ done false)
unfolding run genesis_tx stoll
run-IsCreated_example =
    run-IsCreated ⦃E = demo⦄ demo_world (looping (record { accepting = 1; connections = [] })) refl

pub looping_run :
    (run ⦃E = demo⦄ demo_world).0 ≡ done (looping (record { accepting = 1; connections = [] }))
unfolding run genesis_tx stoll
looping_run = refl

abbrev busy : SyncService
busy = record { call_num = 999; last_timestamp = 100005 }

count_call-undefined_iff_example :
    ((count_call ⦃E = demo⦄ "ok" busy demo_world).0 ≡ undefined)
    ↔ (((999 + 1) % 2 ^ 32 % 1000 ≡ 0) × (clock_ms ⦃E = demo⦄ 0 ≡ 100005))
count_call-undefined_iff_example =
    count_call-undefined_iff ⦃E = demo⦄ "ok" busy demo_world (omega arith)

-- Two requests, and the deletion of the first instance.
abbrev pub three_events : List (ℕ × String)
three_events = (0, "account_sync") ∷ (3, "nothing") ∷ (0, "") ∷ []

abbrev pub after_events : AsyncService
after_events = record {
  instances =
      (1, process)
      ∷ (2, process)
      ∷ (3, finish)
      ∷ (4, process)
      ∷ (5, process)
      ∷ (6, process)
      ∷ (7, process)
      ∷ [];
  next_address = 8;
  requested = 0 ∷ 1 ∷ 2 ∷ 3 ∷ 4 ∷ 5 ∷ 6 ∷ 7 ∷ [];
  replied = (0, "styled") ∷ (3, "styled") ∷ [];
  recv_num = 2;
  last_timestamp = 100005;
}

pub async_run : (Async.run ⦃E = demo⦄ three_events demo_world).0 ≡ done after_events
unfolding Async.run serve handle_request string_in action_of run_method account_sync set_result_ok
    set_result_fail xrpc_return_str ◌>>=◌ set_rsp
async_run = refl

run-IsBalanced_example :
    (count_waiting after_events.instances ≡ 6)
    × (length after_events.requested ≡ length after_events.replied + 6)
run-IsBalanced_example = run-IsBalanced ⦃E = demo⦄ three_events after_events demo_world async_run
