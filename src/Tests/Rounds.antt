-- ===== src/Tests/Rounds.antt =====
-- Sequences of steps of the servers, and the theorems applied to them.
use xrpcserver.Prelude.{
  ◌+◌, ◌<◌, String, [], ◌∷◌, ◌++◌, ◌≡◌, ◌⊎◌, refl, true, false, some, arith, codes,
}
use xrpcserver.Demo.{demo}
use xrpcserver.Server.{fresh, do_write}
use xrpcserver.Server.{Server, accept_done, do_accept}
use xrpcserver.Server.Client.{read_response, read_response-do_write}
use xrpcserver.Server.Rounds.{Loop, begin, Reach, accepted, refused, drained, threw, here, next}
use xrpcserver.Server.Listening.{run-accepting}
use xrpcserver.Service.Phases.{view, six_wait, Moves}
use xrpcserver.Service.Refines.{run-Moves}
use xrpcserver.Service.Once.{AllOnce, run-AllOnce}
use xrpcserver.Tests.Servers.{demo_world, three_events, after_events, async_run, looping_run}

read_response-do_write_example :
    (text : String) × ((do_write "hi" fresh).written ≡ [] ++ text ∷ [])
    × (read_response (codes text) ≡ some (codes "hi"))
read_response-do_write_example = read_response-do_write "hi" fresh refl refl

-- A connection, an exception, two accepts that fail, and no work is left.
abbrev one_accepting : Server
one_accepting = record { accepting = 1; connections = [] }

abbrev connected : Loop
connected = record (begin one_accepting) { server = accept_done false true one_accepting }

abbrev thrown_once : Loop
thrown_once = record connected { server = do_accept connected.server; thrown = 1 }

abbrev failed_once : Loop
failed_once = record thrown_once { server = accept_done true true thrown_once.server; failed = 1 }

abbrev failed_twice : Loop
failed_twice = record failed_once { server = accept_done true true failed_once.server; failed = 2 }

abbrev stopped_loop : Loop
stopped_loop = record failed_twice { server = do_accept failed_twice.server; stopped = true }

rounds : Reach (begin one_accepting) stopped_loop
unfolding accept_done do_accept
rounds =
    next
      (next
        (next (next (next here (accepted true refl (omega arith) refl)) (threw refl refl))
          (refused true refl (omega arith) refl))
        (refused true refl (omega arith) refl))
      (drained refl refl refl)

run-accepting_example :
    ((true ≡ false) × (stopped_loop.server.accepting + 2 ≡ 1 + 1)) ⊎ ((true ≡ true) × (1 < 2))
run-accepting_example =
    run-accepting ⦃E = demo⦄ demo_world one_accepting stopped_loop looping_run rounds

run-Moves_example : Moves ⦃E = demo⦄ six_wait (view after_events)
run-Moves_example = run-Moves ⦃E = demo⦄ three_events after_events demo_world async_run

run-AllOnce_example : AllOnce ((0, "styled") ∷ (3, "styled") ∷ [])
run-AllOnce_example = run-AllOnce ⦃E = demo⦄ three_events after_events demo_world async_run
