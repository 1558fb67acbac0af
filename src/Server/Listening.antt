-- ===== src/Server/Listening.antt =====
-- How long the HTTP server listens.
use xrpcserver.Prelude.{
  ◌+◌, ◌<◌, ◌≡◌, ◌⊎◌, inl, refl, Bool, true, false, Outcome, done, thrown, undefined, arith,
}
use xrpcserver.Env.{Env}
use xrpcserver.Rpc.{World}
use xrpcserver.Server.Listener.{Server, looping, accept_done, do_accept, run, started}
use xrpcserver.Server.Genesis.{genesis_account_create}
use xrpcserver.Server.Rounds.{
  Loop, begin, Step, accepted, refused, worked, threw, drained, spun, Reach, here, next,
}

-- While the service works, an accept that fails takes one of the pending accepts away, and an
-- exception adds one; it stops only after more failures than exceptions.
abbrev IsCounted : Loop → Type 0
IsCounted t =
    ((t.stopped ≡ false) × (t.server.accepting + t.failed ≡ 1 + t.thrown))
    ⊎ ((t.stopped ≡ true) × (t.thrown < t.failed))

Step-IsCounted : (t u : Loop) → Step t u → IsCounted t → IsCounted u
unfolding accept_done do_accept
Step-IsCounted t u (accepted r e h eq) c = ground arith
Step-IsCounted t u (refused r e h eq) c = ground arith
Step-IsCounted t u (worked l e h eq) c = ground arith
Step-IsCounted t u (threw e eq) c = ground arith
Step-IsCounted t u (drained e h eq) c = ground arith
Step-IsCounted t u (spun e eq) c = ground arith

Reach-IsCounted : (s t : Loop) → IsCounted s → Reach s t → IsCounted t
Reach-IsCounted s t c here = c
Reach-IsCounted s u c (next {t = t} r st) = Step-IsCounted t u st (Reach-IsCounted s t c r)

module _ ⦃E : Env⦄ where
  looping-one : (s : Server) (o : Outcome Bool) → started o ≡ done (looping s) → s.accepting ≡ 1
  looping-one s (done true) e = ground arith
  looping-one s (done false) e = cc
  looping-one s thrown e = cc
  looping-one s undefined e = cc

  -- From the start of the loop of `run` on, however its steps follow one another: while the service
  -- works, the accepts that are pending are one, and one more for each exception, and one less for
  -- each accept that has failed. It stops only where more accepts have failed than exceptions were
  -- thrown.
  pub run-accepting :
      (w : World) (s : Server) (t : Loop)
      → (run w).0 ≡ done (looping s)
      → Reach (begin s) t
      → ((t.stopped ≡ false) × (t.server.accepting + t.failed ≡ 1 + t.thrown))
        ⊎ ((t.stopped ≡ true) × (t.thrown < t.failed))
  unfolding run
  run-accepting w s t e r =
      let one = looping-one s (genesis_account_create w).0 e in
      Reach-IsCounted (begin s) t (inl (refl, omega (arith, one))) r
