-- ===== src/Handler/Accepted.antt =====
-- xrpc_handler.cpp: what becomes of a transaction that its method accepts.
use xrpcserver.Prelude.{ℕ, ◌≡◌, refl, true, pos, done}
use xrpcserver.Env.{Env, JsonLaws}
use xrpcserver.Rpc.{State, World, ◌>>=◌, set_rsp}
use xrpcserver.Handler.Response.{set_result_ok}
use xrpcserver.Handler.Transfer.{accept}
use xrpcserver.Handler.Quiet.{IsSubmitted, accept-IsSubmitted, do_transaction_own_lem}
use xrpcserver.Handler.Answers.{Result}

module _ ⦃E : Env⦄ where
  accept_lem :
      (L : JsonLaws E.json) (s : State)
      → E.keyed s.rsp ≡ true
      → ((accept s).0 ≡ done tt) × Result 1 (accept s).1 × ((accept s).1.tx ≡ s.tx)
  unfolding accept ◌>>=◌ set_result_ok set_rsp
  accept_lem L s k =
      rw (do_transaction_own_lem s, k)
        (refl, rw (L.get-put s.rsp "Result" (E.of_int (pos 1)) "Result" k) refl, refl)

  -- The world before the last reading of the clock.
  abbrev before : ℕ → State → World
  before ticks s = record s.world { ticks = ticks }

  -- A verified transaction is sent as it is, as one message, and "Result" is 1; the world before may
  -- be one with another clock.
  pub accept-Result :
      {ticks : ℕ} (L : JsonLaws E.json) (s : State)
      → E.keyed s.rsp ≡ true
      → E.tx_hash_and_sign_verify s.tx ≡ true
      → ((accept s).0 ≡ done tt)
        × IsSubmitted (before ticks s) (accept s).1
        × Result 1 (accept s).1
        × ((accept s).1.tx ≡ s.tx)
  accept-Result {ticks} L s k v =
      let (ended, result, same) = accept_lem L s k in
      (
        ended,
        accept-IsSubmitted.at s
            (record { quiet = record { same_store = refl; same_sent = refl }; verified = v }),
        result,
        same,
      )
