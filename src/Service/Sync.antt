-- ===== src/Service/Sync.antt =====
-- xrpc_service.cpp: the synchronous service.
use xrpcserver.Prelude.{
  ℕ, ◌+◌, ◌-◌, ◌/◌, ◌%◌, ◌^◌, String, Outcome, done, thrown, undefined, ◌==◌, if◌then◌else◌,
}
use xrpcserver.Env.{Env}
use xrpcserver.Rpc.{World}
use xrpcserver.Utility.{clock_ms}
use xrpcserver.Handler.Serve.{serve}

-- The members of `xrpc_serviceimpl`, which has no constructor: they start with any values.
pub record SyncService : Type 0 where
  pub call_num : ℕ
  pub last_timestamp : ℕ

-- `1000000/(new_timestamp - last_timestamp)` in `uint64_t`; a division by 0 has no defined result.
unfoldable pub new_rate : ℕ → ℕ → Outcome ℕ
new_rate new_timestamp last_timestamp =
    let elapsed = (new_timestamp + 2 ^ 64 - last_timestamp) % 2 ^ 64 in
    if elapsed == 0 then undefined else done (1000000 / elapsed)

module _ ⦃E : Env⦄ where
  abbrev pub after_rate : Outcome ℕ → String → ℕ → SyncService → Outcome String × SyncService
  after_rate (done rate) rsp now svc = (done rsp, record svc { last_timestamp = now })
  after_rate thrown rsp now svc = (thrown, svc)
  after_rate undefined rsp now svc = (undefined, svc)

  -- The count of the calls, and the rate at every thousandth.
  unfoldable pub count_call : String → SyncService → World → Outcome String × SyncService × World
  count_call rsp svc world =
      let svc' : SyncService = record svc { call_num = (svc.call_num + 1) % 2 ^ 32 } in
      let now = clock_ms world.ticks in
      let rated = after_rate (new_rate now svc'.last_timestamp) rsp now svc' in
      if svc'.call_num % 1000 == 0
      then (rated.0, rated.1, record world { ticks = world.ticks + 1 })
      else (done rsp, svc', world)

  abbrev pub counted : Outcome String → SyncService → World → Outcome String × SyncService × World
  counted (done rsp) svc world = count_call rsp svc world
  counted thrown svc world = (thrown, svc, world)
  counted undefined svc world = (undefined, svc, world)

  -- `call`, from the body of the request to the body of the reply.
  unfoldable pub call : String → SyncService → World → Outcome String × SyncService × World
  unfolding serve count_call new_rate
  call body svc world = let (outcome, world') = serve body world in counted outcome svc world'
