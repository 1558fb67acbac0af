-- ===== src/Service/Agree.antt =====
-- The two services answer alike.
use xrpcserver.Prelude.{
  ℕ, ◌+◌, ◌-◌, ◌/◌, ◌%◌, ◌^◌, ◌<◌, String, [], ◌∷◌, ◌++◌, ◌≡◌, ◌≢◌, ◌⊎◌, inl, inr, refl, Bool-cases,
  true, false, some, Outcome, done, thrown, undefined, arith, ◌==◌,
}
use xrpcserver.Env.{Env}
use xrpcserver.Rpc.{World}
use xrpcserver.Utility.{clock_ms}
use xrpcserver.Handler.Serve.{serve}
use xrpcserver.Service.Sync.{SyncService, new_rate, after_rate, count_call, counted, call}
use xrpcserver.Service.Async.{
  process, AsyncService, status_of, is_thousandth, call_data, finish_call, count_request,
  proceed_from, proceed,
}

new_rate-done :
    (now last : ℕ)
    → now < 2 ^ 64
    → last < 2 ^ 64
    → now ≢ last
    → (rate : ℕ) × (new_rate now last ≡ done rate)
unfolding new_rate
new_rate-done now last h k d =
    let apart : ((now + 2 ^ 64 - last) % 2 ^ 64 == 0) ≡ false = ground (arith, d) in
    (1000000 / ((now + 2 ^ 64 - last) % 2 ^ 64), rw apart refl)

module _ ⦃E : Env⦄ where
  -- The count of the next request does not divide by 0, at this reading of the clock.
  abbrev pub MayCount : ℕ → AsyncService → Type 0
  MayCount ticks svc = (is_thousandth svc.recv_num ≡ false) ⊎ (clock_ms ticks ≢ svc.last_timestamp)

  -- The instance has sent this reply, and a new one waits for a request.
  abbrev pub HasReplied : ℕ → String → AsyncService → AsyncService → Type 0
  HasReplied tag rsp svc svc' =
      (svc'.replied ≡ svc.replied ++ (tag, rsp) ∷ [])
      × (svc'.requested ≡ svc.requested ++ svc.next_address ∷ [])

  count_request-HasReplied :
      (tag : ℕ) (rsp : String) (svc : AsyncService) (w : World)
      → svc.last_timestamp < 2 ^ 64
      → MayCount w.ticks svc
      → (svc' : AsyncService) × ((count_request tag rsp (call_data svc) w).0 ≡ done svc')
        × HasReplied tag rsp svc svc'
  unfolding count_request finish_call call_data
  count_request-HasReplied tag rsp svc w h may = elim (Bool-cases (is_thousandth svc.recv_num)) [
    | inr off ↦ (
      finish_call tag rsp (record (call_data svc) { recv_num = (svc.recv_num + 1) % 2 ^ 32 }),
      rw off refl,
      (refl, refl),
    )
    | inl on ↦
        let (rate, e) =
          new_rate-done (clock_ms w.ticks) svc.last_timestamp (omega arith) h (apart on may) in
        (
          finish_call tag rsp (record (call_data svc) {
            recv_num = (svc.recv_num + 1) % 2 ^ 32;
            last_timestamp = clock_ms w.ticks;
          }),
          rw (on, e) refl,
          (refl, refl),
        )
  ]
    where
      apart :
          is_thousandth svc.recv_num ≡ true
          → MayCount w.ticks svc
          → clock_ms w.ticks ≢ svc.last_timestamp
      apart on (inl off) = absurd (ground (arith, on, off))
      apart on (inr d) = d

  call-serve :
      (body rsp : String) (sync : SyncService) (w : World)
      → (call body sync w).0 ≡ done rsp
      → (serve body w).0 ≡ done rsp
  unfolding call count_call
  call-serve body rsp sync w e = from_count (serve body w).0 e
    where
      from_rate :
          (o : Outcome ℕ) (text : String) (now : ℕ) (svc : SyncService)
          → (after_rate o text now svc).0 ≡ done rsp
          → text ≡ rsp
      from_rate (done r) text now svc e' = cc
      from_rate thrown text now svc e' = cc
      from_rate undefined text now svc e' = cc

      from_count :
          (o : Outcome String) → (counted o sync (serve body w).1).0 ≡ done rsp → o ≡ done rsp
      from_count (done text) e' = elim (Bool-cases ((sync.call_num + 1) % 2 ^ 32 % 1000 == 0)) [
        | inl on ↦ rw (from_rate _ text _ _ (rw on at e')) refl
        | inr off ↦ rw off at e'
      ]
      from_count thrown e' = cc
      from_count undefined e' = cc

  -- Where the synchronous service replies to a request, an instance of the asynchronous one that
  -- waits and is given the same request, in the same world, sends the same reply, and a new instance
  -- waits: but where the count of the request divides by 0.
  pub proceed-HasReplied :
      (tag : ℕ) (body rsp : String) (sync : SyncService) (svc : AsyncService) (w : World)
      → (call body sync w).0 ≡ done rsp
      → status_of tag svc.instances ≡ some process
      → svc.last_timestamp < 2 ^ 64
      → MayCount (serve body w).1.ticks svc
      → (svc' : AsyncService) × ((proceed tag body svc w).0 ≡ done svc')
        × HasReplied tag rsp svc svc'
  unfolding proceed proceed_from
  proceed-HasReplied tag body rsp sync svc w e st h may =
      rw (st, call-serve body rsp sync w e)
        (count_request-HasReplied tag rsp svc (serve body w).1 h may)
