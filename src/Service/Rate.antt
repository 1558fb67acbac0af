-- ===== src/Service/Rate.antt =====
-- When the count of the calls has no defined result.
use xrpcserver.Prelude.{
  ℕ, ◌+◌, ◌%◌, ◌^◌, ◌<◌, String, ◌≡◌, ◌↔◌, refl, Bool-cases, inl, inr, Outcome, done, thrown,
  undefined, arith, ◌==◌,
}
use xrpcserver.Env.{Env}
use xrpcserver.Rpc.{World}
use xrpcserver.Utility.{clock_ms}
use xrpcserver.Service.Sync.{SyncService, new_rate, after_rate, count_call}

new_rate-undefined_iff :
    (now last : ℕ) → now < 2 ^ 64 → last < 2 ^ 64 → (new_rate now last ≡ undefined) ↔ (now ≡ last)
unfolding new_rate
new_rate-undefined_iff now last h k = (λ e. ground arith, λ e. ground arith)

module _ ⦃E : Env⦄ where
  after_rate_iff :
      (o : Outcome ℕ) (rsp : String) (now : ℕ) (svc : SyncService)
      → ((after_rate o rsp now svc).0 ≡ undefined) ↔ (o ≡ undefined)
  after_rate_iff (done r) rsp now svc = (λ e. cc, λ e. cc)
  after_rate_iff thrown rsp now svc = (λ e. cc, λ e. cc)
  after_rate_iff undefined rsp now svc = (λ e. refl, λ e. refl)

  -- The count of a call that has been answered divides by 0 exactly where the call is a thousandth
  -- one and the clock reads the millisecond of the last thousandth one.
  pub count_call-undefined_iff :
      (rsp : String) (svc : SyncService) (w : World)
      → svc.last_timestamp < 2 ^ 64
      → ((count_call rsp svc w).0 ≡ undefined)
        ↔ (((svc.call_num + 1) % 2 ^ 32 % 1000 ≡ 0) × (clock_ms w.ticks ≡ svc.last_timestamp))
  unfolding count_call
  count_call-undefined_iff rsp svc w h =
      elim (Bool-cases ((svc.call_num + 1) % 2 ^ 32 % 1000 == 0)) [
        | inr e ↦ (λ p. absurd (answered (rw e at p)), λ p. absurd (ground arith))
        | inl e ↦ (
          λ p. (ground arith, rate.0 ((after_rate_iff _ rsp _ _).0 (rw e at p))),
          λ p. rw e ((after_rate_iff _ rsp _ _).1 (rate.1 p.1)),
        )
      ]
    where
      now_fits : clock_ms w.ticks < 2 ^ 64
      now_fits = omega arith

      rate :
          (new_rate (clock_ms w.ticks) svc.last_timestamp ≡ undefined)
          ↔ (clock_ms w.ticks ≡ svc.last_timestamp)
      rate = new_rate-undefined_iff (clock_ms w.ticks) svc.last_timestamp now_fits h

      answered : ◌≡◌ {A = Outcome String} (done rsp) undefined → ⊥
      answered p = cc
