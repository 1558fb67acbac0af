-- ===== src/Service/Refines.antt =====
-- The asynchronous service does what its phases may do.
use xrpcserver.Prelude.{
  ℕ, ◌+◌, ◌%◌, ◌^◌, String, List, [], ◌∷◌, ◌≡◌, ◌≢◌, refl, ap, ◌∙◌, inl, inr, Bool-cases, Option,
  none, some, Outcome, done, thrown, undefined, arith, ◌==◌, ltb, if◌then◌else◌,
}
use mathlib.Core.Path.{fun_ext}
use xrpcserver.Env.{Env}
use xrpcserver.Rpc.{World}
use xrpcserver.Handler.Serve.{serve}
use xrpcserver.Utility.{clock_ms}
use xrpcserver.Service.Sync.{new_rate}
use xrpcserver.Service.Async.{
  CallStatus, create, process, finish, AsyncService, status_of, delete, is_thousandth, call_data,
  rated, processed, finish_call, count_request, proceed_from, proceed, next_event, events, idle,
  run,
}
use xrpcserver.Service.Instances.{
  Apart, Apart-concat, Apart-set_status, Apart-delete, status-concat, status-concat_lt,
  status-concat_new, status-set_status, status-set_status_self, status-delete, status-delete_self,
  status-lt,
}
use xrpcserver.Service.Phases.{view, six_wait, Move, answers, leaves, Moves, here, then_move}

-- All addresses are below the next one, no two are the same, and no instance is in the state CREATE.
pub record IsSound (svc : AsyncService) : Type 0 where
  pub apart : Apart svc.next_address svc.instances
  pub created : (a : ℕ) → status_of a svc.instances ≢ some create

-- A waiting instance answers.
finish_call-phase :
    (tag : ℕ) (rsp : String) (svc : AsyncService)
    → IsSound svc
    → status_of tag svc.instances ≡ some process
    → (a : ℕ)
    → status_of a (finish_call tag rsp (call_data svc)).instances ≡ (
        if a == svc.next_address
        then some process
        else if a == tag
        then some finish
        else status_of a svc.instances)
unfolding finish_call call_data
finish_call-phase tag rsp svc h e a = elim (Bool-cases (a == svc.next_address)) [
  | inl new ↦
      let same : a ≡ svc.next_address = ground arith in
      let apart_from : a ≢ tag = λ e'.
        absurd (omega (arith, status-lt tag svc.next_address process svc.instances h.apart e)) in
      rw new (
        status-set_status a tag finish _ apart_from
        ∙ rw same (status-concat_new svc.next_address process svc.instances h.apart))
  | inr old ↦ rw old (elim (Bool-cases (a == tag)) [
    | inl self ↦
        let same : a ≡ tag = ground arith in
        let lt = status-lt tag svc.next_address process svc.instances h.apart e in
        rw (self, same)
          (status-set_status_self tag finish process _
            (status-concat_lt tag svc.next_address process svc.instances lt ∙ e))
    | inr other ↦ rw other (
        status-set_status a tag finish _ (λ e'. ground arith)
        ∙ status-concat a svc.next_address process svc.instances (λ e'. ground arith))
  ])
]

finish_call-IsSound :
    (tag : ℕ) (rsp : String) (svc : AsyncService)
    → IsSound svc
    → status_of tag svc.instances ≡ some process
    → IsSound (finish_call tag rsp (call_data svc))
unfolding finish_call call_data
finish_call-IsSound tag rsp svc h e = record {
  apart =
      Apart-set_status (svc.next_address + 1) tag finish _
        (Apart-concat svc.next_address process svc.instances h.apart);
  created = λ a e'. ground (arith, finish_call-phase tag rsp svc h e a, h.created a);
}

delete-phase :
    (tag : ℕ) (svc : AsyncService)
    → IsSound svc
    → (a : ℕ)
    → status_of a (delete tag svc.instances)
      ≡ (if a == tag then none else status_of a svc.instances)
delete-phase tag svc h a = elim (Bool-cases (a == tag)) [
  | inl self ↦
      let same : a ≡ tag = ground arith in
      rw (self, same) (status-delete_self svc.next_address tag svc.instances h.apart)
  | inr other ↦ rw other (status-delete a tag svc.instances (λ e. ground arith))
]

module _ ⦃E : Env⦄ where
  -- A request that has been counted has been answered; but for the count, nothing else has changed.
  count_request_lem :
      (tag : ℕ) (rsp : String) (svc svc' : AsyncService) (w : World)
      → (count_request tag rsp svc w).0 ≡ done svc'
      → (num last : ℕ) × (svc'
          ≡ finish_call tag rsp (record svc { recv_num = num; last_timestamp = last }))
  unfolding count_request
  count_request_lem tag rsp svc svc' w e = elim (Bool-cases (is_thousandth svc.recv_num)) [
    | inr off ↦ ((svc.recv_num + 1) % 2 ^ 32, svc.last_timestamp, let e' = rw off at e in cc)
    | inl on ↦ rate (new_rate (clock_ms w.ticks) svc.last_timestamp) (rw on at e)
  ]
    where
      rate :
          (o : Outcome ℕ)
          → (rated o tag rsp (record svc { recv_num = (svc.recv_num + 1) % 2 ^ 32 }) w).0
            ≡ done svc'
          → (num last : ℕ) × (svc'
              ≡ finish_call tag rsp (record svc { recv_num = num; last_timestamp = last }))
      rate (done r) e' = ((svc.recv_num + 1) % 2 ^ 32, clock_ms w.ticks, cc)
      rate thrown e' = cc
      rate undefined e' = cc

  -- A move, and the service stays sound.
  abbrev Moved : AsyncService → AsyncService → Type 0
  Moved svc svc' = Move (view svc) (view svc') × IsSound svc'

  replied-Moved :
      (tag : ℕ) (body rsp : String) (svc svc' : AsyncService) (before w : World)
      → IsSound svc
      → status_of tag svc.instances ≡ some process
      → (serve body before).0 ≡ done rsp
      → (count_request tag rsp (call_data svc) w).0 ≡ done svc'
      → Moved svc svc'
  unfolding call_data finish_call
  replied-Moved tag body rsp svc svc' before w h st r e =
      let (num, last, same) = count_request_lem tag rsp (call_data svc) svc' w e in
      let sound = finish_call-IsSound tag rsp svc h st in
      rw same (
        answers tag body rsp before r st (finish_call-phase tag rsp svc h st) refl refl,
        record { apart = sound.apart; created = sound.created },
      )

  proceed_from-Moved :
      (st : Option CallStatus) (tag : ℕ) (body : String) (svc svc' : AsyncService) (w : World)
      → IsSound svc
      → status_of tag svc.instances ≡ st
      → (proceed_from st tag body svc w).0 ≡ done svc'
      → Moved svc svc'
  unfolding proceed_from
  proceed_from-Moved none tag body svc svc' w h st e = cc
  proceed_from-Moved (some create) tag body svc svc' w h st e = absurd (h.created tag st)
  proceed_from-Moved (some process) tag body svc svc' w h st e =
      served (serve body w).0 (serve body w).1 refl e
    where
      served :
          (o : Outcome String) (w' : World)
          → (serve body w).0 ≡ o
          → (processed o tag (call_data svc) w').0 ≡ done svc'
          → Moved svc svc'
      served (done rsp) w' r e' = replied-Moved tag body rsp svc svc' w w' h st r e'
      served thrown w' r e' = cc
      served undefined w' r e' = cc
  proceed_from-Moved (some finish) tag body svc svc' w h st e =
      let same : svc' ≡ record svc { instances = delete tag svc.instances } = cc in
      rw same (
        leaves tag st (delete-phase tag svc h) refl refl,
        record {
          apart = Apart-delete svc.next_address tag svc.instances h.apart;
          created = λ a e'. ground (arith, delete-phase tag svc h a, h.created a);
        },
      )

  -- What the loop does over any events is a sequence of moves.
  pub events-Moves :
      (l : List (ℕ × String)) (start svc svc' : AsyncService) (w : World)
      → IsSound svc
      → Moves (view start) (view svc)
      → (events l svc w).0 ≡ done svc'
      → Moves (view start) (view svc')
  unfolding events proceed
  events-Moves [] start svc svc' w h m e = let same : svc' ≡ svc = cc in rw same m
  events-Moves ((tag, body) ∷ l) start svc svc' w h m e =
      next (proceed tag body svc w).0 (proceed tag body svc w).1
        (λ svc₁. proceed_from-Moved _ tag body svc svc₁ w h refl)
        (λ svc₁ w₁ h₁ m₁. events-Moves l start svc₁ svc' w₁ h₁ m₁) e
    where
      next :
          (o : Outcome AsyncService) (w' : World)
          → ((svc₁ : AsyncService) → o ≡ done svc₁ → Moved svc svc₁)
          → ((svc₁ : AsyncService) (w₁ : World)
              → IsSound svc₁
              → Moves (view start) (view svc₁)
              → (events l svc₁ w₁).0 ≡ done svc'
              → Moves (view start) (view svc'))
          → (next_event o w' (events l)).0 ≡ done svc'
          → Moves (view start) (view svc')
      next (done svc₁) w' first later e' =
          let (move, sound) = first svc₁ refl in later svc₁ w' sound (then_move m move) e'
      next thrown w' first later e' = cc
      next undefined w' first later e' = cc

  -- What the threads' six instances make of the members.
  abbrev started_all : AsyncService
  started_all = call_data (call_data (call_data (call_data (call_data (call_data idle)))))

  started_six :
      (a : ℕ) → status_of a started_all.instances ≡ (if ltb a 6 then some process else none)
  unfolding status_of call_data
  started_six a = ground arith

  view-started_six : view started_all ≡ six_wait
  unfolding call_data
  view-started_six =
      ap (λ (f : ℕ → Option CallStatus). record { phase = f; next = 6; replied = [] })
        (fun_ext started_six)

  -- Whatever events the queue hands out, while the process lives what its six threads do is a
  -- sequence of moves, from the phases in which six instances wait: each move is the answer of an
  -- instance that waited, with the text that a handler yields for a request in some world, and with a
  -- new instance in its place, or the end of an instance that had answered.
  pub run-Moves :
      (l : List (ℕ × String)) (svc : AsyncService) (w : World)
      → (run l w).0 ≡ done svc
      → Moves six_wait (view svc)
  unfolding run call_data
  run-Moves l svc w e =
      rw (← view-started_six) (events-Moves l started_all started_all svc w sound here e)
    where
      sound : IsSound started_all
      sound = record { apart = omega arith; created = λ a e'. ground (arith, started_six a) }
