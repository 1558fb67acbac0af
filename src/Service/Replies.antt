-- ===== src/Service/Replies.antt =====
-- The asynchronous service keeps as many instances waiting as it was started with, and answers each
-- request once.
use xrpcserver.Prelude.{
  ℕ, ◌+◌, String, List, [], ◌∷◌, ◌++◌, ◌≡◌, refl, inl, inr, ap, ◌∙◌, ◌%◌, ◌^◌, Bool-cases, Option,
  none, some, Outcome, done, thrown, undefined, arith, length, length-append,
}
use xrpcserver.Env.{Env}
use xrpcserver.Rpc.{World}
use xrpcserver.Handler.Serve.{serve}
use xrpcserver.Utility.{clock_ms}
use xrpcserver.Service.Sync.{new_rate}
use xrpcserver.Service.Async.{
  CallStatus, create, process, finish, AsyncService, status_of, is_thousandth, count_waiting,
  call_data, rated, processed, finish_call, count_request, proceed_from, proceed, next_event,
  events, idle, run,
}
use xrpcserver.Service.Waiting.{
  done-injective, Started, count_waiting-concat, Started-concat, count_waiting-set_status,
  Started-set_status, count_waiting-delete, Started-delete, status-Started,
}

-- `n` instances wait, and each request that was asked for has been answered or is waited for.
pub record IsBalanced (n : ℕ) (svc : AsyncService) : Type 0 where
  pub started : Started svc.instances
  pub waiting : count_waiting svc.instances ≡ n
  pub answered : length svc.requested ≡ length svc.replied + n

pub call_data-IsBalanced :
    (n : ℕ) (svc : AsyncService) → IsBalanced n svc → IsBalanced (n + 1) (call_data svc)
unfolding call_data
call_data-IsBalanced n svc h = record {
  started = Started-concat svc.instances svc.next_address h.started;
  waiting = omega (arith, count_waiting-concat svc.instances svc.next_address, h.waiting);
  answered = omega (arith, length-append svc.requested (svc.next_address ∷ []), h.answered);
}

-- The state PROCESS: a new instance waits, and this one has answered.
finish_call-IsBalanced :
    (n tag : ℕ) (rsp : String) (l : List (ℕ × CallStatus)) (svc : AsyncService) (a : ℕ)
    → svc.instances ≡ l ++ (a, process) ∷ []
    → status_of tag l ≡ some process
    → IsBalanced (n + 1) svc
    → IsBalanced n (finish_call tag rsp svc)
unfolding finish_call
finish_call-IsBalanced n tag rsp l svc a e st h = record {
  started = Started-set_status tag svc.instances h.started;
  waiting = rw e (
      omega (
        arith,
        count_waiting-set_status tag l ((a, process) ∷ []) st,
        ap count_waiting e,
        h.waiting,
      ));
  answered = omega (arith, length-append svc.replied ((tag, rsp) ∷ []), h.answered);
}

no_instance : count_waiting [] ≡ 0
unfolding count_waiting
no_instance = refl

module _ ⦃E : Env⦄ where
  count_request-IsBalanced :
      (n tag : ℕ) (rsp : String) (svc svc' : AsyncService) (w : World)
      → IsBalanced n svc
      → status_of tag svc.instances ≡ some process
      → (count_request tag rsp (call_data svc) w).0 ≡ done svc'
      → IsBalanced n svc'
  unfolding count_request call_data
  count_request-IsBalanced n tag rsp svc svc' w h st e =
      elim (Bool-cases (is_thousandth svc.recv_num)) [
        | inr off ↦ let same = done-injective (rw off at e) in rw (← same) (finished _ _)
        | inl on ↦ rate (new_rate (clock_ms w.ticks) svc.last_timestamp) (rw on at e)
      ]
    where
      grown : IsBalanced (n + 1) (call_data svc)
      grown = call_data-IsBalanced n svc h

      counting : ℕ → ℕ → AsyncService
      counting recv_num last_timestamp = record (call_data svc) {
        recv_num = recv_num;
        last_timestamp = last_timestamp;
      }

      finished :
          (recv_num last_timestamp : ℕ)
          → IsBalanced n (finish_call tag rsp (counting recv_num last_timestamp))
      finished recv_num last_timestamp =
          finish_call-IsBalanced n tag rsp svc.instances (counting recv_num last_timestamp)
            svc.next_address refl st
            (record { started = grown.started; waiting = grown.waiting; answered = grown.answered })

      rate :
          (o : Outcome ℕ)
          → (rated o tag rsp (counting ((svc.recv_num + 1) % 2 ^ 32) svc.last_timestamp) w).0
            ≡ done svc'
          → IsBalanced n svc'
      rate (done r) e' = rw (← done-injective e') (finished _ _)
      rate thrown e' = cc
      rate undefined e' = cc

  proceed_from-IsBalanced :
      (n : ℕ) (st : Option CallStatus) (tag : ℕ) (body : String) (svc svc' : AsyncService)
      (w : World)
      → IsBalanced n svc
      → status_of tag svc.instances ≡ st
      → (proceed_from st tag body svc w).0 ≡ done svc'
      → IsBalanced n svc'
  unfolding proceed_from
  proceed_from-IsBalanced n none tag body svc svc' w h st e = cc
  proceed_from-IsBalanced n (some create) tag body svc svc' w h st e =
      absurd (status-Started tag svc.instances h.started st)
  proceed_from-IsBalanced n (some process) tag body svc svc' w h st e =
      replied (serve body w).0 (serve body w).1 e
    where
      replied :
          (o : Outcome String) (w' : World)
          → (processed o tag (call_data svc) w').0 ≡ done svc'
          → IsBalanced n svc'
      replied (done rsp) w' e' = count_request-IsBalanced n tag rsp svc svc' w' h st e'
      replied thrown w' e' = cc
      replied undefined w' e' = cc
  proceed_from-IsBalanced n (some finish) tag body svc svc' w h st e =
      rw (← done-injective e) (record {
        started = Started-delete tag svc.instances h.started;
        waiting = count_waiting-delete tag svc.instances st ∙ h.waiting;
        answered = h.answered;
      })

  events-IsBalanced :
      (n : ℕ) (l : List (ℕ × String)) (svc svc' : AsyncService) (w : World)
      → IsBalanced n svc
      → (events l svc w).0 ≡ done svc'
      → IsBalanced n svc'
  unfolding events proceed
  events-IsBalanced n [] svc svc' w h e = rw (← done-injective e) h
  events-IsBalanced n ((tag, body) ∷ l) svc svc' w h e =
      next (proceed tag body svc w).0 (proceed tag body svc w).1
        (λ svc₁. proceed_from-IsBalanced n _ tag body svc svc₁ w h refl)
        (λ svc₁ w₁ h₁. events-IsBalanced n l svc₁ svc' w₁ h₁) e
    where
      next :
          (o : Outcome AsyncService) (w' : World)
          → ((svc₁ : AsyncService) → o ≡ done svc₁ → IsBalanced n svc₁)
          → ((svc₁ : AsyncService) (w₁ : World)
              → IsBalanced n svc₁
              → (events l svc₁ w₁).0 ≡ done svc'
              → IsBalanced n svc')
          → (next_event o w' (events l)).0 ≡ done svc'
          → IsBalanced n svc'
      next (done svc₁) w' first later e' = later svc₁ w' (first svc₁ refl) e'
      next thrown w' first later e' = cc
      next undefined w' first later e' = cc

  -- Whatever events the queue hands out, while the process lives six instances wait for a request,
  -- and as many requests have been answered as were asked for, but for those six.
  pub run-IsBalanced :
      (l : List (ℕ × String)) (svc : AsyncService) (w : World)
      → (run l w).0 ≡ done svc
      → (count_waiting svc.instances ≡ 6) × (length svc.requested ≡ length svc.replied + 6)
  unfolding run
  run-IsBalanced l svc w e = let h = events-IsBalanced 6 l _ svc w six e in (h.waiting, h.answered)
    where
      none_yet : IsBalanced 0 idle
      none_yet = record { started = tt; waiting = no_instance; answered = refl }

      next : (n : ℕ) (s : AsyncService) → IsBalanced n s → IsBalanced (n + 1) (call_data s)
      next n s h = call_data-IsBalanced n s h

      six :
          IsBalanced 6 (call_data (call_data (call_data (call_data (call_data (call_data idle))))))
      six = next 5 _ (next 4 _ (next 3 _ (next 2 _ (next 1 _ (next 0 _ none_yet)))))
