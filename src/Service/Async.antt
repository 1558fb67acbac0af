-- ===== src/Service/Async.antt =====
-- xrpc_service.cpp: the asynchronous service: the instances of `CallData`, each in one of three
-- states, and the events that the completion queue hands out by instance.
use xrpcserver.Prelude.{
  ℕ, ◌+◌, ◌%◌, ◌^◌, String, List, [], ◌∷◌, ◌++◌, Bool, Option, none, some, Outcome, done, thrown,
  undefined, ◌==◌, ltb, ◌-◌, if◌then◌else◌,
}
use xrpcserver.Env.{Env}
use xrpcserver.Rpc.{World}
use xrpcserver.Handler.Serve.{serve}
use xrpcserver.Utility.{clock_ms}
use xrpcserver.Service.Sync.{new_rate}

pub data CallStatus : Type 0 where
  create : CallStatus
  process : CallStatus
  finish : CallStatus

-- An instance is known by its address: a number that no other instance has had. `requested` and
-- `replied` list the calls of `Requestcall` and of `Finish`, by instance; the two last members are
-- the globals `grpc_recv_num` and `grpc_last_timestamp`.
pub record AsyncService : Type 0 where
  pub instances : List (ℕ × CallStatus)
  pub next_address : ℕ
  pub requested : List ℕ
  pub replied : List (ℕ × String)
  pub recv_num : ℕ
  pub last_timestamp : ℕ

unfoldable pub status_of : ℕ → List (ℕ × CallStatus) → Option CallStatus
status_of tag [] = none
status_of tag ((a, st) ∷ l) = if a == tag then some st else status_of tag l

-- `status_ = st`, for the instance.
unfoldable pub set_status : ℕ → CallStatus → List (ℕ × CallStatus) → List (ℕ × CallStatus)
set_status tag st [] = []
set_status tag st ((a, old) ∷ l) = if a == tag then (a, st) ∷ l else (a, old) ∷ set_status tag st l

-- `delete this`
unfoldable pub delete : ℕ → List (ℕ × CallStatus) → List (ℕ × CallStatus)
delete tag [] = []
delete tag ((a, st) ∷ l) = if a == tag then l else (a, st) ∷ delete tag l

-- `num % 1000 == 0` for the `int` with this bit pattern.
unfoldable pub is_thousandth : ℕ → Bool
is_thousandth num = if ltb num (2 ^ 31) then num % 1000 == 0 else (2 ^ 32 - num) % 1000 == 0

-- How many instances wait for a request.
unfoldable pub count_waiting : List (ℕ × CallStatus) → ℕ
count_waiting [] = 0
count_waiting ((a, process) ∷ l) = count_waiting l + 1
count_waiting ((a, st) ∷ l) = count_waiting l

-- `new CallData(service, cq)`: the constructor calls `Proceed` in the state CREATE, which goes on to
-- PROCESS and calls `Requestcall`.
unfoldable pub call_data : AsyncService → AsyncService
call_data svc = record svc {
  instances = svc.instances ++ (svc.next_address, process) ∷ [];
  next_address = svc.next_address + 1;
  requested = svc.requested ++ svc.next_address ∷ [];
}

-- The end of the state PROCESS.
unfoldable pub finish_call : ℕ → String → AsyncService → AsyncService
unfolding set_status
finish_call tag rsp svc = record svc {
  instances = set_status tag finish svc.instances;
  replied = svc.replied ++ (tag, rsp) ∷ [];
}

module _ ⦃E : Env⦄ where
  abbrev pub rated : Outcome ℕ → ℕ → String → AsyncService → World → Outcome AsyncService × World
  rated (done rate) tag rsp svc world = (
    done (finish_call tag rsp (record svc { last_timestamp = clock_ms world.ticks })),
    record world { ticks = world.ticks + 1 },
  )
  rated thrown tag rsp svc world = (thrown, world)
  rated undefined tag rsp svc world = (undefined, world)

  -- The count of the requests, which takes the rate at every thousandth from the first, and the end
  -- of the state PROCESS.
  unfoldable pub count_request : ℕ → String → AsyncService → World → Outcome AsyncService × World
  unfolding finish_call new_rate is_thousandth
  count_request tag rsp svc world =
      let num = svc.recv_num in
      let svc' : AsyncService = record svc { recv_num = (svc.recv_num + 1) % 2 ^ 32 } in
      if is_thousandth num
      then rated (new_rate (clock_ms world.ticks) svc'.last_timestamp) tag rsp svc' world
      else (done (finish_call tag rsp svc'), world)

  abbrev pub processed : Outcome String → ℕ → AsyncService → World → Outcome AsyncService × World
  processed (done rsp) tag svc world = count_request tag rsp svc world
  processed thrown tag svc world = (thrown, world)
  processed undefined tag svc world = (undefined, world)

  -- `Proceed`, by the state of the instance; a tag that is no instance has no defined result. The
  -- state CREATE is left in the constructor.
  unfoldable pub proceed_from :
      Option CallStatus → ℕ → String → AsyncService → World → Outcome AsyncService × World
  unfolding call_data delete count_request serve set_status
  proceed_from none tag body svc world = (undefined, world)
  proceed_from (some create) tag body svc world = (
    done (record svc {
      instances = set_status tag process svc.instances;
      requested = svc.requested ++ tag ∷ [];
    }),
    world,
  )
  proceed_from (some process) tag body svc world =
      let (outcome, world') = serve body world in processed outcome tag (call_data svc) world'
  proceed_from (some finish) tag body svc world =
      (done (record svc { instances = delete tag svc.instances }), world)

  -- `Proceed` of the instance at an address; `body` is that of the request it has been given.
  unfoldable pub proceed : ℕ → String → AsyncService → World → Outcome AsyncService × World
  unfolding proceed_from status_of
  proceed tag body svc world = proceed_from (status_of tag svc.instances) tag body svc world

  abbrev pub next_event :
      Outcome AsyncService
      → World
      → (AsyncService → World → Outcome AsyncService × World)
      → Outcome AsyncService × World
  next_event (done svc) world rest = rest svc world
  next_event thrown world rest = (thrown, world)
  next_event undefined world rest = (undefined, world)

  -- The loop of `HandleRpcs`, over the events that `Next` hands out; an assertion ends the process
  -- where `Next` fails or the event is not ok, so each event here is a good one. An exception leaves
  -- the thread, which ends the process.
  unfoldable pub events : List (ℕ × String) → AsyncService → World → Outcome AsyncService × World
  unfolding proceed
  events [] svc world = (done svc, world)
  events ((tag, body) ∷ l) svc world =
      let (outcome, world') = proceed tag body svc world in next_event outcome world' (events l)

  -- `HandleRpcs`, run by one thread.
  unfoldable pub handle_rpcs :
      List (ℕ × String) → AsyncService → World → Outcome AsyncService × World
  unfolding events
  handle_rpcs l svc world = events l (call_data svc) world

  -- The members before `Run` starts its threads.
  abbrev pub idle : AsyncService
  idle = record {
    instances = [];
    next_address = 0;
    requested = [];
    replied = [];
    recv_num = 0;
    last_timestamp = 0;
  }

  -- `Run`: six threads, each of which makes an instance and then takes events from the one queue; the
  -- events are in the order in which the threads take them, each handled to its end.
  unfoldable pub run : List (ℕ × String) → World → Outcome AsyncService × World
  unfolding events call_data
  run l world =
      events l (call_data (call_data (call_data (call_data (call_data (call_data idle)))))) world
