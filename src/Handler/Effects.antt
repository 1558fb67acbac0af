-- ===== src/Handler/Effects.antt =====
-- What a whole request may do to the world, by its action.
use xrpcserver.Prelude.{String, ◌≡◌, refl, Bool, true, false, done, inl}
use xrpcserver.Env.{Env}
use xrpcserver.Rpc.{World, State, ◌>>=◌, string_in}
use xrpcserver.Rpc.Leads.{
  Leads, Preserves, Leads-Preserves, Leads-bind, Preserves-root_string, continue-Leads,
}
use xrpcserver.Handler.Frame.{
  IsFrame, set_result_fail-Preserves, account_balance-Preserves, account_info-Preserves,
  last_digest-Preserves, query_tps-Preserves, query_property-Preserves,
  query_all_property-Preserves, account_history-Preserves, account_pending-Preserves,
  query_online_tx-Preserves,
}
use xrpcserver.Handler.Authority.{
  account_create-MaySubmit, transfer_out-MaySubmit, give-MaySubmit, transfer_in-MaySubmit,
  set_property-MaySubmit,
}
use xrpcserver.Handler.Quiet.{IsQuiet, MaySubmit, IsQuiet-frame, quiet_may}
use xrpcserver.Handler.Actions.{Action, action_of}
use xrpcserver.Handler.Dispatch.{no_hash, run, handle_request}

-- The actions that only answer.
abbrev pub is_query : Action → Bool
is_query Action.account_balance = true
is_query Action.account_info = true
is_query Action.account_history = true
is_query Action.account_pending = true
is_query Action.last_digest = true
is_query Action.tps_query = true
is_query Action.query_property = true
is_query Action.query_all_property = true
is_query Action.query_online_tx = true
is_query Action.invalid = true
is_query _ = false

-- The actions that act on the node itself.
abbrev pub is_administrative : Action → Bool
is_administrative Action.account_delete = true
is_administrative Action.account_snap_delete = true
is_administrative Action.account_sync = true
is_administrative Action.trigger_elect = true
is_administrative _ = false

module _ ⦃E : Env⦄ where
  -- What an answer leaves alone.
  pub record IsUntouched (s₀ s : State) : Type 0 where
    pub same_world : s.world ≡ s₀.world
    pub same_tx : s.tx ≡ s₀.tx

  IsUntouched-frame : (s₀ : State) → IsFrame (IsUntouched s₀)
  IsUntouched-frame s₀ = record {
    at = λ s a b c h. record { same_world = h.same_world; same_tx = h.same_tx };
  }

  run-Preserves :
      {P : State → Type 0} (frame : IsFrame P) (action : Action) (nohash : Bool)
      → is_query action ≡ true
      → Preserves P (run action nohash)
  unfolding run
  run-Preserves frame Action.account_balance nohash q = account_balance-Preserves frame
  run-Preserves frame Action.account_info nohash q = account_info-Preserves frame
  run-Preserves frame Action.account_history nohash q = account_history-Preserves frame
  run-Preserves frame Action.account_pending nohash q = account_pending-Preserves frame
  run-Preserves frame Action.last_digest nohash q = last_digest-Preserves frame
  run-Preserves frame Action.tps_query nohash q = query_tps-Preserves frame
  run-Preserves frame Action.query_property nohash q = query_property-Preserves frame
  run-Preserves frame Action.query_all_property nohash q = query_all_property-Preserves frame
  run-Preserves frame Action.query_online_tx nohash q = query_online_tx-Preserves frame
  run-Preserves frame Action.invalid nohash q = set_result_fail-Preserves frame _
  run-Preserves frame _ nohash q = cc

  pub run-MaySubmit :
      (w : World) (action : Action) (nohash : Bool)
      → is_administrative action ≡ false
      → Leads (IsQuiet w) (MaySubmit w) (run action nohash)
  unfolding run
  run-MaySubmit w Action.account_create nohash a = account_create-MaySubmit nohash
  run-MaySubmit w Action.transfer_out nohash a =
      Leads-bind quiet_may _ _ (Preserves-root_string "source")
        λ source. transfer_out-MaySubmit (no_hash source)
  run-MaySubmit w Action.transfer_in nohash a = transfer_in-MaySubmit nohash
  run-MaySubmit w Action.set_property nohash a = set_property-MaySubmit nohash
  run-MaySubmit w Action.give nohash a = give-MaySubmit
  run-MaySubmit w Action.account_delete nohash a = cc
  run-MaySubmit w Action.account_snap_delete nohash a = cc
  run-MaySubmit w Action.account_sync nohash a = cc
  run-MaySubmit w Action.trigger_elect nohash a = cc
  run-MaySubmit w action nohash a =
      Leads-Preserves quiet_may _ (run-Preserves (IsQuiet-frame w) action nohash refl)

  -- `handle_request` reads two members and runs the method.
  pub handle_request-Leads :
      (Q : State → Type 0) (s : State)
      → Q s
      → ((action : String) (nohash : Bool)
          → string_in s.root "action" ≡ done action
          → Q (run (action_of action) nohash s).1)
      → Q (handle_request s).1
  unfolding handle_request ◌>>=◌
  handle_request-Leads Q s h each = continue-Leads Q (string_in s.root "action") _ s h λ action e.
      continue-Leads Q (string_in s.root "account") _ s h
        λ account e'. each action (no_hash account) e

  -- A request for an answer, however it ends, changes neither the world (the store, the messages
  -- sent, the clock) nor the transaction.
  pub handle_request-IsUntouched :
      (s : State) (action : String)
      → string_in s.root "action" ≡ done action
      → is_query (action_of action) ≡ true
      → IsUntouched s (handle_request s).1
  handle_request-IsUntouched s action e q =
      handle_request-Leads (IsUntouched s) s self λ a nohash e'.
        let same : a ≡ action = cc in
        (run-Preserves (IsUntouched-frame s) (action_of a) nohash (rw same q)).at s self
    where
      self : IsUntouched s s
      self = record { same_world = refl; same_tx = refl }

  -- Unless it acts on the node itself, a request, however it ends, leaves the store as it was, and
  -- sends nothing or one message, which carries the handler's transaction to the network: and then
  -- the hash and the signature of that transaction have been verified.
  pub handle_request-MaySubmit :
      (s : State) (action : String)
      → string_in s.root "action" ≡ done action
      → is_administrative (action_of action) ≡ false
      → MaySubmit s.world (handle_request s).1
  handle_request-MaySubmit s action e q =
      handle_request-Leads (MaySubmit s.world) s (inl self) λ a nohash e'.
        let same : a ≡ action = cc in
        (run-MaySubmit s.world (action_of a) nohash (rw same q)).at s self
    where
      self : IsQuiet s.world s
      self = record { same_store = refl; same_sent = refl }
