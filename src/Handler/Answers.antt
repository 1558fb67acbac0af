-- ===== src/Handler/Answers.antt =====
-- What a response says: its member "Result" where a method ends normally.
use xrpcserver.Prelude.{
  ℕ, String, ◌≡◌, ◌⊎◌, inl, inr, ◌∙◌, Bool, Bool-cases, true, false, ℤ, pos, done, str_eq, arith,
  if◌then◌else◌,
}
use xrpcserver.Env.{Env, JsonLaws}
use xrpcserver.Rpc.{Json, State, Rpc, set_rsp}
use xrpcserver.Rpc.Leads.{Preserves, preserves_rules}
use xrpcserver.Rpc.Ends.{Ends, Ends-first, ends_rules}
use xrpcserver.Handler.Frame.{IsItemFrame, history_loop-Preserves, pending_loop-Preserves}
use xrpcserver.Handler.History.{account_history, account_pending, query_online_tx}
use xrpcserver.Handler.Actions.{Action}
use xrpcserver.Handler.Dispatch.{run}
use xrpcserver.Handler.Effects.{is_query}
use xrpcserver.Handler.Response.{set_result_ok, set_result_fail}
use xrpcserver.Handler.Query.{
  account_balance, account_info, last_digest, query_tps, query_property, query_all_property,
}

module _ ⦃E : Env⦄ where
  -- The response's member "Result" is this number.
  abbrev pub Result : ℕ → State → Type 0
  Result n s = E.get s.rsp "Result" ≡ E.of_int (pos n)

  module _ (L : JsonLaws E.json) where
    set_rsp-get :
        (k j : String) (x : Json) (s : State) (u : Unit {0})
        → (set_rsp k x s).0 ≡ done u
        → E.get (set_rsp k x s).1.rsp j ≡ (if str_eq k j then x else E.get s.rsp j)
    unfolding set_rsp
    set_rsp-get k j x s u e = elim (Bool-cases (E.keyed s.rsp)) [
      | inl keyed ↦ rw keyed (L.get-put s.rsp k x j keyed)
      | inr other ↦ absurd (ground arith)
    ]

    pub set_rsp-Result :
        (k : String) (x : Json) (n : ℕ)
        → str_eq k "Result" ≡ false
        → Preserves (Result n) (set_rsp k x)
    unfolding set_rsp
    set_rsp-Result k x n other = record {
      at = λ s h. elim (Bool-cases (E.keyed s.rsp)) [
        | inl keyed ↦ rw keyed (L.get-put s.rsp k x "Result" keyed ∙ rw other h)
        | inr e ↦ rw e h
      ];
    }

    pub set_result_ok-Result : (P : State → Type 0) → Ends P (Result 1) set_result_ok
    unfolding set_result_ok
    set_result_ok-Result P = record { at = λ s h u e. set_rsp-get "Result" "Result" _ s u e }

    pub set_result_fail-Result :
        (P : State → Type 0) (e : ℤ) → Ends P (Result 0) (set_result_fail e)
    unfolding set_result_fail
    set_result_fail-Result P e =
        Ends-first _ _ (record { at = λ s h u e'. set_rsp-get "Result" "Result" _ s u e' })
          λ _. search (preserves_rules, set_rsp-Result) depth 12

    -- A response to a query that has been answered.
    abbrev Answered : State → Type 0
    Answered s = Result 0 s ⊎ Result 1 s

    abbrev Any : State → Type 0
    Any s = Unit {0}

    Any-state : {A : Type 0} (m : Rpc A) → Preserves Any m
    Any-state m = record { at = λ s h. tt }

    set_rsp-Answered :
        (k : String) (x : Json) → str_eq k "Result" ≡ false → Preserves Answered (set_rsp k x)
    set_rsp-Answered k x other = record { at = λ s h. answered s h }
      where
        answered : (s : State) → Answered s → Answered (set_rsp k x s).1
        answered s (inl h) = inl ((set_rsp-Result k x 0 other).at s h)
        answered s (inr h) = inr ((set_rsp-Result k x 1 other).at s h)

    ok-Answered : Ends Any Answered set_result_ok
    ok-Answered = record { at = λ s h a e. inr ((set_result_ok-Result Any).at s h a e) }

    fail-Answered : (e : ℤ) → Ends Any Answered (set_result_fail e)
    fail-Answered r = record { at = λ s h a e. inl ((set_result_fail-Result Any r).at s h a e) }

    set_result_ok-Answered : Preserves Answered set_result_ok
    unfolding set_result_ok set_rsp
    set_result_ok-Answered = record {
      at = λ s h. elim (Bool-cases (E.keyed s.rsp)) [
        | inl keyed ↦ rw keyed (inr (L.get-put s.rsp "Result" _ "Result" keyed))
        | inr e ↦ rw e h
      ];
    }

    Answered-items : IsItemFrame Answered
    Answered-items = record { at = λ s a b h. h; ok = set_result_ok-Answered }

    ruleset answered_rules = (
      ends_rules, Ends-first, ok-Answered, fail-Answered, Any-state, preserves_rules,
      set_rsp-Answered, history_loop-Preserves, pending_loop-Preserves, Answered-items,
    )

    account_balance-Answered : Ends Any Answered account_balance
    unfolding account_balance
    account_balance-Answered = search answered_rules depth 20

    account_info-Answered : Ends Any Answered account_info
    unfolding account_info
    account_info-Answered = search answered_rules depth 40

    last_digest-Answered : Ends Any Answered last_digest
    unfolding last_digest
    last_digest-Answered = search answered_rules depth 40

    query_tps-Answered : Ends Any Answered query_tps
    unfolding query_tps
    query_tps-Answered = search answered_rules depth 40

    query_property-Answered : Ends Any Answered query_property
    unfolding query_property
    query_property-Answered = search answered_rules depth 40

    query_all_property-Answered : Ends Any Answered query_all_property
    unfolding query_all_property
    query_all_property-Answered = search answered_rules depth 40

    account_history-Answered : Ends Any Answered account_history
    unfolding account_history
    account_history-Answered = search answered_rules depth 40

    account_pending-Answered : Ends Any Answered account_pending
    unfolding account_pending
    account_pending-Answered = search answered_rules depth 40

    query_online_tx-Answered : Ends Any Answered query_online_tx
    unfolding query_online_tx
    query_online_tx-Answered = search answered_rules depth 40

    -- A query that ends normally has answered: the response's "Result" is 0 or 1.
    pub run-Answered :
        (action : Action) (nohash : Bool)
        → is_query action ≡ true
        → Ends Any Answered (run action nohash)
    unfolding run
    run-Answered Action.account_balance nohash q = account_balance-Answered
    run-Answered Action.account_info nohash q = account_info-Answered
    run-Answered Action.account_history nohash q = account_history-Answered
    run-Answered Action.account_pending nohash q = account_pending-Answered
    run-Answered Action.last_digest nohash q = last_digest-Answered
    run-Answered Action.tps_query nohash q = query_tps-Answered
    run-Answered Action.query_property nohash q = query_property-Answered
    run-Answered Action.query_all_property nohash q = query_all_property-Answered
    run-Answered Action.query_online_tx nohash q = query_online_tx-Answered
    run-Answered Action.invalid nohash q = fail-Answered _
    run-Answered _ nohash q = cc
