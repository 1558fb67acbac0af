-- ===== src/Handler/Truth.antt =====
-- A response to a transacting action tells the truth: its "Result" is 1 exactly where the
-- transaction was sent.
use xrpcserver.Prelude.{
  String, ◌≡◌, ◌⊎◌, refl, inl, inr, Bool, Bool-cases, true, false, not, ℤ, Outcome, done, thrown,
  undefined, if◌then◌else◌,
}
use xrpcserver.Env.{Env, JsonLaws}
use xrpcserver.Rpc.{State, World, Rpc, ◌>>=◌, ◌>>◌, continue, pure, done_unit, string_in}
use xrpcserver.Rpc.Leads.{Preserves-root_string}
use xrpcserver.Rpc.Ends.{Ends, Ends-bind, ends_rules}
use xrpcserver.Handler.Actions.{Action, action_of}
use xrpcserver.Handler.Response.{set_result_ok, set_result_fail}
use xrpcserver.Handler.Frame.{set_result_fail-Preserves, check_input-Preserves}
use xrpcserver.Handler.Submit.{do_transaction_own}
use xrpcserver.Handler.Transfer.{
  check_input, verify, accept, account_create, check_funds, transfer_out, check_gift, give,
  transfer_in, set_property,
}
use xrpcserver.Handler.Dispatch.{no_hash, run, handle_request}
use xrpcserver.Handler.Quiet.{
  IsQuiet, IsVerified, IsSubmitted, IsQuiet-frame, IsVerified-frame, quiet_rules,
  accept-IsSubmitted, tx_digest_signature_set-IsQuiet, transaction_set_property-IsQuiet,
}
use xrpcserver.Handler.Answers.{Result, set_result_ok-Result, set_result_fail-Result, run-Answered}
use xrpcserver.Handler.Effects.{is_query}
use xrpcserver.Handler.Refuses.{check_input-Refuses}

-- The actions that transact.
abbrev pub is_transaction : Action → Bool
is_transaction Action.account_create = true
is_transaction Action.transfer_out = true
is_transaction Action.transfer_in = true
is_transaction Action.set_property = true
is_transaction Action.give = true
is_transaction _ = false

module _ ⦃E : Env⦄ where
  -- Refused, and nothing sent; or sent, and "Result" is 1.
  abbrev pub IsTruthful : World → State → Type 0
  IsTruthful w s = (IsQuiet w s × Result 0 s) ⊎ (IsSubmitted w s × Result 1 s)

  module _ (L : JsonLaws E.json) where
    module _ {w : World} where
      fail-IsQuiet : (e : ℤ) → Ends (IsQuiet w) (IsTruthful w) (set_result_fail e)
      fail-IsQuiet r = record {
        at = λ s h a e. inl (
          (set_result_fail-Preserves (IsQuiet-frame w) r).at s h,
          (set_result_fail-Result L (IsQuiet w) r).at s h a e,
        );
      }

      fail-IsVerified : (e : ℤ) → Ends (IsVerified w) (IsTruthful w) (set_result_fail e)
      fail-IsVerified r = record { at = λ s h a e. (fail-IsQuiet r).at s h.quiet a e }

      -- `accept` ends by `set_result_ok`.
      accept-Result : Ends (IsVerified w) (Result 1) accept
      unfolding accept ◌>>=◌
      accept-Result = record {
        at = λ s h a e. go (do_transaction_own s).0 (do_transaction_own s).1 a e;
      }
        where
          go :
              (o : Outcome (Unit {0})) (s : State) (a : Unit {0})
              → (continue o (λ u. done_unit >> set_result_ok) s).0 ≡ done a
              → Result 1 (continue o (λ u. done_unit >> set_result_ok) s).1
          go (done u) s a e = (set_result_ok-Result L (λ s'. Unit {0})).at s tt a e
          go thrown s a e = cc
          go undefined s a e = cc

      accept-IsTruthful : Ends (IsVerified w) (IsTruthful w) accept
      accept-IsTruthful = record {
        at = λ s h a e. inr (accept-IsSubmitted.at s h, accept-Result.at s h a e);
      }

      verify-IsTruthful :
          (m n : Rpc (Unit {0}))
          → Ends (IsQuiet w) (IsTruthful w) m
          → Ends (IsVerified w) (IsTruthful w) n
          → Ends (IsQuiet w) (IsTruthful w) (verify >>= λ verified. if not verified then m else n)
      unfolding ◌>>=◌
      verify-IsTruthful m n em en = record {
        at = λ s h a. elim (Bool-cases (E.tx_hash_and_sign_verify s.tx)) [
          | inl p ↦ rw p (en.at s (record { quiet = h; verified = p }) a)
          | inr p ↦ rw p (em.at s h a)
        ];
      }

      check_input-IsTruthful :
          (n : Rpc (Unit {0}))
          → Ends (IsQuiet w) (IsTruthful w) n
          → Ends
              (IsQuiet w)
              (IsTruthful w)
              (check_input >>= λ valid. if not valid then pure tt else n)
      unfolding ◌>>=◌
      check_input-IsTruthful n en = record {
        at = λ s h.
            go (check_input s).0 (check_input s).1
              ((check_input-Preserves (IsQuiet-frame w)).at s h) ((check_input-Refuses L).at s);
      }
        where
          rest : Bool → Rpc (Unit {0})
          rest valid = if not valid then pure tt else n

          go :
              (o : Outcome Bool) (s : State)
              → IsQuiet w s
              → (o ≡ done false → Result 0 s)
              → (a : Unit {0}) → (continue o rest s).0 ≡ done a
              → IsTruthful w (continue o rest s).1
          go (done true) s h r a e = en.at s h a e
          go (done false) s h r a e = inl (h, r refl)
          go thrown s h r a e = cc
          go undefined s h r a e = cc

      ruleset truth_rules = (
        fail-IsQuiet, fail-IsVerified, ends_rules, quiet_rules, IsVerified-frame, accept-IsTruthful,
        verify-IsTruthful, check_input-IsTruthful, tx_digest_signature_set-IsQuiet,
        transaction_set_property-IsQuiet,
      )

      account_create-IsTruthful :
          (nohash : Bool) → Ends (IsQuiet w) (IsTruthful w) (account_create nohash)
      unfolding account_create
      account_create-IsTruthful nohash = search truth_rules depth 40

      check_funds-IsTruthful :
          (a b c : String) → Ends (IsVerified w) (IsTruthful w) (check_funds a b c)
      unfolding check_funds
      check_funds-IsTruthful a b c = search truth_rules depth 40

      transfer_out-IsTruthful :
          (nohash : Bool) → Ends (IsQuiet w) (IsTruthful w) (transfer_out nohash)
      unfolding transfer_out
      transfer_out-IsTruthful nohash = search (truth_rules, check_funds-IsTruthful) depth 40

      check_gift-IsTruthful : (a : String) → Ends (IsVerified w) (IsTruthful w) (check_gift a)
      unfolding check_gift
      check_gift-IsTruthful a = search truth_rules depth 40

      give-IsTruthful : Ends (IsQuiet w) (IsTruthful w) give
      unfolding give
      give-IsTruthful = search (truth_rules, check_gift-IsTruthful) depth 40

      transfer_in-IsTruthful :
          (nohash : Bool) → Ends (IsQuiet w) (IsTruthful w) (transfer_in nohash)
      unfolding transfer_in
      transfer_in-IsTruthful nohash = search truth_rules depth 40

      set_property-IsTruthful :
          (nohash : Bool) → Ends (IsQuiet w) (IsTruthful w) (set_property nohash)
      unfolding set_property
      set_property-IsTruthful nohash = search truth_rules depth 40

    run-IsTruthful :
        (w : World) (action : Action) (nohash : Bool)
        → is_transaction action ≡ true
        → Ends (IsQuiet w) (IsTruthful w) (run action nohash)
    unfolding run
    run-IsTruthful w Action.account_create nohash t = account_create-IsTruthful nohash
    run-IsTruthful w Action.transfer_out nohash t =
        Ends-bind _ _ (Preserves-root_string "source")
          λ source. transfer_out-IsTruthful (no_hash source)
    run-IsTruthful w Action.transfer_in nohash t = transfer_in-IsTruthful nohash
    run-IsTruthful w Action.set_property nohash t = set_property-IsTruthful nohash
    run-IsTruthful w Action.give nohash t = give-IsTruthful
    run-IsTruthful w _ nohash t = cc

  -- A request that ends normally has run the method of its action.
  handle_request-Ends :
      (Q : State → Type 0) (s : State) (action : String)
      → string_in s.root "action" ≡ done action
      → ((nohash : Bool)
          → (run (action_of action) nohash s).0 ≡ done tt
          → Q (run (action_of action) nohash s).1)
      → (handle_request s).0 ≡ done tt
      → Q (handle_request s).1
  unfolding handle_request ◌>>=◌
  handle_request-Ends Q s action e each ended =
      rw e (ran (string_in s.root "account") (rw e at ended))
    where
      rest : String → Rpc (Unit {0})
      rest account = run (action_of action) (no_hash account)

      ran : (o : Outcome String) → (continue o rest s).0 ≡ done tt → Q (continue o rest s).1
      ran (done account) ended = each (no_hash account) ended
      ran thrown ended = cc
      ran undefined ended = cc

  -- Where a transacting request ends normally, either "Result" is 0, the store is as it was and
  -- nothing was sent, or "Result" is 1, the store is as it was and one message was sent, which
  -- carries the handler's transaction, whose hash and signature are verified.
  pub handle_request-IsTruthful :
      (L : JsonLaws E.json) (s : State) (action : String)
      → string_in s.root "action" ≡ done action
      → is_transaction (action_of action) ≡ true
      → (handle_request s).0 ≡ done tt
      → IsTruthful s.world (handle_request s).1
  handle_request-IsTruthful L s action e t ended =
      handle_request-Ends (IsTruthful s.world) s action e
        (λ nohash ended'.
          (run-IsTruthful L s.world (action_of action) nohash t).at s
            (record { same_store = refl; same_sent = refl }) tt ended')
        ended

  -- Where a request for an answer ends normally, "Result" is 0 or 1.
  pub handle_request-Answered :
      (L : JsonLaws E.json) (s : State) (action : String)
      → string_in s.root "action" ≡ done action
      → is_query (action_of action) ≡ true
      → (handle_request s).0 ≡ done tt
      → Result 0 (handle_request s).1 ⊎ Result 1 (handle_request s).1
  handle_request-Answered L s action e q ended =
      handle_request-Ends (λ s'. Result 0 s' ⊎ Result 1 s') s action e
        (λ nohash ended'. (run-Answered L (action_of action) nohash q).at s tt tt ended') ended
