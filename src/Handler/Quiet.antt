-- ===== src/Handler/Quiet.antt =====
-- What a request may have done to the world: nothing, or a transaction that was verified went out.
use xrpcserver.Prelude.{
  ℕ, List, [], ◌∷◌, ◌++◌, ◌≡◌, ◌⊎◌, inl, inr, refl, ap, Bool, Bool-cases, done, eq_ℤ, ◌+◌, ◌%◌, ◌^◌,
  true, not, ℤ, arith, if◌then◌else◌,
}
use xrpcserver.Env.{Env, Effect, XtopMessage, broadcast, broadcast_ex}
use xrpcserver.Rpc.{Json, Tx, State, World, Rpc, ◌>>=◌, read_clock, set_tx, pure}
use xrpcserver.Rpc.Leads.{
  Leads, Preserves, preserves_rules, Leads-first, Leads-Preserves, Preserves-pure,
}
use xrpcserver.Utility.{transaction_set_property}
use xrpcserver.Handler.Frame.{
  IsFrame, set_result_ok-Preserves, set_result_fail-Preserves, frame_rules,
}
use xrpcserver.Handler.Response.{set_result_fail}
use xrpcserver.Handler.Submit.{tx_digest_signature_set, transaction_digest_add, do_transaction_own}
use xrpcserver.Handler.Transfer.{verify, accept}

module _ ⦃E : Env⦄ where
  abbrev pub Message : Type 0
  Message = Effect E.Value E.ShardInfo

  -- The store is `w`'s and nothing was sent since.
  pub record IsQuiet (w : World) (s : State) : Type 0 where
    pub same_store : s.store ≡ w.store
    pub same_sent : s.sent ≡ w.sent

  pub record IsVerified (w : World) (s : State) : Type 0 where
    pub quiet : IsQuiet w s
    pub verified : E.tx_hash_and_sign_verify s.tx ≡ true

  -- A message that carries the transaction `t` to the network.
  abbrev pub Carries : Tx → Message → Type 0
  Carries t (broadcast_ex m) = m.content ≡ E.serialize_no_type t
  Carries t (broadcast m kind shard) = m.content ≡ E.serialize_no_type t
  Carries t _ = ⊥

  -- One message went out since `w`, and it carries the handler's transaction, which is verified.
  pub record IsSubmitted (w : World) (s : State) : Type 0 where
    pub same_store : s.store ≡ w.store
    pub message : Message
    pub one_sent : s.sent ≡ w.sent ++ message ∷ []
    pub carries : Carries s.tx message
    pub verified : E.tx_hash_and_sign_verify s.tx ≡ true

  abbrev pub MaySubmit : World → State → Type 0
  MaySubmit w s = IsQuiet w s ⊎ IsSubmitted w s

  pub IsQuiet-frame : (w : World) → IsFrame (IsQuiet w)
  IsQuiet-frame w = record {
    at = λ s a b c h. record { same_store = h.same_store; same_sent = h.same_sent };
  }

  pub IsVerified-frame : (w : World) → IsFrame (IsVerified w)
  IsVerified-frame w = record {
    at =
        λ s a b c h. record { quiet = (IsQuiet-frame w).at s a b c h.quiet; verified = h.verified };
  }

  -- What `do_transaction` sends for the handler's transaction.
  abbrev pub proposal : State → Message
  proposal s =
      let m : XtopMessage = record {
        msg_type = E.msg_type_proposal_message;
        content = E.serialize_no_type s.tx;
        transaction_unique_seqno =
            ((E.timeofday s.ticks).0 % 2 ^ 64 + E.rand (s.ticks + 1)) % 2 ^ 64;
      } in
      if not (eq_ℤ E.node_type_rpc E.node_type)
      then broadcast_ex m
      else broadcast m E.node_type_consensus_node (E.get_account_shard_info s.tx.sender_addr)

  pub do_transaction_own_lem :
      (s : State)
      → do_transaction_own s ≡ (
        done tt,
        record s {
          world = record {
            store = s.store;
            sent = s.sent ++ proposal s ∷ [];
            ticks = s.ticks + 1 + 1;
          };
        },
      )
  unfolding do_transaction_own ◌>>=◌
  do_transaction_own_lem s = ground arith

  Carries-proposal : (s : State) → Carries s.tx (proposal s)
  Carries-proposal s = elim (Bool-cases (eq_ℤ E.node_type_rpc E.node_type)) [
    | inl e ↦ rw e refl
    | inr e ↦ rw e refl
  ]

  module _ {w : World} where
    pub quiet_may : (s : State) → IsQuiet w s → MaySubmit w s
    quiet_may s h = inl h

    pub verified_may : (s : State) → IsVerified w s → MaySubmit w s
    verified_may s h = inl h.quiet

    -- The steps that write the transaction.
    pub set_tx-IsQuiet : (f : Tx → Tx) → Preserves (IsQuiet w) (set_tx f)
    unfolding set_tx
    set_tx-IsQuiet f = record {
      at = λ s h. record { same_store = h.same_store; same_sent = h.same_sent };
    }

    pub read_clock-IsQuiet : {A : Type 0} (f : ℕ → A) → Preserves (IsQuiet w) (read_clock f)
    unfolding read_clock
    read_clock-IsQuiet f = record {
      at = λ s h. record { same_store = h.same_store; same_sent = h.same_sent };
    }

    pub ruleset quiet_rules = (frame_rules, IsQuiet-frame, set_tx-IsQuiet, read_clock-IsQuiet)

    transaction_digest_add-IsQuiet : Preserves (IsQuiet w) transaction_digest_add
    unfolding transaction_digest_add
    transaction_digest_add-IsQuiet = search quiet_rules depth 20

    pub tx_digest_signature_set-IsQuiet :
        (nohash : Bool) → Preserves (IsQuiet w) (tx_digest_signature_set nohash)
    unfolding tx_digest_signature_set
    tx_digest_signature_set-IsQuiet nohash =
        search (quiet_rules, transaction_digest_add-IsQuiet) depth 20

    pub transaction_set_property-IsQuiet :
        (v : Json) (h : E.Hash) → Preserves (IsQuiet w) (transaction_set_property v h)
    unfolding transaction_set_property
    transaction_set_property-IsQuiet v h = search quiet_rules depth 40

    pub do_transaction_own-IsSubmitted : Leads (IsVerified w) (IsSubmitted w) do_transaction_own
    do_transaction_own-IsSubmitted = record {
      at = λ s h. rw (do_transaction_own_lem s) (record {
        same_store = h.quiet.same_store;
        message = proposal s;
        one_sent = ap (λ (l : List Message). l ++ proposal s ∷ []) h.quiet.same_sent;
        carries = Carries-proposal s;
        verified = h.verified;
      });
    }

    pub IsSubmitted-frame : IsFrame (IsSubmitted w)
    IsSubmitted-frame = record {
      at = λ s a b c h. record {
        same_store = h.same_store;
        message = h.message;
        one_sent = h.one_sent;
        carries = h.carries;
        verified = h.verified;
      };
    }

    submitted_may : (s : State) → IsSubmitted w s → MaySubmit w s
    submitted_may s h = inr h

    pub accept-IsSubmitted : Leads (IsVerified w) (IsSubmitted w) accept
    unfolding accept
    accept-IsSubmitted =
        Leads-first _ _ do_transaction_own-IsSubmitted
          λ _. search (preserves_rules, set_result_ok-Preserves, IsSubmitted-frame)

    pub accept-MaySubmit : Leads (IsVerified w) (MaySubmit w) accept
    accept-MaySubmit = record { at = λ s h. inr (accept-IsSubmitted.at s h) }

  -- For any property `Q` that holds at the latest when nothing was sent.
  module _ {w : World} {Q : State → Type 0} (quiet : (s : State) → IsQuiet w s → Q s) where
    pub fail-IsQuiet : (e : ℤ) → Leads (IsQuiet w) Q (set_result_fail e)
    fail-IsQuiet e = Leads-Preserves quiet _ (set_result_fail-Preserves (IsQuiet-frame w) e)

    pub fail-IsVerified : (e : ℤ) → Leads (IsVerified w) Q (set_result_fail e)
    fail-IsVerified e =
        Leads-Preserves (λ s h. quiet s h.quiet) _
          (set_result_fail-Preserves (IsVerified-frame w) e)

    pub stop-IsQuiet : Leads (IsQuiet w) Q (pure tt)
    stop-IsQuiet = Leads-Preserves quiet _ (Preserves-pure tt)

    -- The test of the signature.
    pub verify-Leads :
        (m n : Rpc (Unit {0}))
        → Preserves (IsQuiet w) m
        → Leads (IsVerified w) Q n
        → Leads (IsQuiet w) Q (verify >>= λ verified. if not verified then m else n)
    unfolding ◌>>=◌
    verify-Leads m n km ln = record {
      at = λ s h. elim (Bool-cases (E.tx_hash_and_sign_verify s.tx)) [
        | inl p ↦ rw p (ln.at s (record { quiet = h; verified = p }))
        | inr p ↦ rw p (quiet (m s).1 (km.at s h))
      ];
    }
