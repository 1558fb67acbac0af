-- ===== src/Handler/Order.antt =====
-- xrpc_handler.cpp: the transaction of `transfer_out` says what the request asks for, up to its end.
use xrpcserver.Prelude.{
  String, ◌≡◌, ◌⊎◌, refl, inl, inr, ◌∙◌, Bool, not, ℕ, ℤ, to_uint64, if◌then◌else◌,
}
use xrpcserver.Base.{xrpc_server_account_not_found, xrpc_server_hash_signature_check_fail}
use xrpcserver.Env.{Env, ChainLaws}
use xrpcserver.Rpc.{Tx, State, World, Rpc, ◌>>=◌, ◌>>◌, read_clock, set_tx, when_found}
use xrpcserver.Rpc.Leads.{Leads, Preserves, leads_rules}
use xrpcserver.Utility.{transaction_make_transfer_out}
use xrpcserver.Handler.Frame.{IsFrame, frame_rules}
use xrpcserver.Handler.Response.{set_result_fail, fail}
use xrpcserver.Handler.Submit.{last_digest_set, transaction_digest_add, tx_digest_signature_set}
use xrpcserver.Handler.Transfer.{accept, verify, check_funds}
use xrpcserver.Handler.Quiet.{IsQuiet, fail-IsQuiet, quiet_rules}
use xrpcserver.Handler.Verdict.{tx-accept}

module _ ⦃E : Env⦄ where
  -- The transaction transfers the amount of the asset out of `src`, to `dst`.
  pub record IsPayment (src dst asset amount : String) (t : Tx) : Type 0 where
    pub transaction_type : t.transaction_type ≡ E.type_transfer_asset_out
    pub sender_addr : t.sender_addr ≡ src
    pub receiver_addr : t.receiver_addr ≡ dst
    pub property_key : t.property_key ≡ asset
    pub transaction_params : t.transaction_params ≡ amount

  -- What `transfer_out` does once it has read its members.
  unfoldable pub transfer_checked : Bool → String → String → String → String → ℤ → Rpc (Unit {0})
  transfer_checked nohash src dst asset amount timestamp = do
    digest ← last_digest_set nohash src
    when_found digest (fail xrpc_server_account_not_found) λ last_hash. do
      set_tx (transaction_make_transfer_out src dst asset amount (to_uint64 timestamp) last_hash)
      tx_digest_signature_set nohash
      verified ← verify
      if not verified
          then fail xrpc_server_hash_signature_check_fail
          else check_funds src asset amount

  abbrev Ordered : (src dst asset amount : String) → State → Type 0
  Ordered src dst asset amount s = IsPayment src dst asset amount s.tx

  -- Nothing was sent, or the transaction is the one that the request asks for.
  abbrev MayOrder : (src dst asset amount : String) → World → State → Type 0
  MayOrder src dst asset amount w s = IsQuiet w s ⊎ Ordered src dst asset amount s

  module _ (C : ChainLaws E.chain) {src dst asset amount : String} where
    Ordered-frame : IsFrame (Ordered src dst asset amount)
    Ordered-frame = record { at = λ s a b c h. h }

    -- The steps that write the transaction: its signature, its time, both with its hash.
    set_tx-signature :
        (signature : String)
        → Preserves
            (Ordered src dst asset amount)
            (set_tx λ t. record t { tx_signature = signature })
    unfolding set_tx
    set_tx-signature signature = record {
      at = λ s h. record {
        transaction_type = h.transaction_type;
        sender_addr = h.sender_addr;
        receiver_addr = h.receiver_addr;
        property_key = h.property_key;
        transaction_params = h.transaction_params;
      };
    }

    set_tx-edge_timestamp :
        (now : ℕ)
        → Preserves (Ordered src dst asset amount) (set_tx λ t. record t { edge_timestamp = now })
    unfolding set_tx
    set_tx-edge_timestamp now = record {
      at = λ s h. record {
        transaction_type = h.transaction_type;
        sender_addr = h.sender_addr;
        receiver_addr = h.receiver_addr;
        property_key = h.property_key;
        transaction_params = h.transaction_params;
      };
    }

    set_tx-calc :
        (k : E.Key) → Preserves (Ordered src dst asset amount) (set_tx (E.tx_hash_and_sign_calc k))
    unfolding set_tx
    set_tx-calc k = record {
      at = λ s h. record {
        transaction_type = C.type-calc k s.tx ∙ h.transaction_type;
        sender_addr = C.sender-calc k s.tx ∙ h.sender_addr;
        receiver_addr = C.receiver-calc k s.tx ∙ h.receiver_addr;
        property_key = C.key-calc k s.tx ∙ h.property_key;
        transaction_params = C.params-calc k s.tx ∙ h.transaction_params;
      };
    }

    read_clock-Ordered :
        {A : Type 0} (f : ℕ → A) → Preserves (Ordered src dst asset amount) (read_clock f)
    unfolding read_clock
    read_clock-Ordered f = record { at = λ s h. h }

    accept-Ordered : Preserves (Ordered src dst asset amount) accept
    accept-Ordered = record { at = λ s h. rw (tx-accept s) h }

    ruleset order_rules = (
      frame_rules, Ordered-frame, set_tx-signature, set_tx-edge_timestamp, set_tx-calc,
      read_clock-Ordered, accept-Ordered,
    )

    transaction_digest_add-Ordered : Preserves (Ordered src dst asset amount) transaction_digest_add
    unfolding transaction_digest_add
    transaction_digest_add-Ordered = search order_rules depth 20

    tx_digest_signature_set-Ordered :
        (nohash : Bool) → Preserves (Ordered src dst asset amount) (tx_digest_signature_set nohash)
    unfolding tx_digest_signature_set
    tx_digest_signature_set-Ordered nohash =
        search (order_rules, transaction_digest_add-Ordered) depth 20

    check_funds-Ordered : Preserves (Ordered src dst asset amount) (check_funds src asset amount)
    unfolding check_funds
    check_funds-Ordered = search order_rules depth 30

    -- From the step that makes the transaction on.
    make-MayOrder :
        (w : World) (timestamp : ℕ) (last_hash : E.Hash) (rest : Rpc (Unit {0}))
        → Preserves (Ordered src dst asset amount) rest
        → Leads (IsQuiet w) (MayOrder src dst asset amount w) (
            set_tx (transaction_make_transfer_out src dst asset amount timestamp last_hash) >> rest)
    unfolding ◌>>=◌ transaction_make_transfer_out
    make-MayOrder w timestamp last_hash rest keeps = record {
      at = λ s h. inr (
          keeps.at _ (record {
            transaction_type = refl;
            sender_addr = refl;
            receiver_addr = refl;
            property_key = refl;
            transaction_params = refl;
          }));
    }

    fail-MayOrder :
        (w : World) (e : ℤ)
        → Leads (IsQuiet w) (MayOrder src dst asset amount w) (set_result_fail e)
    fail-MayOrder w = fail-IsQuiet (λ s h. inl h)

    quiet_order : (w : World) (s : State) → IsQuiet w s → MayOrder src dst asset amount w s
    quiet_order w s h = inl h

    pub transfer_checked-MayOrder :
        (nohash : Bool) (timestamp : ℤ) (w : World)
        → Leads
            (IsQuiet w)
            (MayOrder src dst asset amount w)
            (transfer_checked nohash src dst asset amount timestamp)
    unfolding transfer_checked
    transfer_checked-MayOrder nohash timestamp w =
        search
          (
            leads_rules, make-MayOrder, fail-MayOrder, quiet_order, quiet_rules, order_rules,
            tx_digest_signature_set-Ordered, check_funds-Ordered,
          )
          depth 40
