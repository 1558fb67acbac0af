-- ===== src/Handler/Shown.antt =====
-- xrpc_handler.cpp: the members of a block of `account_history`.
use xrpcserver.Prelude.{
  String, ◌≡◌, refl, ◌∙◌, Option, none, some, true, false, ◌||◌, eq_ℤ, pos, done, str_eq, is_empty,
  to_string, if◌then◌else◌,
}
use xrpcserver.Env.{Env}
use xrpcserver.Rpc.{Json, Tx, State}
use xrpcserver.Utility.{hash_to_json_string}
use xrpcserver.Handler.History.{history_amount}
use xrpcserver.Handler.Tags.{name_of}

module _ ⦃E : Env⦄ where
  -- The source and the amount that are shown of a transaction.
  abbrev pub source_of : Tx → String
  source_of t =
      if eq_ℤ t.transaction_type (pos 1) || eq_ℤ t.transaction_type (pos 0)
      then t.sender_addr
      else if eq_ℤ t.transaction_type E.type_transfer_asset_in
      then t.origin_sender
      else t.sender_addr

  abbrev pub amount_of : Tx → Option String
  amount_of t =
      if eq_ℤ t.transaction_type (pos 1) || eq_ℤ t.transaction_type (pos 0)
      then some t.transaction_params
      else if eq_ℤ t.transaction_type E.type_transfer_asset_in
      then some t.origin_amount
      else none

  abbrev pub ShowsAmount : Option String → Json → Type 0
  ShowsAmount none v = Unit
  ShowsAmount (some amount) v = E.get v "amount" ≡ E.of_string amount

  -- The members of `v` that say what moved, and between whom.
  pub record IsTransfer (t : Tx) (v : Json) : Type 0 where
    pub transaction_type : E.get v "transaction_type" ≡ E.of_int t.transaction_type
    pub source : E.get v "source" ≡ E.of_string (source_of t)
    pub destination : E.get v "destination" ≡ E.of_string t.receiver_addr
    pub property_key :
        E.get v "property_key"
        ≡ E.of_string (if is_empty t.property_key then "$$" else t.property_key)
    pub amount : ShowsAmount (amount_of t) v

  -- The members of `v` are what the transaction says, with the names that the store has for its
  -- accounts.
  pub record IsBlock (store : E.Store) (t : Tx) (v : Json) : Type 0 where
    pub transfer : IsTransfer t v
    pub source_tag : E.get v "source_tag" ≡ E.of_string (name_of store (source_of t))
    pub destination_tag : E.get v "destination_tag" ≡ E.of_string (name_of store t.receiver_addr)
    pub tx_digest : E.get v "tx_digest" ≡ E.of_string (hash_to_json_string t.tx_digest)
    pub last_digest : E.get v "last_digest" ≡ E.of_string (hash_to_json_string t.last_msg_digest)
    pub rpc_time : E.get v "rpc_time" ≡ E.of_string (to_string t.edge_timestamp)

  ShowsAmount-eq :
      (amount : Option String) (v w : Json)
      → E.get w "amount" ≡ E.get v "amount"
      → ShowsAmount amount v
      → ShowsAmount amount w
  ShowsAmount-eq none v w e h = tt
  ShowsAmount-eq (some amount) v w e h = e ∙ h

  -- None of the members that are written after those of `IsTransfer`.
  abbrev IsEarly : String → Type 0
  IsEarly j =
      (str_eq "source_tag" j ≡ false)
      × (str_eq "destination_tag" j ≡ false)
      × (str_eq "tx_digest" j ≡ false)
      × (str_eq "last_digest" j ≡ false)
      × (str_eq "rpc_time" j ≡ false)

  pub IsTransfer-eq :
      (t : Tx) (v w : Json)
      → ((j : String) → IsEarly j → E.get w j ≡ E.get v j)
      → IsTransfer t v
      → IsTransfer t w
  IsTransfer-eq t v w agree h = record {
    transaction_type = agree "transaction_type" (refl, refl, refl, refl, refl) ∙ h.transaction_type;
    source = agree "source" (refl, refl, refl, refl, refl) ∙ h.source;
    destination = agree "destination" (refl, refl, refl, refl, refl) ∙ h.destination;
    property_key = agree "property_key" (refl, refl, refl, refl, refl) ∙ h.property_key;
    amount =
        ShowsAmount-eq (amount_of t) v w (agree "amount" (refl, refl, refl, refl, refl)) h.amount;
  }

  -- What `history_amount` does.
  pub record Amounted (t : Tx) (s : State) : Type 0 where
    pub item : Json
    pub run : history_amount t s ≡ (done tt, record s { item = item })
    pub keyed : E.keyed item ≡ true
    pub source : E.get item "source" ≡ E.of_string (source_of t)
    pub amount : ShowsAmount (amount_of t) item
    pub others :
        (j : String)
        → str_eq "amount" j ≡ false
        → str_eq "source" j ≡ false
        → E.get item j ≡ E.get s.item j
