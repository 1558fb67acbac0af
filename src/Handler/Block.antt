-- ===== src/Handler/Block.antt =====
-- xrpc_handler.cpp: what `account_history` shows of a transaction.
use xrpcserver.Prelude.{
  String, ◌≡◌, refl, ◌∙◌, inl, inr, Bool-cases, true, ◌||◌, eq_ℤ, pos, done, is_empty, to_string,
  if◌then◌else◌,
}
use xrpcserver.Env.{Env, JsonLaws}
use xrpcserver.Rpc.{Json, Tx, Rpc, State, ◌>>=◌, ◌>>◌, pure, set_item, append_item, done_unit}
use xrpcserver.Rpc.Steps.{step, set_item_lem}
use xrpcserver.Utility.{hash_to_json_string}
use xrpcserver.Handler.History.{UserTag, history_amount, history_item}
use xrpcserver.Handler.Members.{same, other}
use xrpcserver.Handler.Tags.{LeavesOut, Names, name_of, set_property_value-TagsSet}
use xrpcserver.Handler.Shown.{source_of, IsTransfer, IsBlock, IsTransfer-eq, Amounted}

module _ ⦃E : Env⦄ where
  module _ (L : JsonLaws E.json) where
    history_amount-Amounted :
        (t : Tx) (s : State)
        → E.keyed s.item ≡ true
        → E.get s.item "source" ≡ E.of_string t.sender_addr
        → Amounted t s
    unfolding history_amount ◌>>=◌ set_item done_unit
    history_amount-Amounted t s k e =
        let k₂ = L.keyed-put s.item "amount" (E.of_string t.origin_amount) k in
        elim (Bool-cases (eq_ℤ t.transaction_type (pos 1) || eq_ℤ t.transaction_type (pos 0))) [
          | inl ordinary ↦ record {
            item = E.put s.item "amount" (E.of_string t.transaction_params);
            run = rw (ordinary, k) refl;
            keyed = L.keyed-put _ _ _ k;
            source = rw ordinary (other L refl k ∙ e);
            amount = rw ordinary (same L k);
            others = λ j d₁ d₂. other L d₁ k;
          }
          | inr special ↦ elim (Bool-cases (eq_ℤ t.transaction_type E.type_transfer_asset_in)) [
            | inl incoming ↦ record {
              item =
                  E.put (E.put s.item "amount" (E.of_string t.origin_amount)) "source"
                    (E.of_string t.origin_sender);
              run = rw (special, incoming, k, k₂) refl;
              keyed = L.keyed-put _ _ _ k₂;
              source = rw (special, incoming) (same L k₂);
              amount = rw (special, incoming) (other L refl k₂ ∙ same L k);
              others = λ j d₁ d₂. other L d₂ k₂ ∙ other L d₁ k;
            }
            | inr neither ↦ record {
              item = s.item;
              run = rw (special, neither) refl;
              keyed = k;
              source = rw (special, neither) e;
              amount = rw (special, neither) tt;
              others = λ j d₁ d₂. refl;
            }
          ]
        ]

    -- The first part of `history_item`, before `rest`.
    abbrev opening : Tx → Rpc UserTag → Rpc UserTag
    opening t rest = do
      set_item "transaction_type" (E.of_int t.transaction_type)
      set_item "source" (E.of_string t.sender_addr)
      set_item "destination" (E.of_string t.receiver_addr)
      set_item "property_key"
          (E.of_string (if is_empty t.property_key then "$$" else t.property_key))
      history_amount t
      rest

    record Opened (t : Tx) (s : State) : Type 0 where
      item : Json
      run : (rest : Rpc UserTag) → opening t rest s ≡ rest (record s { item = item })
      keyed : E.keyed item ≡ true
      transfer : IsTransfer t item

    opening-Opened : (t : Tx) (s : State) → E.keyed s.item ≡ true → Opened t s
    opening-Opened t s k₀ =
        let key : String = if is_empty t.property_key then "$$" else t.property_key in
        let v₁ = E.put s.item "transaction_type" (E.of_int t.transaction_type) in
        let v₂ = E.put v₁ "source" (E.of_string t.sender_addr) in
        let v₃ = E.put v₂ "destination" (E.of_string t.receiver_addr) in
        let v₄ = E.put v₃ "property_key" (E.of_string key) in
        let k₁ = L.keyed-put s.item "transaction_type" (E.of_int t.transaction_type) k₀ in
        let k₂ = L.keyed-put v₁ "source" (E.of_string t.sender_addr) k₁ in
        let k₃ = L.keyed-put v₂ "destination" (E.of_string t.receiver_addr) k₂ in
        let k₄ = L.keyed-put v₃ "property_key" (E.of_string key) k₃ in
        let a =
          history_amount-Amounted t (record s { item = v₄ }) k₄
            (other L refl k₃ ∙ other L refl k₂ ∙ same L k₁) in
        record {
          item = a.item;
          run = λ rest.
              step _ _ (set_item_lem _ _ s k₀)
              ∙ step _ _ (set_item_lem _ _ (record s { item = v₁ }) k₁)
              ∙ step _ _ (set_item_lem _ _ (record s { item = v₂ }) k₂)
              ∙ step _ _ (set_item_lem _ _ (record s { item = v₃ }) k₃)
              ∙ step _ _ a.run;
          keyed = a.keyed;
          transfer = record {
            transaction_type =
                a.others _ refl refl
                ∙ other L refl k₃
                ∙ other L refl k₂
                ∙ other L refl k₁
                ∙ same L k₀;
            source = a.source;
            destination = a.others _ refl refl ∙ other L refl k₃ ∙ same L k₂;
            property_key = a.others _ refl refl ∙ same L k₃;
            amount = a.amount;
          };
        }

    -- The last part.
    abbrev closing : Tx → UserTag → Rpc UserTag
    closing t tags = do
      set_item "tx_digest" (E.of_string (hash_to_json_string t.tx_digest))
      set_item "last_digest" (E.of_string (hash_to_json_string t.last_msg_digest))
      set_item "rpc_time" (E.of_string (to_string t.edge_timestamp))
      append_item
      pure tags

    abbrev closed : Tx → Json → Json
    closed t v =
        E.put
          (E.put (E.put v "tx_digest" (E.of_string (hash_to_json_string t.tx_digest))) "last_digest"
            (E.of_string (hash_to_json_string t.last_msg_digest)))
          "rpc_time" (E.of_string (to_string t.edge_timestamp))

    closing_lem :
        (t : Tx) (tags : UserTag) (s : State)
        → E.keyed s.item ≡ true
        → E.listed s.array_obj ≡ true
        → closing t tags s ≡ (
          done tags,
          record s { item = closed t s.item; array_obj = E.append s.array_obj (closed t s.item) },
        )
    unfolding ◌>>=◌ set_item append_item
    closing_lem t tags s k₁ h =
        let k₂ =
          L.keyed-put s.item "tx_digest" (E.of_string (hash_to_json_string t.tx_digest)) k₁ in
        let k₃ =
          L.keyed-put _ "last_digest" (E.of_string (hash_to_json_string t.last_msg_digest)) k₂ in
        rw (k₁, k₂, k₃, h) refl

    closed-IsBlock :
        (t : Tx) (store : E.Store) (v : Json)
        → E.keyed v ≡ true
        → IsTransfer t v
        → E.get v "source_tag" ≡ E.of_string (name_of store (source_of t))
        → E.get v "destination_tag" ≡ E.of_string (name_of store t.receiver_addr)
        → IsBlock store t (closed t v)
    closed-IsBlock t store v k₁ h e₁ e₂ =
        let k₂ = L.keyed-put v "tx_digest" (E.of_string (hash_to_json_string t.tx_digest)) k₁ in
        let k₃ =
          L.keyed-put _ "last_digest" (E.of_string (hash_to_json_string t.last_msg_digest)) k₂ in
        record {
          transfer =
              IsTransfer-eq t v (closed t v)
                (λ j d. other L d.4 k₃ ∙ other L d.3 k₂ ∙ other L d.2 k₁) h;
          source_tag = other L refl k₃ ∙ other L refl k₂ ∙ other L refl k₁ ∙ e₁;
          destination_tag = other L refl k₃ ∙ other L refl k₂ ∙ other L refl k₁ ∙ e₂;
          tx_digest = other L refl k₃ ∙ other L refl k₂ ∙ same L k₁;
          last_digest = other L refl k₃ ∙ same L k₂;
          rpc_time = same L k₃;
        }

    -- What `history_item` does.
    pub record ShownBlock (t : Tx) (m : UserTag) (s : State) : Type 0 where
      pub tags : UserTag
      pub item : Json
      pub run : history_item t m s ≡ (
        done tags,
        record s {
          item = item;
          rsp = E.put s.rsp "Result" (E.of_int (pos 1));
          array_obj = E.append s.array_obj item;
        },
      )
      pub names : Names s.store tags
      pub keyed : E.keyed item ≡ true
      pub is_block : IsBlock s.store t item

    pub history_item-ShownBlock :
        (t : Tx) (m : UserTag) (s : State)
        → E.keyed s.item ≡ true
        → E.keyed s.rsp ≡ true
        → E.listed s.array_obj ≡ true
        → Names s.store m
        → LeavesOut
        → ShownBlock t m s
    unfolding history_item
    history_item-ShownBlock t m s k r h n out =
        let a = opening-Opened t s k in
        let b =
          set_property_value-TagsSet L (source_of t) t.receiver_addr m (record s { item = a.item })
            a.transfer.source a.transfer.destination a.keyed r n out in
        let s' : State = record s {
          item = b.item;
          rsp = E.put s.rsp "Result" (E.of_int (pos 1));
        } in
        record {
          tags = b.tags;
          item = closed t b.item;
          run = a.run _ ∙ step _ _ b.run ∙ closing_lem t b.tags s' b.keyed h;
          names = b.names;
          keyed = L.keyed-put _ _ _ (L.keyed-put _ _ _ (L.keyed-put _ _ _ b.keyed));
          is_block =
              closed-IsBlock t s.store b.item b.keyed
                (IsTransfer-eq t a.item b.item (λ j d. b.others j d.0 d.1) a.transfer) b.source_tag
                b.destination_tag;
        }
