-- ===== src/Handler/Online.antt =====
-- xrpc_handler.cpp: how `query_online_tx` shows a transaction.
use xrpcserver.Prelude.{Forall2, String, List, [], ◌∷◌, ◌≡◌, refl, ◌∙◌, true, done, to_string}
use xrpcserver.Env.{Env, JsonLaws}
use xrpcserver.Rpc.{Json, Tx, State, Rpc, ◌>>=◌, ◌>>◌, set_item, append_item}
use xrpcserver.Utility.{hash_to_json_string}
use xrpcserver.Handler.History.{online_item}
use xrpcserver.Handler.Members.{same, other}

module _ ⦃E : Env⦄ where
  -- The members of `v` are those of the transaction.
  pub record IsOnline (t : Tx) (v : Json) : Type 0 where
    pub sender : E.get v "sender" ≡ E.of_string t.sender_addr
    pub receiver : E.get v "receiver" ≡ E.of_string t.receiver_addr
    pub property_key : E.get v "property_key" ≡ E.of_string t.property_key
    pub amount : E.get v "amount" ≡ E.of_string t.transaction_params
    pub timestamp : E.get v "timestamp" ≡ E.of_string (to_string t.timestamp)
    pub last_digest : E.get v "last_digest" ≡ E.of_string (hash_to_json_string t.last_msg_digest)
    pub tx_digest : E.get v "tx_digest" ≡ E.of_string (hash_to_json_string t.tx_digest)
    pub rpc_time : E.get v "rpc_time" ≡ E.of_string (to_string t.edge_timestamp)

  abbrev pub online_value : Tx → Json → Json
  online_value t v =
      E.put
        (E.put
          (E.put
            (E.put
              (E.put
                (E.put
                  (E.put (E.put v "sender" (E.of_string t.sender_addr)) "receiver"
                    (E.of_string t.receiver_addr))
                  "property_key" (E.of_string t.property_key))
                "amount" (E.of_string t.transaction_params))
              "timestamp" (E.of_string (to_string t.timestamp)))
            "last_digest" (E.of_string (hash_to_json_string t.last_msg_digest)))
          "tx_digest" (E.of_string (hash_to_json_string t.tx_digest)))
        "rpc_time" (E.of_string (to_string t.edge_timestamp))

  abbrev pub online_values : Json → List Tx → List Json
  online_values v [] = []
  online_values v (t ∷ l) = online_value t v ∷ online_values (online_value t v) l

  module _ (L : JsonLaws E.json) where
    pub keyed-online_value :
        (t : Tx) (v : Json) → E.keyed v ≡ true → E.keyed (online_value t v) ≡ true
    keyed-online_value t v k₁ =
        let k₂ = L.keyed-put v "sender" (E.of_string t.sender_addr) k₁ in
        let k₃ = L.keyed-put _ "receiver" (E.of_string t.receiver_addr) k₂ in
        let k₄ = L.keyed-put _ "property_key" (E.of_string t.property_key) k₃ in
        let k₅ = L.keyed-put _ "amount" (E.of_string t.transaction_params) k₄ in
        let k₆ = L.keyed-put _ "timestamp" (E.of_string (to_string t.timestamp)) k₅ in
        let k₇ =
          L.keyed-put _ "last_digest" (E.of_string (hash_to_json_string t.last_msg_digest)) k₆ in
        let k₈ = L.keyed-put _ "tx_digest" (E.of_string (hash_to_json_string t.tx_digest)) k₇ in
        L.keyed-put _ "rpc_time" _ k₈

    online_value-IsOnline : (t : Tx) (v : Json) → E.keyed v ≡ true → IsOnline t (online_value t v)
    online_value-IsOnline t v k₁ =
        let k₂ = L.keyed-put v "sender" (E.of_string t.sender_addr) k₁ in
        let k₃ = L.keyed-put _ "receiver" (E.of_string t.receiver_addr) k₂ in
        let k₄ = L.keyed-put _ "property_key" (E.of_string t.property_key) k₃ in
        let k₅ = L.keyed-put _ "amount" (E.of_string t.transaction_params) k₄ in
        let k₆ = L.keyed-put _ "timestamp" (E.of_string (to_string t.timestamp)) k₅ in
        let k₇ =
          L.keyed-put _ "last_digest" (E.of_string (hash_to_json_string t.last_msg_digest)) k₆ in
        let k₈ = L.keyed-put _ "tx_digest" (E.of_string (hash_to_json_string t.tx_digest)) k₇ in
        record {
          sender =
              other L refl k₈
              ∙ other L refl k₇
              ∙ other L refl k₆
              ∙ other L refl k₅
              ∙ other L refl k₄
              ∙ other L refl k₃
              ∙ other L refl k₂
              ∙ same L k₁;
          receiver =
              other L refl k₈
              ∙ other L refl k₇
              ∙ other L refl k₆
              ∙ other L refl k₅
              ∙ other L refl k₄
              ∙ other L refl k₃
              ∙ same L k₂;
          property_key =
              other L refl k₈
              ∙ other L refl k₇
              ∙ other L refl k₆
              ∙ other L refl k₅
              ∙ other L refl k₄
              ∙ same L k₃;
          amount =
              other L refl k₈ ∙ other L refl k₇ ∙ other L refl k₆ ∙ other L refl k₅ ∙ same L k₄;
          timestamp = other L refl k₈ ∙ other L refl k₇ ∙ other L refl k₆ ∙ same L k₅;
          last_digest = other L refl k₈ ∙ other L refl k₇ ∙ same L k₆;
          tx_digest = other L refl k₈ ∙ same L k₇;
          rpc_time = same L k₈;
        }

    pub online_values-Shows :
        (v : Json) (l : List Tx) → E.keyed v ≡ true → Forall2 IsOnline l (online_values v l)
    online_values-Shows v [] k = tt
    online_values-Shows v (t ∷ l) k = (
      online_value-IsOnline t v k,
      online_values-Shows (online_value t v) l (keyed-online_value t v k),
    )

    abbrev pub shown : Tx → State → State
    shown t s = record s {
      item = online_value t s.item;
      array_obj = E.append s.array_obj (online_value t s.item);
    }

    -- The next member of the item is written.
    step :
        {k : String} {x : Json} {s : State} (rest : Rpc (Unit {0}))
        → E.keyed s.item ≡ true
        → (set_item k x >> rest) s ≡ rest (record s { item = E.put s.item k x })
    unfolding ◌>>=◌ set_item
    step rest e = rw e refl

    append_lem :
        (s : State)
        → E.listed s.array_obj ≡ true
        → append_item s ≡ (done tt, record s { array_obj = E.append s.array_obj s.item })
    unfolding append_item
    append_lem s e = rw e refl

    pub online_item_lem :
        (t : Tx) (s : State)
        → E.keyed s.item ≡ true
        → E.listed s.array_obj ≡ true
        → online_item t s ≡ (done tt, shown t s)
    unfolding online_item
    online_item_lem t s k₁ h =
        let k₂ = L.keyed-put s.item "sender" (E.of_string t.sender_addr) k₁ in
        let k₃ = L.keyed-put _ "receiver" (E.of_string t.receiver_addr) k₂ in
        let k₄ = L.keyed-put _ "property_key" (E.of_string t.property_key) k₃ in
        let k₅ = L.keyed-put _ "amount" (E.of_string t.transaction_params) k₄ in
        let k₆ = L.keyed-put _ "timestamp" (E.of_string (to_string t.timestamp)) k₅ in
        let k₇ =
          L.keyed-put _ "last_digest" (E.of_string (hash_to_json_string t.last_msg_digest)) k₆ in
        let k₈ = L.keyed-put _ "tx_digest" (E.of_string (hash_to_json_string t.tx_digest)) k₇ in
        step _ k₁
        ∙ step _ k₂
        ∙ step _ k₃
        ∙ step _ k₄
        ∙ step _ k₅
        ∙ step _ k₆
        ∙ step _ k₇
        ∙ step _ k₈
        ∙ append_lem (record s { item = online_value t s.item }) h
