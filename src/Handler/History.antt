-- ===== src/Handler/History.antt =====
-- xrpc_handler.cpp: the methods that answer with a list of transactions.
use xrpcserver.Prelude.{
  ℕ, ◌+◌, ◌^◌, String, List, [], ◌∷◌, Option, none, some, Bool, not, ◌&&◌, ◌||◌, ℤ, pos, ◌+ℤ◌, ◌*ℤ◌,
  ltb_ℤ, leb_ℤ, eq_ℤ, in_range, Outcome, done, undefined, or_undefined, to_string, is_empty, str_eq,
  length, ltb, if◌then◌else◌,
}
use xrpcserver.Base.{xrpc_server_unkown_err}
use xrpcserver.Env.{Env}
use xrpcserver.Rpc.{
  Tx, Rpc, ◌>>=◌, ◌>>◌, pure, lift, gets, query, when_found, root_string, root_int, set_rsp,
  set_item, item_string, append_item, done_unit,
}
use xrpcserver.Utility.{hash_to_json_string}
use xrpcserver.Handler.Response.{set_result_ok, fail}

-- `int` arithmetic: no defined result outside the 32 bits.
unfoldable pub int_add : ℤ → ℤ → Outcome ℤ
unfolding in_range ◌+ℤ◌
int_add a b = or_undefined (in_range 31 (a +ℤ b))

unfoldable pub int_mul : ℤ → ℤ → Outcome ℤ
unfolding in_range ◌*ℤ◌
int_mul a b = or_undefined (in_range 31 (a *ℤ b))

-- `++num`, for a `num` that counts up from 0.
unfoldable pub next_num : ℕ → Outcome ℕ
next_num num = if ltb (num + 1) (2 ^ 31) then done (num + 1) else undefined

-- `num >= start_num && num < end_num`
abbrev pub in_page : ℤ → ℤ → ℕ → Bool
in_page start_num end_num num = leb_ℤ start_num (pos num) && ltb_ℤ (pos num) end_num

-- `std::unordered_map<std::string, std::string>`
abbrev pub UserTag : Type 0
UserTag = List (String × String)

unfoldable pub find : String → UserTag → Option String
find key [] = none
find key ((k, v) ∷ m) = if str_eq k key then some v else find key m

-- `insert` leaves an entry that is there.
unfoldable pub insert : String → String → UserTag → UserTag
unfolding find
insert key v m = elim (find key m) [ none ↦ (key, v) ∷ m | some w ↦ m ]

module _ ⦃E : Env⦄ where
  -- One half of `set_property_value`, for the members `key` and `tag_key` of `m_js_item`; the name
  -- of the account, if it has one, is its property "@name".
  unfoldable pub set_tag : String → String → UserTag → Rpc UserTag
  unfolding find insert
  set_tag key tag_key user_tag = do
    who ← item_string key
    when_found (find who user_tag)
        (do
          set_item tag_key (E.of_string "")
          who' ← item_string key
          account_snap ← query (λ store. E.get_account_snap_info store who')
          property_value ← when_found account_snap (pure "") λ snap. do
            let (has, text) = E.get_property snap "@name" ""
            if has then set_item tag_key (E.of_string text) else done_unit
            pure text
          who'' ← item_string key
          pure (insert who'' property_value user_tag))
        λ text. do set_item tag_key (E.of_string text); pure user_tag

  unfoldable pub set_property_value : UserTag → Rpc UserTag
  unfolding set_tag
  set_property_value user_tag = do
    user_tag' ← set_tag "source" "source_tag" user_tag
    user_tag'' ← set_tag "destination" "destination_tag" user_tag'
    set_result_ok
    pure user_tag''

  abbrev pub is_transfer : Tx → Bool
  is_transfer t =
      eq_ℤ t.transaction_type E.type_transfer_asset_in
      || eq_ℤ t.transaction_type E.type_transfer_asset_out

  abbrev pub text : String → E.Value
  text = E.of_string

  -- The amount that a block of the history shows, by its type.
  unfoldable pub history_amount : Tx → Rpc (Unit {0})
  history_amount t =
      if eq_ℤ t.transaction_type (pos 1) || eq_ℤ t.transaction_type (pos 0)
      then set_item "amount" (text t.transaction_params)
      else if eq_ℤ t.transaction_type E.type_transfer_asset_in
      then (do set_item "amount" (text t.origin_amount); set_item "source" (text t.origin_sender))
      else done_unit

  -- The body of the loop of `account_history`, for a transaction of the page.
  unfoldable pub history_item : Tx → UserTag → Rpc UserTag
  history_item t user_tag = do
    set_item "transaction_type" (E.of_int t.transaction_type)
    set_item "source" (text t.sender_addr)
    set_item "destination" (text t.receiver_addr)
    set_item "property_key" (text (if is_empty t.property_key then "$$" else t.property_key))
    history_amount t
    user_tag' ← set_property_value user_tag
    set_item "tx_digest" (text (hash_to_json_string t.tx_digest))
    set_item "last_digest" (text (hash_to_json_string t.last_msg_digest))
    set_item "rpc_time" (text (to_string t.edge_timestamp))
    append_item
    pure user_tag'

  -- The loop of `account_history`; it ends with the value of `num`.
  unfoldable pub history_loop : ℤ → ℤ → List Tx → ℕ → UserTag → Rpc ℕ
  history_loop start_num end_num [] num user_tag = pure num
  history_loop start_num end_num (t ∷ settle_list) num user_tag =
      let rest = history_loop start_num end_num settle_list in
      if not (is_transfer t) then rest num user_tag else do
        user_tag' ← if in_page start_num end_num num then history_item t user_tag else pure user_tag
        num' ← lift (next_num num)
        rest num' user_tag'

  unfoldable pub account_history : Rpc (Unit {0})
  account_history = do
    account ← root_string "account"
    count ← root_int "count"
    per_page ← root_int "per_page"
    start_num ← lift (int_mul count per_page)
    count' ← lift (int_add count (pos 1))
    end_num ← lift (int_mul count' per_page)
    settle_list ← query (λ store. E.get_settle_blocks store account)
    set_result_ok
    num ← history_loop start_num end_num settle_list 0 []
    blocks ← gets (λ s. s.array_obj)
    set_rsp "blocks" blocks
    set_rsp "count" (text (to_string num))

  unfoldable pub pending_item : Tx → Rpc (Unit {0})
  pending_item t = do
    set_item "sender" (text t.sender_addr)
    set_item "property_key" (text t.property_key)
    set_item "amount" (text t.transaction_params)
    set_item "block" (text (hash_to_json_string t.tx_digest))
    append_item

  -- The loop of `account_pending`: `num++ >= count` ends it.
  unfoldable pub pending_loop : ℤ → List Tx → ℕ → Rpc (Unit {0})
  pending_loop count [] num = done_unit
  pending_loop count (t ∷ receive_list) num =
      let rest = pending_loop count receive_list in
      do
        num' ← lift (next_num num)
        if leb_ℤ count (pos num) then done_unit else do pending_item t; rest num'

  unfoldable pub account_pending : Rpc (Unit {0})
  account_pending = do
    account ← root_string "account"
    count ← root_int "count"
    receive_list ← query (λ store. E.get_receive_blocks store account)
    set_result_ok
    pending_loop count receive_list 0
    blocks ← gets (λ s. s.array_obj)
    set_rsp "blocks" blocks
    set_rsp "count" (text (to_string (length receive_list)))

  unfoldable pub online_item : Tx → Rpc (Unit {0})
  online_item t = do
    set_item "sender" (text t.sender_addr)
    set_item "receiver" (text t.receiver_addr)
    set_item "property_key" (text t.property_key)
    set_item "amount" (text t.transaction_params)
    set_item "timestamp" (text (to_string t.timestamp))
    set_item "last_digest" (text (hash_to_json_string t.last_msg_digest))
    set_item "tx_digest" (text (hash_to_json_string t.tx_digest))
    set_item "rpc_time" (text (to_string t.edge_timestamp))
    append_item

  -- The loop of `query_online_tx`.
  unfoldable pub online_loop : ℤ → ℤ → List Tx → ℕ → Rpc (Unit {0})
  online_loop start_num end_num [] num = done_unit
  online_loop start_num end_num (t ∷ tx_list) num =
      let rest = online_loop start_num end_num tx_list in
      do
        if in_page start_num end_num num then online_item t else done_unit
        num' ← lift (next_num num)
        rest num'

  unfoldable pub query_online_tx : Rpc (Unit {0})
  query_online_tx = do
    count ← root_int "count"
    per_page ← root_int "per_page"
    start_num ← lift (int_mul count per_page)
    count' ← lift (int_add count (pos 1))
    end_num ← lift (int_mul count' per_page)
    found ← query E.query_online_tx
    when_found found (fail xrpc_server_unkown_err) λ tx_list. do
      online_loop start_num end_num tx_list 0
      blocks ← gets (λ s. s.array_obj)
      set_rsp "blocks" blocks
      set_rsp "count" (text (to_string (length tx_list)))
      set_result_ok
