-- ===== src/Handler/Frame.antt =====
-- The methods that only answer: they write the response, its array and its item, and keep whatever
-- does not speak of these.
use xrpcserver.Prelude.{String, List, [], ◌∷◌, ℤ, ℕ, Bool, arith}
use xrpcserver.Env.{Env}
use xrpcserver.Rpc.{Json, Tx, State, set_rsp, set_item, append_item, set_rsp_value}
use xrpcserver.Rpc.Leads.{Preserves, Preserves-bind, preserves_rules}
use xrpcserver.Handler.Response.{set_result_ok, set_result_fail, get_response}
use xrpcserver.Handler.Query.{
  account_balance, account_info, last_digest, query_tps, query_property, write_properties,
  query_all_property,
}
use xrpcserver.Handler.History.{
  UserTag, set_tag, set_property_value, history_amount, history_item, history_loop, account_history,
  pending_item, pending_loop, account_pending, online_item, online_loop, query_online_tx,
}
use xrpcserver.Handler.Submit.{last_digest_set}
use xrpcserver.Handler.Transfer.{check_input, is_stale}

module _ ⦃E : Env⦄ where
  -- `P` does not speak of the array and the item, and `set_result_ok` keeps it.
  pub record IsItemFrame (P : State → Type 0) : Type 0 where
    pub at :
        (s : State) (array_obj item : Json)
        → P s
        → P (record s { array_obj = array_obj; item = item })
    pub ok : Preserves P set_result_ok

  module _ {P : State → Type 0} (items : IsItemFrame P) where
    set_item-Preserves : (k : String) (x : Json) → Preserves P (set_item k x)
    unfolding set_item
    set_item-Preserves k x = record {
      at = λ s h. ground (arith, items.at s s.array_obj (E.put s.item k x) h);
    }

    append_item-Preserves : Preserves P append_item
    unfolding append_item
    append_item-Preserves = record {
      at = λ s h. ground (arith, items.at s (E.append s.array_obj s.item) s.item h);
    }

    item_ok : Preserves P set_result_ok
    item_ok = items.ok

    ruleset item_rules = (preserves_rules, set_item-Preserves, append_item-Preserves, item_ok)

    set_tag-Preserves : (key tag_key : String) (m : UserTag) → Preserves P (set_tag key tag_key m)
    unfolding set_tag
    set_tag-Preserves key tag_key m = search item_rules depth 20

    set_property_value-Preserves : (m : UserTag) → Preserves P (set_property_value m)
    unfolding set_property_value
    set_property_value-Preserves m = search (item_rules, set_tag-Preserves) depth 20

    history_amount-Preserves : (t : Tx) → Preserves P (history_amount t)
    unfolding history_amount
    history_amount-Preserves t = search item_rules depth 20

    history_item-Preserves : (t : Tx) (m : UserTag) → Preserves P (history_item t m)
    unfolding history_item
    history_item-Preserves t m =
        search (item_rules, set_property_value-Preserves, history_amount-Preserves) depth 40

    pub history_loop-Preserves :
        (a b : ℤ) (l : List Tx) (n : ℕ) (m : UserTag) → Preserves P (history_loop a b l n m)
    unfolding history_loop
    history_loop-Preserves a b [] n m = search item_rules
    history_loop-Preserves a b (t ∷ l) n m =
        search (item_rules, history_item-Preserves, history_loop-Preserves a b l) depth 20

    pending_item-Preserves : (t : Tx) → Preserves P (pending_item t)
    unfolding pending_item
    pending_item-Preserves t = search item_rules depth 20

    pub pending_loop-Preserves : (c : ℤ) (l : List Tx) (n : ℕ) → Preserves P (pending_loop c l n)
    unfolding pending_loop
    pending_loop-Preserves c [] n = search item_rules
    pending_loop-Preserves c (t ∷ l) n =
        search (item_rules, pending_item-Preserves, pending_loop-Preserves c l) depth 20

    online_item-Preserves : (t : Tx) → Preserves P (online_item t)
    unfolding online_item
    online_item-Preserves t = search item_rules depth 30

    pub online_loop-Preserves : (a b : ℤ) (l : List Tx) (n : ℕ) → Preserves P (online_loop a b l n)
    unfolding online_loop
    online_loop-Preserves a b [] n = search item_rules
    online_loop-Preserves a b (t ∷ l) n =
        search (item_rules, online_item-Preserves, online_loop-Preserves a b l) depth 20

  -- `P` does not speak of the response, of its array and of its item.
  pub record IsFrame (P : State → Type 0) : Type 0 where
    pub at :
        (s : State) (rsp array_obj item : Json)
        → P s
        → P (record s { rsp = rsp; array_obj = array_obj; item = item })

  module _ {P : State → Type 0} (frame : IsFrame P) where
    pub set_rsp-Preserves : (k : String) (x : Json) → Preserves P (set_rsp k x)
    unfolding set_rsp
    set_rsp-Preserves k x = record {
      at = λ s h. ground (arith, frame.at s (E.put s.rsp k x) s.array_obj s.item h);
    }

    pub set_rsp_value-Preserves : (v : Json) → Preserves P (set_rsp_value v)
    unfolding set_rsp_value
    set_rsp_value-Preserves v = record { at = λ s h. frame.at s v s.array_obj s.item h }

    ruleset writes = (preserves_rules, set_rsp-Preserves, set_rsp_value-Preserves)

    pub set_result_ok-Preserves : Preserves P set_result_ok
    unfolding set_result_ok
    set_result_ok-Preserves = set_rsp-Preserves _ _

    pub set_result_fail-Preserves : (e : ℤ) → Preserves P (set_result_fail e)
    unfolding set_result_fail
    set_result_fail-Preserves e = search writes depth 12

    frame_items : IsItemFrame P
    frame_items = record {
      at = λ s array_obj item h. frame.at s s.rsp array_obj item h;
      ok = set_result_ok-Preserves;
    }

    ruleset answers = (writes, set_result_ok-Preserves, set_result_fail-Preserves)

    pub get_response-Preserves : Preserves P get_response
    unfolding get_response
    get_response-Preserves = search answers depth 12

    pub account_balance-Preserves : Preserves P account_balance
    unfolding account_balance
    account_balance-Preserves = search answers depth 20

    pub account_info-Preserves : Preserves P account_info
    unfolding account_info
    account_info-Preserves = search answers depth 40

    pub last_digest-Preserves : Preserves P last_digest
    unfolding last_digest
    last_digest-Preserves = search answers depth 20

    pub query_tps-Preserves : Preserves P query_tps
    unfolding query_tps
    query_tps-Preserves = search answers depth 20

    pub query_property-Preserves : Preserves P query_property
    unfolding query_property
    query_property-Preserves = search answers depth 20

    write_properties-Preserves : (l : List (String × String)) → Preserves P (write_properties l)
    unfolding write_properties
    write_properties-Preserves [] = search answers
    write_properties-Preserves ((k, v) ∷ l) =
        Preserves-bind _ _ (set_rsp-Preserves k _) (λ _. write_properties-Preserves l)

    pub query_all_property-Preserves : Preserves P query_all_property
    unfolding query_all_property
    query_all_property-Preserves = search (answers, write_properties-Preserves) depth 20

    pub account_history-Preserves : Preserves P account_history
    unfolding account_history
    account_history-Preserves = search (answers, history_loop-Preserves, frame_items) depth 40

    pub account_pending-Preserves : Preserves P account_pending
    unfolding account_pending
    account_pending-Preserves = search (answers, pending_loop-Preserves, frame_items) depth 30

    pub query_online_tx-Preserves : Preserves P query_online_tx
    unfolding query_online_tx
    query_online_tx-Preserves = search (answers, online_loop-Preserves, frame_items) depth 40

    pub last_digest_set-Preserves :
        (nohash : Bool) (a : String) → Preserves P (last_digest_set nohash a)
    unfolding last_digest_set
    last_digest_set-Preserves nohash a = search answers depth 20

    pub check_input-Preserves : Preserves P check_input
    unfolding check_input
    check_input-Preserves = search answers depth 30

    pub is_stale-Preserves : (a : String) → Preserves P (is_stale a)
    unfolding is_stale
    is_stale-Preserves a = search answers depth 20

  pub ruleset frame_rules = (
    preserves_rules, set_rsp-Preserves, set_result_ok-Preserves, set_result_fail-Preserves,
    last_digest_set-Preserves, check_input-Preserves, is_stale-Preserves,
  )
