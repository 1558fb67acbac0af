-- ===== src/Tests/Lists.antt =====
-- The requests for lists of transactions, on the small node of `Demo`.
use xrpcserver.Prelude.{Forall2, [], ◌∷◌, ◌≡◌, refl, done, pos, true, to_string, arith}
use xrpcserver.Rpc.{State, string_in, int_in}
use xrpcserver.Demo.{
  Value, get, text, int, obj, no_fields, field, elements, DemoTx, DemoStore, demo, demo_json_laws,
}
use xrpcserver.Handler.Tags.{LeavesOut}
use xrpcserver.Handler.Shown.{IsBlock}
use xrpcserver.Handler.Blocks.{account_history-Shows}
use xrpcserver.Handler.{account_history, account_pending, query_online_tx, blank}
use xrpcserver.Handler.Answers.{Result}
use xrpcserver.Handler.Pending.{IsPending, account_pending-Shows}
use xrpcserver.Handler.Online.{IsOnline}
use xrpcserver.Handler.Page.{query_online_tx-Shows}
use xrpcserver.Utility.{transaction_make_transfer_out}

-- The state of a handler whose root is this value, on a node where three blocks wait.
abbrev asking : DemoStore → Value → State ⦃E = demo⦄
asking store root = record (blank ⦃E = demo⦄ (record { store = store; sent = []; ticks = 0 })) {
  root = root;
}

abbrev no_blocks : DemoStore
no_blocks = record { balance = "500"; settle = []; receive = []; known = true; last_hash = 7 }

unfoldable block : DemoTx
unfolding transaction_make_transfer_out
block =
    transaction_make_transfer_out ⦃E = demo⦄ "ann" "bob" "$$" "20" 5 7
      (asking no_blocks (obj no_fields)).tx

abbrev three_blocks : DemoStore
three_blocks = record no_blocks { receive = block ∷ block ∷ block ∷ [] }

abbrev pending_state : State ⦃E = demo⦄
pending_state =
    asking three_blocks (obj (field "account" (text "bob") (field "count" (int (pos 2)) no_fields)))

account_pending-Shows_example :
    ((account_pending ⦃E = demo⦄ pending_state).0 ≡ done tt)
    × Result ⦃E = demo⦄ 1 (account_pending ⦃E = demo⦄ pending_state).1
    × (get (account_pending ⦃E = demo⦄ pending_state).1.rsp "count" ≡ text (to_string 3))
    × Forall2
        (IsPending ⦃E = demo⦄)
        (block ∷ block ∷ [])
        (elements (get (account_pending ⦃E = demo⦄ pending_state).1.rsp "blocks"))
unfolding string_in int_in
account_pending-Shows_example =
    account_pending-Shows ⦃E = demo⦄ demo_json_laws pending_state "bob" 2 refl refl (omega arith)
      refl refl refl refl

abbrev page_state : State ⦃E = demo⦄
page_state =
    asking (record no_blocks { settle = block ∷ block ∷ block ∷ [] })
      (obj (field "count" (int (pos 1)) (field "per_page" (int (pos 2)) no_fields)))

query_online_tx-Shows_example :
    ((query_online_tx ⦃E = demo⦄ page_state).0 ≡ done tt)
    × Result ⦃E = demo⦄ 1 (query_online_tx ⦃E = demo⦄ page_state).1
    × (get (query_online_tx ⦃E = demo⦄ page_state).1.rsp "count" ≡ text (to_string 3))
    × Forall2
        (IsOnline ⦃E = demo⦄)
        (block ∷ [])
        (elements (get (query_online_tx ⦃E = demo⦄ page_state).1.rsp "blocks"))
unfolding int_in
query_online_tx-Shows_example =
    query_online_tx-Shows ⦃E = demo⦄ demo_json_laws page_state 1 2 (block ∷ block ∷ block ∷ []) refl
      refl refl (omega arith) (omega arith) (omega arith) refl refl refl refl

demo_leaves_out : LeavesOut ⦃E = demo⦄
demo_leaves_out snap key before h = ground arith

abbrev history_state : State ⦃E = demo⦄
history_state =
    asking (record no_blocks { settle = block ∷ block ∷ block ∷ [] })
      (obj (
        field "account" (text "bob")
          (field "count" (int (pos 0)) (field "per_page" (int (pos 2)) no_fields))))

account_history-Shows_example :
    ((account_history ⦃E = demo⦄ history_state).0 ≡ done tt)
    × Result ⦃E = demo⦄ 1 (account_history ⦃E = demo⦄ history_state).1
    × (get (account_history ⦃E = demo⦄ history_state).1.rsp "count" ≡ text (to_string 3))
    × Forall2
        (IsBlock ⦃E = demo⦄ history_state.store)
        (block ∷ block ∷ [])
        (elements (get (account_history ⦃E = demo⦄ history_state).1.rsp "blocks"))
unfolding string_in int_in block
account_history-Shows_example =
    account_history-Shows ⦃E = demo⦄ demo_json_laws history_state "bob" 0 2 refl refl refl
      (omega arith) (omega arith) (omega arith) refl refl refl refl demo_leaves_out
