-- ===== src/Tests/Requests.antt =====
-- Whole requests and the steps of the handler, on the small node of `Demo`.
use xrpcserver.Prelude.{
  ℕ, List, String, [], ◌≡◌, ◌⊎◌, ◌↔◌, ◌≢◌, refl, true, false, done, undefined, pos, codes, stoll,
  to_string, negsuc, some, none, inr, arith,
}
use xrpcserver.Base.{XrpcReturnEn, value, xrpc_return_str, xrpc_server_action_invalid}
use xrpcserver.Base.Codes.{xrpc_return_str_iff}
use xrpcserver.Rpc.{State, World, string_in, int64_in, ◌>>=◌, set_rsp}
use xrpcserver.Utility.{
  transaction_make_transfer_out, json_string_to_hash, json_string_to_signature,
}
use xrpcserver.Demo.{
  Value, get, text, int, obj, no_fields, field, DemoStore, demo, demo_json_laws, demo_chain_laws,
}
use xrpcserver.Handler.{
  test_genesis_account_address, account_balance, transfer_out, give, accept, set_result_ok,
  last_digest_set, tx_digest_signature_set, is_bad_key, no_hash, transaction_digest_add,
  handle_request, run, blank, action_of, check_funds,
}
use xrpcserver.Handler.Effects.{IsUntouched, handle_request-IsUntouched, handle_request-MaySubmit}
use xrpcserver.Handler.Quiet.{IsQuiet, MaySubmit, IsSubmitted}
use xrpcserver.Handler.Answers.{Result}
use xrpcserver.Handler.Truth.{IsTruthful, handle_request-IsTruthful, handle_request-Answered}
use xrpcserver.Handler.Funds.{IsPaid, transfer_out-IsPaid}
use xrpcserver.Handler.Verdict.{IsFunded}
use xrpcserver.Handler.Payment.{Asks, payment_of, transfer_out-Result, check_funds-negative}
use xrpcserver.Handler.Refusals.{serve-invalid}
use xrpcserver.Handler.Serve.{serve}
use xrpcserver.Handler.Gift.{IsNew, give-IsNew}
use xrpcserver.Handler.Keys.{
  IsPropertyKey, is_bad_key_iff, built_in, key_in, transaction_digest_add-eq-no_hash,
}

abbrev node_store : DemoStore
node_store = record { balance = "500"; settle = []; receive = []; known = true; last_hash = 7 }

abbrev demo_world : World ⦃E = demo⦄
demo_world = record { store = node_store; sent = []; ticks = 0 }

-- A request with these members.
abbrev pub asking : Value → State ⦃E = demo⦄
asking root = record (blank ⦃E = demo⦄ demo_world) { root = root }

abbrev balance_request : Value
balance_request = obj (
    field "action" (text "account_balance")
      (field "account" (text "bob") (field "property_key" (text "$$") no_fields)))

-- A payment by Ann of an amount.
abbrev pub payment : String → Value
payment amount = obj (
    field "action" (text "transfer_out") (
      field "source" (text "ann") (
        field "destination" (text "bob") (
          field "property_key" (text "$$") (
            field "amount" (text amount) (
              field "timestamp" (int (pos 5))
                (field "last_digest" (text "d") (field "signature" (text "good") no_fields))))))))

request_run : Unit {0}
unfolding handle_request action_of string_in int64_in run transfer_out account_balance ◌>>=◌ set_rsp
    set_result_ok last_digest_set tx_digest_signature_set stoll transaction_make_transfer_out accept
request_run = tt

payment_ends : (handle_request ⦃E = demo⦄ (asking (payment "20"))).0 ≡ done tt
unfolding request_run
payment_ends = refl

balance_ends : (handle_request ⦃E = demo⦄ (asking balance_request)).0 ≡ done tt
unfolding request_run
balance_ends = refl

handle_request-IsUntouched_example :
    IsUntouched ⦃E = demo⦄
      (asking balance_request)
      (handle_request ⦃E = demo⦄ (asking balance_request)).1
unfolding request_run
handle_request-IsUntouched_example =
    handle_request-IsUntouched ⦃E = demo⦄ (asking balance_request) "account_balance" refl refl

handle_request-MaySubmit_example :
    MaySubmit ⦃E = demo⦄ demo_world (handle_request ⦃E = demo⦄ (asking (payment "20"))).1
unfolding request_run
handle_request-MaySubmit_example =
    handle_request-MaySubmit ⦃E = demo⦄ (asking (payment "20")) "transfer_out" refl refl

handle_request-IsTruthful_example :
    IsTruthful ⦃E = demo⦄ demo_world (handle_request ⦃E = demo⦄ (asking (payment "20"))).1
unfolding request_run
handle_request-IsTruthful_example =
    handle_request-IsTruthful ⦃E = demo⦄ demo_json_laws (asking (payment "20")) "transfer_out" refl
      refl payment_ends

handle_request-Answered_example :
    Result ⦃E = demo⦄ 0 (handle_request ⦃E = demo⦄ (asking balance_request)).1
    ⊎ Result ⦃E = demo⦄ 1 (handle_request ⦃E = demo⦄ (asking balance_request)).1
unfolding request_run
handle_request-Answered_example =
    handle_request-Answered ⦃E = demo⦄ demo_json_laws (asking balance_request) "account_balance"
      refl refl balance_ends

transfer_out-IsPaid_example :
    IsQuiet ⦃E = demo⦄ demo_world (transfer_out ⦃E = demo⦄ false (asking (payment "20"))).1
    ⊎ IsPaid ⦃E = demo⦄
        (asking (payment "20"))
        (transfer_out ⦃E = demo⦄ false (asking (payment "20"))).1
transfer_out-IsPaid_example =
    transfer_out-IsPaid ⦃E = demo⦄ demo_chain_laws false (asking (payment "20"))

abbrev gift_request : Value
gift_request = obj (field "destination" (text "bob") (field "timestamp" (int (pos 5)) no_fields))

give-IsNew_example :
    IsQuiet ⦃E = demo⦄ demo_world (give ⦃E = demo⦄ (asking gift_request)).1
    ⊎ ((dst : String) × (string_in ⦃E = demo⦄ gift_request "destination" ≡ done dst)
        × IsSubmitted ⦃E = demo⦄ demo_world (give ⦃E = demo⦄ (asking gift_request)).1
        × IsNew ⦃E = demo⦄ node_store dst)
give-IsNew_example = give-IsNew ⦃E = demo⦄ (asking gift_request)

is_bad_key_iff_example : (is_bad_key "@name" ≡ false) ↔ IsPropertyKey (codes "@name")
is_bad_key_iff_example = is_bad_key_iff "@name"

-- The handler's transaction is the genesis account's.
abbrev owned : State ⦃E = demo⦄
owned = record (asking balance_request) {
  tx = record (asking balance_request).tx { sender_addr = test_genesis_account_address };
}

transaction_digest_add-eq-no_hash_example :
    ((key : List ℕ) × (key_in test_genesis_account_address built_in ≡ some key)
      × (no_hash test_genesis_account_address ≡ true)
      × (transaction_digest_add ⦃E = demo⦄ owned
          ≡ (done true, record owned { tx = record owned.tx { tx_signature = "good" } })))
    ⊎ ((key_in test_genesis_account_address built_in ≡ none)
        × (no_hash test_genesis_account_address ≡ false)
        × (transaction_digest_add ⦃E = demo⦄ owned ≡ (done false, owned)))
transaction_digest_add-eq-no_hash_example = transaction_digest_add-eq-no_hash ⦃E = demo⦄ owned

xrpc_return_str_iff_example :
    (xrpc_return_str (pos 17) ≢ undefined) ↔ ((e : XrpcReturnEn) × (value e ≡ pos 17))
xrpc_return_str_iff_example = xrpc_return_str_iff (pos 17)

-- Texts as numbers, and back.
text_numbers :
    (stoll " -42x" ≡ some (negsuc 41))
    × (stoll "x" ≡ none)
    × (stoll "9223372036854775808" ≡ none)
    × (to_string 18446744073709551615 ≡ "18446744073709551615")
    × (to_string 0 ≡ "0")
unfolding stoll to_string
text_numbers = (refl, refl, refl, refl, refl)

-- The members of Ann's payment.
abbrev payment_members : Asks ⦃E = demo⦄ (asking (payment "20"))
unfolding string_in int64_in json_string_to_hash
payment_members = record {
  src = "ann";
  dst = "bob";
  asset = "$$";
  amount = "20";
  timestamp = pos 5;
  digest = "d";
  last_hash = 7;
  signature = "good";
  source = refl;
  destination = refl;
  property_key = refl;
  amount_member = refl;
  timestamp_member = refl;
  last_digest_member = refl;
  hash_reads = refl;
  signature_member = refl;
}

ann_funds : IsFunded ⦃E = demo⦄ node_store "ann" "$$" "20"
unfolding stoll
ann_funds = record {
  funds = pos 500;
  wanted = pos 20;
  exists = refl;
  has_asset = refl;
  balance_reads = refl;
  amount_reads = refl;
  enough = omega arith;
}

transfer_out-Result_example :
    ((transfer_out ⦃E = demo⦄ false (asking (payment "20"))).0 ≡ done tt)
    × IsSubmitted ⦃E = demo⦄ demo_world (transfer_out ⦃E = demo⦄ false (asking (payment "20"))).1
    × Result ⦃E = demo⦄ 1 (transfer_out ⦃E = demo⦄ false (asking (payment "20"))).1
    × ((transfer_out ⦃E = demo⦄ false (asking (payment "20"))).1.tx
        ≡ payment_of ⦃E = demo⦄ (asking (payment "20")) payment_members)
unfolding string_in int64_in json_string_to_hash json_string_to_signature
    transaction_make_transfer_out
transfer_out-Result_example =
    transfer_out-Result ⦃E = demo⦄ demo_json_laws (asking (payment "20")) payment_members refl refl
      refl ann_funds (inr (7, refl, refl))

-- A payment of -5 by Ann, completed.
abbrev owing : State ⦃E = demo⦄
owing = record (asking (payment "-5")) {
  tx =
      transaction_make_transfer_out ⦃E = demo⦄ "ann" "bob" "$$" "-5" 5 7 (asking (payment "-5")).tx;
}

check_funds-negative_example :
    check_funds ⦃E = demo⦄ "ann" "$$" "-5" owing ≡ accept ⦃E = demo⦄ owing
unfolding stoll transaction_make_transfer_out
check_funds-negative_example =
    check_funds-negative ⦃E = demo⦄ owing "ann" "$$" "-5" 500 4 refl refl refl refl
      (inr (7, refl, refl))

serve-invalid_example :
    (v : Value) × (serve ⦃E = demo⦄ "bad" demo_world ≡ (done "styled", demo_world))
    × (get v "Result" ≡ int (pos 0))
    × (get v "ErrCode" ≡ int (value xrpc_server_action_invalid))
    × (get v "Reason" ≡ text "xrpc_server_action_invalid")
unfolding string_in action_of
serve-invalid_example =
    serve-invalid ⦃E = demo⦄ demo_json_laws "bad" demo_world "" "" refl refl refl
