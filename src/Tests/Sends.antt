-- ===== src/Tests/Sends.antt =====
-- Signed requests that are sent, on the small node of `Demo`.
use xrpcserver.Prelude.{false, find_first_of, ◌≡◌, refl, inl, pos, done}
use xrpcserver.Rpc.{State, string_in, int64_in, c_string_in}
use xrpcserver.Utility.{
  json_string_to_hash, json_string_to_signature, transaction_make_account_create,
  transaction_make_transfer_in,
}
use xrpcserver.Demo.{text, int, obj, no_fields, field, demo, demo_json_laws}
use xrpcserver.Handler.{account_create, set_property, transfer_in, blank}
use xrpcserver.Handler.{is_bad_key}
use xrpcserver.Handler.Keys.{is_bad_key_iff}
use xrpcserver.Handler.Quiet.{IsSubmitted}
use xrpcserver.Handler.Answers.{Result}
use xrpcserver.Handler.Sending.{
  AsksCreate, creation_of, account_create-Result, AsksSet, setting_of, set_property-Result, AsksIn,
  receipt_of, transfer_in-Result,
}
use xrpcserver.Tests.Checks.{node_world, signed}

abbrev creation_members : AsksCreate ⦃E = demo⦄ (signed "account_create")
unfolding string_in int64_in
creation_members = record {
  account = "ann";
  amount = "";
  timestamp = pos 5;
  signature = "good";
  action = refl;
  account_member = refl;
  amount_member = refl;
  timestamp_member = refl;
  signature_member = refl;
}

account_create-Result_example :
    ((account_create ⦃E = demo⦄ false (signed "account_create")).0 ≡ done tt)
    × IsSubmitted ⦃E = demo⦄ node_world
        (account_create ⦃E = demo⦄ false (signed "account_create")).1
    × Result ⦃E = demo⦄ 1 (account_create ⦃E = demo⦄ false (signed "account_create")).1
    × ((account_create ⦃E = demo⦄ false (signed "account_create")).1.tx
        ≡ creation_of ⦃E = demo⦄ (signed "account_create") creation_members)
unfolding string_in int64_in json_string_to_signature transaction_make_account_create
account_create-Result_example =
    account_create-Result ⦃E = demo⦄ demo_json_laws (signed "account_create") creation_members refl
      refl refl

abbrev setting_members : AsksSet ⦃E = demo⦄ (signed "set_property")
unfolding string_in int64_in c_string_in json_string_to_hash
setting_members = record {
  account = "ann";
  key = "@name";
  params = "Ann";
  timestamp = pos 5;
  digest = "d";
  last_hash = 7;
  signature = "good";
  action = refl;
  account_member = refl;
  account_c_string = refl;
  key_member = refl;
  value_member = refl;
  timestamp_member = refl;
  last_digest_member = refl;
  hash_reads = refl;
  signature_member = refl;
}

set_property-Result_example :
    ((set_property ⦃E = demo⦄ false (signed "set_property")).0 ≡ done tt)
    × IsSubmitted ⦃E = demo⦄ node_world (set_property ⦃E = demo⦄ false (signed "set_property")).1
    × Result ⦃E = demo⦄ 1 (set_property ⦃E = demo⦄ false (signed "set_property")).1
    × ((set_property ⦃E = demo⦄ false (signed "set_property")).1.tx
        ≡ setting_of ⦃E = demo⦄ (signed "set_property") setting_members)
unfolding string_in int64_in c_string_in json_string_to_hash json_string_to_signature is_bad_key
    find_first_of
set_property-Result_example =
    set_property-Result ⦃E = demo⦄ demo_json_laws (signed "set_property") setting_members refl
      ((is_bad_key_iff "@name").0 refl) refl

-- Ann takes in a transfer of 20 by Bob.
abbrev taking : State ⦃E = demo⦄
taking = record (blank ⦃E = demo⦄ node_world) {
  root = obj (
      field "account" (text "ann") (
        field "sender" (text "bob") (
          field "amount" (text "20") (
            field "tx_digest" (text "t") (
              field "timestamp" (int (pos 5))
                (field "last_digest" (text "d") (field "signature" (text "good") no_fields)))))));
}

abbrev receipt_members : AsksIn ⦃E = demo⦄ taking
unfolding string_in int64_in json_string_to_hash
receipt_members = record {
  account = "ann";
  timestamp = pos 5;
  digest = "d";
  last_hash = 7;
  tx_digest = "t";
  tx_hash = 7;
  sender = "bob";
  amount = "20";
  signature = "good";
  account_member = refl;
  timestamp_member = refl;
  last_digest_member = refl;
  hash_reads = refl;
  tx_digest_member = refl;
  tx_hash_reads = refl;
  sender_member = refl;
  amount_member = refl;
  signature_member = refl;
}

transfer_in-Result_example :
    ((transfer_in ⦃E = demo⦄ false taking).0 ≡ done tt)
    × IsSubmitted ⦃E = demo⦄ node_world (transfer_in ⦃E = demo⦄ false taking).1
    × Result ⦃E = demo⦄ 1 (transfer_in ⦃E = demo⦄ false taking).1
    × ((transfer_in ⦃E = demo⦄ false taking).1.tx ≡ receipt_of ⦃E = demo⦄ taking receipt_members)
unfolding string_in int64_in json_string_to_hash json_string_to_signature
    transaction_make_transfer_in
transfer_in-Result_example =
    transfer_in-Result ⦃E = demo⦄ demo_json_laws taking receipt_members refl refl (inl refl)
