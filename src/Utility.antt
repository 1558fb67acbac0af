-- ===== src/Utility.antt =====
-- common/xrpc_utility.cpp: how the transactions are built, and the text forms of hashes.
mod Print
pub mod Hex
unfoldable pub use Print.{hex_text, hex_print, hash_print}
use xrpcserver.Prelude.{
  ℕ, ◌+◌, ◌*◌, ◌/◌, ◌%◌, ◌^◌, String, Outcome, or_undefined, to_uint64, is_empty, if◌then◌else◌,
}
use xrpcserver.Env.{Env}
use xrpcserver.Rpc.{Json, Tx, Rpc, ◌>>=◌, ◌>>◌, lift, read_clock, string_in, int64_in, set_tx}

module _ ⦃E : Env⦄ where
  unfoldable pub transaction_make_account_create : String → String → ℕ → Tx → Tx
  transaction_make_account_create account amount timestamp tx =
      let tx' : Tx = record tx {
        transaction_type = E.type_create_account;
        sender_addr = account;
        receiver_addr = account;
        property_key = "$$";
        transaction_params = if is_empty amount then "0" else amount;
        timestamp = timestamp;
        last_msg_digest = E.zero_hash;
        random_nounce = 0;
        work_proof = 0;
      } in
      record tx' { tx_digest = E.sha256 tx' }

  unfoldable pub transaction_make_transfer_out :
      String → String → String → String → ℕ → E.Hash → Tx → Tx
  transaction_make_transfer_out src dst property_key amount timestamp last_hash tx =
      let tx' : Tx = record tx {
        transaction_type = E.type_transfer_asset_out;
        sender_addr = src;
        receiver_addr = dst;
        property_key = property_key;
        transaction_params = amount;
        timestamp = timestamp;
        last_msg_digest = last_hash;
        random_nounce = 0;
        work_proof = 0;
      } in
      record tx' { tx_digest = E.sha256 tx' }

  unfoldable pub transaction_make_transfer_in : String → ℕ → E.Hash → E.Hash → Tx → Tx
  transaction_make_transfer_in account timestamp tx_hash last_hash tx =
      let tx' : Tx = record tx {
        transaction_type = E.type_transfer_asset_in;
        sender_addr = account;
        receiver_addr = account;
        property_key = "";
        transaction_params = E.hash_bytes tx_hash;
        timestamp = timestamp;
        last_msg_digest = last_hash;
        random_nounce = 0;
        work_proof = 0;
      } in
      record tx' { tx_digest = E.sha256 tx' }

  -- The transaction is the handler's; the members are written as they are read.
  unfoldable pub transaction_set_property : Json → E.Hash → Rpc (Unit {0})
  transaction_set_property tx_json last_hash = do
    set_tx (λ tx. record tx { transaction_type = E.type_data_property_operation })
    sender ← lift (string_in tx_json "account")
    set_tx (λ tx. record tx { sender_addr = sender })
    receiver ← lift (string_in tx_json "account")
    set_tx (λ tx. record tx { receiver_addr = receiver })
    key ← lift (string_in tx_json "property_key")
    set_tx (λ tx. record tx { property_key = key })
    params ← lift (string_in tx_json "property_value")
    set_tx (λ tx. record tx { transaction_params = params })
    timestamp ← lift (int64_in tx_json "timestamp")
    set_tx (λ tx. record tx {
      timestamp = to_uint64 timestamp;
      last_msg_digest = last_hash;
      random_nounce = 0;
      work_proof = 0;
    })
    set_tx (λ tx. record tx { tx_digest = E.sha256 tx })

  unfoldable pub transaction_hash_to_signature : E.Key → Tx → Tx
  transaction_hash_to_signature pri_key_obj tx = E.sign_calc pri_key_obj tx

  unfoldable pub hash_to_json_string : E.Hash → String
  hash_to_json_string hash = E.base64_encode (E.hash_bytes hash)

  unfoldable pub json_string_to_hash : String → Outcome E.Hash
  json_string_to_hash hash = or_undefined (E.hash_of (E.base64_decode hash))

  unfoldable pub signature_to_json_string : String → String
  signature_to_json_string signature = E.base64_encode signature

  unfoldable pub json_string_to_signature : String → String
  json_string_to_signature signature = E.base64_decode signature

  unfoldable pub get_timestamp : Rpc ℕ
  get_timestamp = read_clock (λ n. (E.timeofday n).0 % 2 ^ 64)

  -- The milliseconds at a reading of the clock; in C++ the sum is one of a signed 64-bit type.
  abbrev pub clock_ms : ℕ → ℕ
  clock_ms n = ((E.timeofday n).0 * 1000 + (E.timeofday n).1 / 1000) % 2 ^ 64

  unfoldable pub get_timestamp_ms : Rpc ℕ
  get_timestamp_ms = read_clock clock_ms
