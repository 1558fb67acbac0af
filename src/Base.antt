-- ===== src/Base.antt =====
-- common/xrpc_base.hpp: the return codes and their names.
pub mod Codes
use xrpcserver.Prelude.{
  String, List, [], ◌∷◌, ℤ, pos, negsuc, Outcome, undefined, or_undefined, get_elem?,
}

pub data XrpcReturnEn : Type 0 where
  xrpc_ok : XrpcReturnEn
  xrpc_server_json_parse_err : XrpcReturnEn
  xrpc_server_action_invalid : XrpcReturnEn
  xrpc_server_account_not_found : XrpcReturnEn
  xrpc_server_hash_signature_check_fail : XrpcReturnEn
  xrpc_server_account_balance_not_enough : XrpcReturnEn
  xrpc_server_unkown_err : XrpcReturnEn
  xrpc_client_json_parse_err : XrpcReturnEn
  xrpc_client_unkown_err : XrpcReturnEn
  xrpc_call_err : XrpcReturnEn
  xrpc_no_pending : XrpcReturnEn
  xrpc_no_property_key : XrpcReturnEn
  xrpc_no_stat_info : XrpcReturnEn
  xrpc_property_key_not_valid : XrpcReturnEn
  xrpc_server_account_exist : XrpcReturnEn
  xrpc_already_give : XrpcReturnEn
  xrpc_last_hash_error : XrpcReturnEn
  xrpc_sender_receiver_the_same : XrpcReturnEn

-- The value of an enumerator: the first is 0, and each of the others is one more.
abbrev pub value : XrpcReturnEn → ℤ
value xrpc_ok = pos 0
value xrpc_server_json_parse_err = pos 1
value xrpc_server_action_invalid = pos 2
value xrpc_server_account_not_found = pos 3
value xrpc_server_hash_signature_check_fail = pos 4
value xrpc_server_account_balance_not_enough = pos 5
value xrpc_server_unkown_err = pos 6
value xrpc_client_json_parse_err = pos 7
value xrpc_client_unkown_err = pos 8
value xrpc_call_err = pos 9
value xrpc_no_pending = pos 10
value xrpc_no_property_key = pos 11
value xrpc_no_stat_info = pos 12
value xrpc_property_key_not_valid = pos 13
value xrpc_server_account_exist = pos 14
value xrpc_already_give = pos 15
value xrpc_last_hash_error = pos 16
value xrpc_sender_receiver_the_same = pos 17

-- The array `names`.
abbrev pub names : List String
names =
    "xrpc_ok" ∷ "xrpc_server_json_parse_err" ∷ "xrpc_server_action_invalid"
    ∷ "xrpc_server_account_not_found" ∷ "xrpc_server_hash_signature_check_fail"
    ∷ "xrpc_server_account_balance_not_enough" ∷ "xrpc_server_unkown_err"
    ∷ "xrpc_client_json_parse_err" ∷ "xrpc_client_unkown_err" ∷ "xrpc_call_err" ∷ "xrpc_no_pending"
    ∷ "xrpc_no_property_key" ∷ "xrpc_no_stat_info" ∷ "xrpc_property_key_not_valid"
    ∷ "xrpc_server_account_exist" ∷ "xrpc_already_give" ∷ "xrpc_last_hash_error"
    ∷ "xrpc_sender_receiver_the_same" ∷ []

-- `names[code]`; a code outside the array reads past its end.
unfoldable pub xrpc_return_str : ℤ → Outcome String
xrpc_return_str (pos n) = or_undefined (get_elem? names n)
xrpc_return_str (negsuc n) = undefined
