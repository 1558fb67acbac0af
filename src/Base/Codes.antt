-- ===== src/Base/Codes.antt =====
-- The return codes and the array of their names fit together.
use xrpcserver.Prelude.{
  ℕ, zero, suc, String, ◌≡◌, ◌≢◌, ◌↔◌, refl, subst, ℤ, pos, negsuc, done, undefined, get_elem?,
  or_undefined,
}
use xrpcserver.Base.{
  XrpcReturnEn, xrpc_ok, xrpc_server_json_parse_err, xrpc_server_action_invalid,
  xrpc_server_account_not_found, xrpc_server_hash_signature_check_fail,
  xrpc_server_account_balance_not_enough, xrpc_server_unkown_err, xrpc_client_json_parse_err,
  xrpc_client_unkown_err, xrpc_call_err, xrpc_no_pending, xrpc_no_property_key, xrpc_no_stat_info,
  xrpc_property_key_not_valid, xrpc_server_account_exist, xrpc_already_give, xrpc_last_hash_error,
  xrpc_sender_receiver_the_same, value, names, xrpc_return_str,
}

-- The spelling of an enumerator.
abbrev pub spelling : XrpcReturnEn → String
spelling xrpc_ok = "xrpc_ok"
spelling xrpc_server_json_parse_err = "xrpc_server_json_parse_err"
spelling xrpc_server_action_invalid = "xrpc_server_action_invalid"
spelling xrpc_server_account_not_found = "xrpc_server_account_not_found"
spelling xrpc_server_hash_signature_check_fail = "xrpc_server_hash_signature_check_fail"
spelling xrpc_server_account_balance_not_enough = "xrpc_server_account_balance_not_enough"
spelling xrpc_server_unkown_err = "xrpc_server_unkown_err"
spelling xrpc_client_json_parse_err = "xrpc_client_json_parse_err"
spelling xrpc_client_unkown_err = "xrpc_client_unkown_err"
spelling xrpc_call_err = "xrpc_call_err"
spelling xrpc_no_pending = "xrpc_no_pending"
spelling xrpc_no_property_key = "xrpc_no_property_key"
spelling xrpc_no_stat_info = "xrpc_no_stat_info"
spelling xrpc_property_key_not_valid = "xrpc_property_key_not_valid"
spelling xrpc_server_account_exist = "xrpc_server_account_exist"
spelling xrpc_already_give = "xrpc_already_give"
spelling xrpc_last_hash_error = "xrpc_last_hash_error"
spelling xrpc_sender_receiver_the_same = "xrpc_sender_receiver_the_same"

-- An enumerator's name is its spelling: the array has the names in the order of the enumerators.
pub xrpc_return_str-value : (e : XrpcReturnEn) → xrpc_return_str (value e) ≡ done (spelling e)
unfolding xrpc_return_str
xrpc_return_str-value xrpc_ok = refl
xrpc_return_str-value _ = refl

found :
    (n : ℕ) → or_undefined (get_elem? names n) ≢ undefined → (e : XrpcReturnEn) × (value e ≡ pos n)
found zero h = (xrpc_ok, refl)
found (suc zero) h = (xrpc_server_json_parse_err, refl)
found (suc (suc zero)) h = (xrpc_server_action_invalid, refl)
found (suc (suc (suc zero))) h = (xrpc_server_account_not_found, refl)
found (suc (suc (suc (suc zero)))) h = (xrpc_server_hash_signature_check_fail, refl)
found (suc (suc (suc (suc (suc zero))))) h = (xrpc_server_account_balance_not_enough, refl)
found (suc (suc (suc (suc (suc (suc zero)))))) h = (xrpc_server_unkown_err, refl)
found (suc (suc (suc (suc (suc (suc (suc zero))))))) h = (xrpc_client_json_parse_err, refl)
found (suc (suc (suc (suc (suc (suc (suc (suc zero)))))))) h = (xrpc_client_unkown_err, refl)
found (suc (suc (suc (suc (suc (suc (suc (suc (suc zero))))))))) h = (xrpc_call_err, refl)
found (suc (suc (suc (suc (suc (suc (suc (suc (suc (suc zero)))))))))) h = (xrpc_no_pending, refl)
found (suc (suc (suc (suc (suc (suc (suc (suc (suc (suc (suc zero))))))))))) h =
    (xrpc_no_property_key, refl)
found (suc (suc (suc (suc (suc (suc (suc (suc (suc (suc (suc (suc zero)))))))))))) h =
    (xrpc_no_stat_info, refl)
found (suc (suc (suc (suc (suc (suc (suc (suc (suc (suc (suc (suc (suc zero))))))))))))) h =
    (xrpc_property_key_not_valid, refl)
found (suc (suc (suc (suc (suc (suc (suc (suc (suc (suc (suc (suc (suc (suc zero)))))))))))))) h =
    (xrpc_server_account_exist, refl)
found (suc (suc (suc (suc (suc (suc (suc (suc (suc (suc (suc (suc (suc (suc (suc zero)))))))))))))))
      h =
    (xrpc_already_give, refl)
found
      (suc (
        suc
          (suc (suc (suc (suc (suc (suc (suc (suc (suc (suc (suc (suc (suc (suc zero))))))))))))))))
      h =
    (xrpc_last_hash_error, refl)
found
      (suc (
        suc (
          suc (
            suc
              (suc (suc (suc (suc (suc (suc (suc (suc (suc (suc (suc (suc (suc zero)))))))))))))))))
      h =
    (xrpc_sender_receiver_the_same, refl)
found
      (suc (
        suc (
          suc (
            suc (
              suc
                (suc (suc (suc (suc (suc (suc (suc (suc (suc (suc (suc (suc (suc n))))))))))))))))))
      h =
    absurd (h refl)

named : (c : ℤ) → (e : XrpcReturnEn) × (value e ≡ c) → xrpc_return_str c ≢ undefined
named c (e, p) =
    subst (λ (x : ℤ). xrpc_return_str x ≢ undefined) p (λ q. cc (xrpc_return_str-value e, q))

known : (c : ℤ) → xrpc_return_str c ≢ undefined → (e : XrpcReturnEn) × (value e ≡ c)
unfolding xrpc_return_str
known (pos n) h = found n h
known (negsuc n) h = absurd (h refl)

-- `xrpc_return_str` has a result exactly at the values of the enumerators.
pub xrpc_return_str_iff :
    (c : ℤ) → (xrpc_return_str c ≢ undefined) ↔ ((e : XrpcReturnEn) × (value e ≡ c))
xrpc_return_str_iff c = (known c, named c)
