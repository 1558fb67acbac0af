-- ===== src/Handler/Response.antt =====
-- xrpc_handler.cpp: the fields that every response has.
use xrpcserver.Prelude.{String, ℤ, pos, if◌then◌else◌}
use xrpcserver.Base.{XrpcReturnEn, value, xrpc_server_unkown_err, xrpc_return_str}
use xrpcserver.Env.{Env}
use xrpcserver.Rpc.{Json, Rpc, ◌>>=◌, ◌>>◌, lift, gets, done_unit, set_rsp}

module _ ⦃E : Env⦄ where
  unfoldable pub set_result_ok : Rpc (Unit {0})
  unfolding set_rsp
  set_result_ok = set_rsp "Result" (E.of_int (pos 1))

  unfoldable pub set_result_fail : ℤ → Rpc (Unit {0})
  unfolding set_rsp
  set_result_fail err = do
    set_rsp "Result" (E.of_int (pos 0))
    set_rsp "ErrCode" (E.of_int err)
    name ← lift (xrpc_return_str err)
    set_rsp "Reason" (E.of_string name)

  -- The call with an enumerator, which C++ converts to its value.
  abbrev pub fail : XrpcReturnEn → Rpc (Unit {0})
  fail e = set_result_fail (value e)

  unfoldable pub get_response : Rpc String
  unfolding set_result_fail
  get_response = do
    blank ← gets (λ s. E.empty s.rsp)
    if blank then fail xrpc_server_unkown_err else done_unit
    gets (λ s. E.to_styled_string s.rsp)

  unfoldable pub get_response_ex : Rpc Json
  get_response_ex = gets (λ s. s.rsp)
