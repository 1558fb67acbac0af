-- ===== src/Handler/Refusals.antt =====
-- xrpc_handler.cpp: the responses to a request that does not parse, or that has no known action.
use xrpcserver.Prelude.{String, ◌≡◌, refl, Bool-cases, inl, inr, true, false, pos, done}
use xrpcserver.Base.{XrpcReturnEn, value, xrpc_server_json_parse_err, xrpc_server_action_invalid}
use xrpcserver.Base.Codes.{spelling, xrpc_return_str-value}
use xrpcserver.Env.{Env, JsonLaws}
use xrpcserver.Rpc.{Json, State, World, ◌>>=◌, ◌>>◌, string_in, set_rsp}
use xrpcserver.Handler.Response.{set_result_fail, fail, get_response}
use xrpcserver.Handler.Actions.{Action, action_of}
use xrpcserver.Handler.Dispatch.{blank, xrpc_handler, handle_request}
use xrpcserver.Handler.Serve.{answer, serve}

module _ ⦃E : Env⦄ where
  -- The response `v` after `set_result_fail` of an enumerator.
  abbrev pub failed : XrpcReturnEn → Json → Json
  failed e v =
      E.put (E.put (E.put v "Result" (E.of_int (pos 0))) "ErrCode" (E.of_int (value e))) "Reason"
        (E.of_string (spelling e))

  module _ (L : JsonLaws E.json) where
    keyed-failed : (e : XrpcReturnEn) (v : Json) → E.keyed v ≡ true → E.keyed (failed e v) ≡ true
    keyed-failed e v k = L.keyed-put _ _ _ (L.keyed-put _ _ _ (L.keyed-put _ _ _ k))

    -- `set_result_fail` of an enumerator ends normally.
    pub fail_lem :
        (e : XrpcReturnEn) (s : State)
        → E.keyed s.rsp ≡ true
        → fail e s ≡ (done tt, record s { rsp = failed e s.rsp })
    unfolding set_result_fail ◌>>=◌ set_rsp
    fail_lem e s k =
        rw
          (
            k,
            L.keyed-put s.rsp "Result" (E.of_int (pos 0)) k,
            xrpc_return_str-value e,
            L.keyed-put _ "ErrCode" (E.of_int (value e))
                (L.keyed-put s.rsp "Result" (E.of_int (pos 0)) k),
          )
          refl

    -- An enumerator's value in the response.
    get-failed :
        (e : XrpcReturnEn) (v : Json)
        → E.keyed v ≡ true
        → (E.get (failed e v) "ErrCode" ≡ E.of_int (value e))
          × (E.get (failed e v) "Result" ≡ E.of_int (pos 0))
          × (E.get (failed e v) "Reason" ≡ E.of_string (spelling e))
    get-failed e v k =
        let k₁ = L.keyed-put v "Result" (E.of_int (pos 0)) k in
        let k₂ = L.keyed-put _ "ErrCode" (E.of_int (value e)) k₁ in
        (
          rw
              (
                L.get-put _ "Reason" (E.of_string (spelling e)) "ErrCode" k₂,
                L.get-put _ "ErrCode" (E.of_int (value e)) "ErrCode" k₁,
              )
              refl,
          rw
              (
                L.get-put _ "Reason" (E.of_string (spelling e)) "Result" k₂,
                L.get-put _ "ErrCode" (E.of_int (value e)) "Result" k₁,
                L.get-put v "Result" (E.of_int (pos 0)) "Result" k,
              )
              refl,
          L.get-put _ "Reason" (E.of_string (spelling e)) "Reason" k₂,
        )

    handle_request-invalid :
        (s : State) (action account : String)
        → string_in s.root "action" ≡ done action
        → string_in s.root "account" ≡ done account
        → action_of action ≡ Action.invalid
        → E.keyed s.rsp ≡ true
        → handle_request s ≡ (done tt, record s { rsp = failed xrpc_server_action_invalid s.rsp })
    unfolding handle_request ◌>>=◌
    handle_request-invalid s action account e₁ e₂ e₃ k =
        rw (e₁, e₂, e₃) (fail_lem xrpc_server_action_invalid s k)

    get_response_lem :
        (s : State) → E.empty s.rsp ≡ false → get_response s ≡ (done (E.to_styled_string s.rsp), s)
    unfolding get_response ◌>>=◌
    get_response_lem s e = rw e refl

    -- The handler for a request with an unknown action, from any response.
    refused_lem :
        (s : State) (action account : String)
        → string_in s.root "action" ≡ done action
        → string_in s.root "account" ≡ done account
        → action_of action ≡ Action.invalid
        → E.keyed s.rsp ≡ true
        → (handle_request >> get_response) s ≡ (
          done (E.to_styled_string (failed xrpc_server_action_invalid s.rsp)),
          record s { rsp = failed xrpc_server_action_invalid s.rsp },
        )
    unfolding ◌>>=◌
    refused_lem s action account e₁ e₂ e₃ k =
        rw
          (
            handle_request-invalid s action account e₁ e₂ e₃ k,
            get_response_lem (record s { rsp = failed xrpc_server_action_invalid s.rsp })
                (L.empty-put _ "Reason" _),
          )
          refl

    -- The new handler, before its request is handled.
    parsed_lem :
        (req : String) (w : World)
        → (v : Json) × (xrpc_handler req (blank w)
            ≡ (done tt, record (blank w) { request_http = req; root = (E.parse req).1; rsp = v }))
          × (E.keyed v ≡ true)
    unfolding xrpc_handler ◌>>=◌
    parsed_lem req w = elim (Bool-cases (E.parse req).0) [
      | inl ok ↦ (E.null, rw ok refl, L.keyed-null)
      | inr failure ↦ (
        failed xrpc_server_json_parse_err E.null,
        rw failure (
            fail_lem xrpc_server_json_parse_err
              (record (blank w) { request_http = req; root = (E.parse req).1 }) L.keyed-null),
        keyed-failed xrpc_server_json_parse_err E.null L.keyed-null,
      )
    ]

    -- Where what the parser leaves in the root reads as an unknown action and an account, the
    -- request is served, the world is as it was, and the response has the "Result" 0 and the
    -- "ErrCode" and the "Reason" of an invalid action: whether or not the request parses.
    pub serve-invalid :
        (req : String) (w : World) (action account : String)
        → string_in (E.parse req).1 "action" ≡ done action
        → string_in (E.parse req).1 "account" ≡ done account
        → action_of action ≡ Action.invalid
        → (v : Json) × (serve req w ≡ (done (E.to_styled_string v), w))
          × (E.get v "Result" ≡ E.of_int (pos 0))
          × (E.get v "ErrCode" ≡ E.of_int (value xrpc_server_action_invalid))
          × (E.get v "Reason" ≡ E.of_string "xrpc_server_action_invalid")
    unfolding serve answer ◌>>=◌
    serve-invalid req w action account e₁ e₂ e₃ =
        let (v, made, keyed) = parsed_lem req w in
        let (code, result, reason) = get-failed xrpc_server_action_invalid v keyed in
        (
          failed xrpc_server_action_invalid v,
          rw
              (
                made,
                refused_lem
                    (record (blank w) { request_http = req; root = (E.parse req).1; rsp = v })
                    action account e₁ e₂ e₃ keyed,
              )
              refl,
          result,
          code,
          reason,
        )
