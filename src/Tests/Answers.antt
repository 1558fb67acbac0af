-- ===== src/Tests/Answers.antt =====
-- Answers on the small node of `Demo`: an account's, a console's, and the two services'.
use Prim.Native.String as Str
use xrpcserver.Prelude.{
  find_first_of, String, [], ◌∷◌, ◌≡◌, ◌⊎◌, refl, inr, pos, done, codes, arith,
}
use xrpcserver.Base.{xrpc_already_give, xrpc_return_str}
use xrpcserver.Rpc.{State, string_in, set_rsp, ◌>>=◌}
use xrpcserver.Demo.{get, text, int, obj, no_fields, field, demo, demo_json_laws}
use xrpcserver.Utility.{hex_print}
use xrpcserver.Utility.Hex.{read_hex, hex_print-reads}
use xrpcserver.Handler.{
  account_info, accept, fail, handle_request, action_of, run as run_method, account_sync,
  set_result_ok, set_result_fail,
}
use xrpcserver.Handler.{query_all_property, is_bad_key}
use xrpcserver.Handler.Keys.{is_bad_key_iff}
use xrpcserver.Handler.Properties.{ShowsAll, query_all_property-ShowsAll}
use xrpcserver.Handler.Serve.{serve}
use xrpcserver.Handler.Answers.{Result}
use xrpcserver.Handler.Info.{IsInfo, Gives, account_info-Shows}
use xrpcserver.Service.{SyncService, AsyncService, call, count_call, proceed, call_data, status_of}
use xrpcserver.Service.Async.{idle}
use xrpcserver.Service.Agree.{HasReplied, proceed-HasReplied}
use xrpcserver.Tests.Requests.{asking}
use xrpcserver.Tests.Servers as Servers

abbrev asking_info : State ⦃E = demo⦄
asking_info = asking (obj (field "account" (text "bob") no_fields))

account_info-Shows_example :
    ((account_info ⦃E = demo⦄ asking_info).0 ≡ done tt)
    × Result ⦃E = demo⦄ 1 (account_info ⦃E = demo⦄ asking_info).1
    × IsInfo ⦃E = demo⦄ (7, "bob") 7 (account_info ⦃E = demo⦄ asking_info).1.rsp
    × (((get (account_info ⦃E = demo⦄ asking_info).1.rsp "give" ≡ int (pos 1))
          × Gives ⦃E = demo⦄ asking_info "bob" (accept ⦃E = demo⦄))
        ⊎ ((get (account_info ⦃E = demo⦄ asking_info).1.rsp "give" ≡ int (pos 0))
            × Gives ⦃E = demo⦄ asking_info "bob" (fail ⦃E = demo⦄ xrpc_already_give)))
unfolding string_in
account_info-Shows_example =
    account_info-Shows ⦃E = demo⦄ demo_json_laws asking_info "bob" (7, "bob") 7 refl refl refl refl

hex_print-reads_example :
    (text : String) × (hex_print "key " (18 ∷ 255 ∷ 0 ∷ []) (pos 2) ≡ done (Str.◌++◌ "key " text))
    × (read_hex (codes text) ≡ 18 ∷ 255 ∷ [])
hex_print-reads_example =
    hex_print-reads "key " (18 ∷ 255 ∷ 0 ∷ []) 2 (omega arith, (omega arith, (omega arith, tt)))
      (omega arith)

abbrev quiet_service : SyncService
quiet_service = record { call_num = 0; last_timestamp = 0 }

proceed-HasReplied_example :
    (svc : AsyncService) × ((proceed ⦃E = demo⦄ 0 "account_sync"
        (call_data (idle ⦃E = demo⦄))
        Servers.demo_world).0
      ≡ done svc)
    × HasReplied ⦃E = demo⦄ 0 "styled" (call_data (idle ⦃E = demo⦄)) svc
unfolding call count_call serve handle_request string_in action_of run_method account_sync
    set_result_ok set_result_fail xrpc_return_str ◌>>=◌ set_rsp call_data status_of
proceed-HasReplied_example =
    proceed-HasReplied ⦃E = demo⦄ 0 "account_sync" "styled" quiet_service
      (call_data (idle ⦃E = demo⦄)) Servers.demo_world refl refl (omega arith)
      (inr (λ e. absurd (omega arith)))

query_all_property-ShowsAll_example :
    ((query_all_property ⦃E = demo⦄ asking_info).0 ≡ done tt)
    × Result ⦃E = demo⦄ 1 (query_all_property ⦃E = demo⦄ asking_info).1
    × ShowsAll ⦃E = demo⦄ (query_all_property ⦃E = demo⦄ asking_info).1.rsp (("@name", "bob") ∷ [])
unfolding string_in is_bad_key find_first_of
query_all_property-ShowsAll_example =
    query_all_property-ShowsAll ⦃E = demo⦄ demo_json_laws asking_info "bob" (7, "bob") refl refl
      refl ((is_bad_key_iff "@name").0 refl, tt) (tt, tt)
