-- ===== src/Tests/Exchanges.antt =====
-- Exchanges over HTTP, on the small node of `Demo`.
use Prim.Native.Char.{Char}
use text.Mathlib.TextBridge.{of_list}
use xrpcserver.Prelude.{false, List, [], ◌∷◌, ◌++◌, refl}
use xrpcserver.Base.{xrpc_return_str}
use xrpcserver.Demo.{demo}
use xrpcserver.Rpc.{string_in, ◌>>=◌, set_rsp}
use xrpcserver.Handler.{
  handle_request, action_of, run as run_method, set_result_ok, set_result_fail,
}
use xrpcserver.Handler.Serve.{serve}
use xrpcserver.Server.{fresh, do_read}
use xrpcserver.Server.Reads.{delimiter, bytes_until, converse}
use xrpcserver.Server.Exchange.{post}
use xrpcserver.Server.Reply.{IsAnswered, http_post-cut, http_post-read_response}
use xrpcserver.Server.Single.{Conversed, do_read-Conversed}
use xrpcserver.Tests.Servers

-- What stands between the word POST and the body.
abbrev header_rest : List Char
header_rest = "/" ∷ "\r" ∷ "\n" ∷ "\r" ∷ "\n" ∷ []

abbrev nested : List Char
nested = "{" ∷ "}" ∷ "," ∷ []

http_post-cut_example :
    IsAnswered ⦃E = demo⦄ "styled" (serve ⦃E = demo⦄ (of_list nested) Servers.demo_world).1 (
      converse ⦃E = demo⦄
        ((post ++ header_rest ++ nested) ∷ ("}" ∷ []) ∷ [])
        (do_read false fresh)
        Servers.demo_world)
unfolding serve handle_request string_in action_of run_method set_result_ok set_result_fail
    xrpc_return_str ◌>>=◌ set_rsp bytes_until delimiter
http_post-cut_example =
    http_post-cut ⦃E = demo⦄ header_rest nested (("}" ∷ []) ∷ []) 2 Servers.demo_world "styled" refl
      refl refl refl

http_post-read_response_example :
    IsAnswered ⦃E = demo⦄ "styled"
      (serve ⦃E = demo⦄ (of_list ("{" ∷ "}" ∷ [])) Servers.demo_world).1
      (converse ⦃E = demo⦄
        ((post ++ header_rest ++ ("{" ∷ [])) ∷ ("}" ∷ []) ∷ [])
        (do_read false fresh)
        Servers.demo_world)
unfolding serve handle_request string_in action_of run_method set_result_ok set_result_fail
    xrpc_return_str ◌>>=◌ set_rsp bytes_until delimiter
http_post-read_response_example =
    http_post-read_response ⦃E = demo⦄ header_rest ("{" ∷ []) ("}" ∷ []) [] 2 Servers.demo_world
      "styled" refl refl refl refl refl

do_read-Conversed_example : Conversed ⦃E = demo⦄ Servers.demo_world (
    converse ⦃E = demo⦄
      (("P" ∷ "U" ∷ []) ∷ ("T" ∷ " " ∷ []) ∷ [])
      (do_read false fresh)
      Servers.demo_world)
do_read-Conversed_example =
    do_read-Conversed ⦃E = demo⦄ (("P" ∷ "U" ∷ []) ∷ ("T" ∷ " " ∷ []) ∷ []) Servers.demo_world
