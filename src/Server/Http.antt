-- ===== src/Server/Http.antt =====
-- xrpc_server.cpp: a connection. A call of `async_read_until` or `async_write` returns at once: the
-- first is an entry of `reading`, and its handler is a function of the connection as it is when the
-- operation completes, of the error and of the number of bytes up to the end of the delimiter; the
-- second hands the whole of `m_response` to the socket.
use Prim.Native.Char.{Char}
use Prim.Native.String.{count}
use Prim.Native.String as Str
use text.Mathlib.TextBridge.{of_list}
use xrpcserver.Prelude.{
  ℕ, ◌-◌, String, List, [], ◌∷◌, ◌++◌, Bool, not, Outcome, done, thrown, undefined, str_eq,
  is_empty, to_string, take, drop, if◌then◌else◌,
}
use xrpcserver.Env.{Env}
use xrpcserver.Rpc.{World}
use xrpcserver.Handler.Serve.{serve}

-- The delimiters " ", "\r\n\r\n" and "}".
pub data ReadUntil : Type 0 where
  until_space : ReadUntil
  until_blank_line : ReadUntil
  until_brace : ReadUntil

-- The members of `xrpc_connection`: `m_request` and `m_response` are stream buffers.
pub record Connection : Type 0 where
  pub request : List Char
  pub response : String
  pub reading : List ReadUntil
  pub written : List String

abbrev pub fresh : Connection
fresh = record { request = []; response = ""; reading = []; written = [] }

unfoldable pub async_read_until : ReadUntil → Connection → Connection
async_read_until delimiter c = record c { reading = c.reading ++ delimiter ∷ [] }

-- `rsp_stream << text`
unfoldable pub put_text : String → Connection → Connection
put_text text c = record c { response = Str.◌++◌ c.response text }

unfoldable pub async_write : Connection → Connection
async_write c = record c { response = ""; written = c.written ++ c.response ∷ [] }

-- It has no `return`: what its caller reads is not determined.
unfoldable pub parse_method : Connection → Connection
unfolding async_read_until
parse_method c = async_read_until until_space c

unfoldable pub do_read_http_body : Connection → Connection
unfolding async_read_until
do_read_http_body c = async_read_until until_brace c

unfoldable pub on_post : Connection → Connection
unfolding async_read_until
on_post c = async_read_until until_blank_line c

unfoldable pub on_options : Connection → Connection
unfolding put_text async_write
on_options c =
    let c = put_text "HTTP/1.1 200 OK\r\n" c in
    let c = put_text "Access-Control-Allow-Origin:*\r\n" c in
    let c = put_text "Access-Control-Request-Method:POST\r\n" c in
    let c =
      put_text "Access-Control-Allow-Headers:Origin,X-Requested-With,Content-Type,Accept\r\n" c in
    let c = put_text "Access-Control-Request-Headers:Content-type\r\n" c in async_write c

unfoldable pub on_error : Connection → Connection
unfolding put_text async_write
on_error c = async_write (put_text "HTTP/1.0 403 Forbidden\r\n" c)

-- `returned` is what the call of `parse_method` happens to yield.
unfoldable pub do_read : Bool → Connection → Connection
unfolding parse_method on_error
do_read returned c = if not returned then parse_method c else on_error (parse_method c)

unfoldable pub handle_accept : Bool → Connection → Connection
unfolding do_read
handle_accept returned c = do_read returned c

unfoldable pub do_write : String → Connection → Connection
unfolding put_text async_write
do_write rsp c = async_write (
    if is_empty rsp
    then put_text "HTTP/1.1 201 Error\r\n" c
    else (let c = put_text "HTTP/1.1 200 OK\r\n" c in
        let c = put_text "Access-Control-Allow-Origin: *\r\n" c in
        let c = put_text "\r\n" (put_text "application/json" (put_text "Content-Type: " c)) in
        let c =
          put_text "\r\n" (put_text (to_string (count rsp)) (put_text "Content-Length: " c)) in
        let c = put_text "\r\n" c in put_text "\r\n" (put_text rsp c)))

-- The handler that `parse_method` passes on; what it returns is dropped.
unfoldable pub method_done : Bool → ℕ → Connection → Connection
unfolding on_options on_post
method_done error bytes_transferred c =
    let method = of_list (take (bytes_transferred - 1) c.request) in
    if error
    then c
    else if is_empty method
    then c
    else if str_eq method "OPTIONS"
    then on_options c
    else if str_eq method "POST"
    then on_post c
    else c

-- The handler that `on_post` passes on.
unfoldable pub header_done : Bool → ℕ → Connection → Connection
unfolding do_read_http_body
header_done error bytes_transferred c =
    if error then c else do_read_http_body (record c { request = drop bytes_transferred c.request })

module _ ⦃E : Env⦄ where
  -- The end of the handler that `do_read_http_body` passes on: an exception leaves it before the
  -- response is written.
  abbrev pub respond : Outcome String → Connection → Outcome Connection
  respond (done rsp) c = done (do_write rsp c)
  respond thrown c = thrown
  respond undefined c = undefined

  -- The handler that `do_read_http_body` passes on: the request is the whole buffer.
  unfoldable pub body_done : Bool → ℕ → Connection → World → Outcome Connection × World
  unfolding serve
  body_done error bytes_transferred c world =
      if error
      then (done c, world)
      else (let (outcome, world') = serve (of_list c.request) world in (respond outcome c, world'))
