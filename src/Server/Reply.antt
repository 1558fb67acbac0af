-- ===== src/Server/Reply.antt =====
-- xrpc_server.cpp: a whole exchange, from the bytes of a POST to what its client reads.
use Prim.Native.Char.{Char}
use text.Mathlib.TextBridge.{of_list}
use xrpcserver.Prelude.{
  String, List, [], ◌∷◌, ◌++◌, ◌≡◌, refl, ◌∙◌, ℕ, none, some, false, done, length, codes, is_empty,
  Outcome, arith,
}
use xrpcserver.Env.{Env}
use xrpcserver.Rpc.{World}
use xrpcserver.Handler.Serve.{serve}
use xrpcserver.Server.Http.{
  Connection, until_blank_line, until_brace, fresh, do_read, do_write, put_text,
}
use xrpcserver.Server.Reads.{delimiter, bytes_until, arrive, converse}
use xrpcserver.Server.Exchange.{
  post, awaiting, handed, work-post, work-awaiting, work-body, work-idle, converse-idle,
}
use xrpcserver.Server.Client.{read_response, read_response-do_write}

pub do_write-reading : (rsp : String) (c : Connection) → (do_write rsp c).reading ≡ c.reading
unfolding do_write put_text
do_write-reading rsp c = ground arith

module _ ⦃E : Env⦄ where
  -- One response was written, and a client that goes by its "Content-Length" reads the text.
  pub record IsAnswered (rsp : String) (w : World) (result : Outcome Connection × World)
      : Type 0 where
    pub connection : Connection
    pub text : String
    pub ends : result ≡ (done connection, w)
    pub written : connection.written ≡ text ∷ []
    pub read : read_response (codes text) ≡ some (codes rsp)

  -- Once the response is written, what comes is not read.
  written_lem :
      (rsp : String) (body : List Char) (later : List (List Char)) (world : World)
      → is_empty rsp ≡ false
      → IsAnswered rsp world (converse later (do_write rsp (handed body)) world)
  written_lem rsp body later world h =
      let (text, written, read) = read_response-do_write rsp (handed body) refl h in
      let (c, ends, idle, same) =
        converse-idle later (do_write rsp (handed body)) world
          (do_write-reading rsp (handed body)) in
      record { connection = c; text = text; ends = ends; written = same ∙ written; read = read }

  -- The body is complete with the first piece.
  arrive-cut :
      (rest body : List Char) (k : ℕ) (world : World) (rsp : String)
      → bytes_until (delimiter until_blank_line) (post ++ rest ++ body)
        ≡ some (length (post ++ rest))
      → bytes_until (delimiter until_brace) body ≡ some k
      → (serve (of_list body) world).0 ≡ done rsp
      → arrive (post ++ rest ++ body) (do_read false fresh) world
        ≡ (done (do_write rsp (handed body)), (serve (of_list body) world).1)
  unfolding arrive
  arrive-cut rest body k world rsp header brace served =
      work-post 1 rest body world header
      ∙ work-body 0 k body world rsp brace served
      ∙ work-idle 0 (do_write rsp (handed body)) _ (do_write-reading rsp (handed body))

  -- The body is complete with the second.
  arrive-awaiting :
      (body more : List Char) (k : ℕ) (world : World) (rsp : String)
      → bytes_until (delimiter until_brace) (body ++ more) ≡ some k
      → (serve (of_list (body ++ more)) world).0 ≡ done rsp
      → arrive more (awaiting body) world
        ≡ (done (do_write rsp (handed (body ++ more))), (serve (of_list (body ++ more)) world).1)
  unfolding arrive
  arrive-awaiting body more k world rsp brace served =
      work-body 2 k (body ++ more) world rsp brace served
      ∙ work-idle 2 (do_write rsp (handed (body ++ more))) _
          (do_write-reading rsp (handed (body ++ more)))

  -- Where the call of `parse_method`, which returns no value, is read as false: a connection sends
  -- `POST ` and more bytes, and its first piece holds the header, up to its blank line, and a body
  -- with a brace. What of the body came with this piece is handed to the handler, whether or not the
  -- request is complete; if the handler answers with a text that is not empty, one response is
  -- written, from which a client that goes by its "Content-Length" reads this text; the pieces that
  -- come later are not read, and change nothing.
  pub http_post-cut :
      (rest body : List Char) (later : List (List Char)) (k : ℕ) (world : World) (rsp : String)
      → bytes_until (delimiter until_blank_line) (post ++ rest ++ body)
        ≡ some (length (post ++ rest))
      → bytes_until (delimiter until_brace) body ≡ some k
      → (serve (of_list body) world).0 ≡ done rsp
      → is_empty rsp ≡ false
      → IsAnswered rsp
          (serve (of_list body) world).1
          (converse ((post ++ rest ++ body) ∷ later) (do_read false fresh) world)
  unfolding converse
  http_post-cut rest body later k world rsp header brace served h =
      rw (arrive-cut rest body k world rsp header brace served)
        (written_lem rsp body later (serve (of_list body) world).1 h)

  -- Where the call of `parse_method`, which returns no value, is read as false: a connection sends
  -- `POST ` and more bytes, and its first piece holds the header, up to its blank line, and a part of
  -- the body without a brace; the second piece brings the brace. All of the body that has come is
  -- handed to the handler; if the handler answers with a text that is not empty, one response is
  -- written, from which a client that goes by its "Content-Length" reads this text; the pieces that
  -- come later are not read, and change nothing.
  pub http_post-read_response :
      (rest body more : List Char) (later : List (List Char)) (k : ℕ) (world : World) (rsp : String)
      → bytes_until (delimiter until_blank_line) (post ++ rest ++ body)
        ≡ some (length (post ++ rest))
      → bytes_until (delimiter until_brace) body ≡ none
      → bytes_until (delimiter until_brace) (body ++ more) ≡ some k
      → (serve (of_list (body ++ more)) world).0 ≡ done rsp
      → is_empty rsp ≡ false
      → IsAnswered rsp
          (serve (of_list (body ++ more)) world).1
          (converse ((post ++ rest ++ body) ∷ more ∷ later) (do_read false fresh) world)
  unfolding converse arrive
  http_post-read_response rest body more later k world rsp header no_brace brace served h =
      rw
        (
          work-post 1 rest body world header,
          work-awaiting 1 body world no_brace,
          arrive-awaiting body more k world rsp brace served,
        )
        (written_lem rsp (body ++ more) later (serve (of_list (body ++ more)) world).1 h)
