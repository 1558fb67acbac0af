-- ===== src/Server/Exchange.antt =====
-- xrpc_server.cpp: how the reads of a POST complete, from the first bytes to the handler's response.
use Prim.Native.Char.{Char}
use text.Mathlib.TextBridge.{of_list}
use xrpcserver.Prelude.{
  ℕ, suc, zero, String, List, [], ◌∷◌, ◌++◌, ◌≡◌, refl, none, some, false, done, length, drop,
}
use xrpcserver.Env.{Env}
use xrpcserver.Rpc.{World}
use xrpcserver.Handler.Serve.{serve}
use xrpcserver.Server.Http.{
  Connection, until_blank_line, until_brace, fresh, do_read, do_write, method_done, header_done,
  body_done, respond,
}
use xrpcserver.Server.Reads.{
  delimiter, bytes_until, receive, completed, turn, work, arrive, converse,
}

abbrev pub post : List Char
post = "P" ∷ "O" ∷ "S" ∷ "T" ∷ " " ∷ []

drop-append : (xs ys : List Char) → drop (length xs) (xs ++ ys) ≡ ys
drop-append [] ys = refl
drop-append (x ∷ xs) ys = drop-append xs ys

-- A connection that has read a header, and reads the body.
abbrev pub awaiting : List Char → Connection
awaiting body = record { request = body; response = ""; reading = until_brace ∷ []; written = [] }

-- A connection whose request is handed to the handler.
abbrev pub handed : List Char → Connection
handed body = record { request = body; response = ""; reading = []; written = [] }

module _ ⦃E : Env⦄ where
  -- The method and the header are read.
  pub work-post :
      (fuel : ℕ) (rest body : List Char) (world : World)
      → bytes_until (delimiter until_blank_line) (post ++ rest ++ body)
        ≡ some (length (post ++ rest))
      → work (suc (suc fuel)) (receive (post ++ rest ++ body) (do_read false fresh)) world
        ≡ work fuel (awaiting body) world
  unfolding work turn completed do_read method_done header_done
  work-post fuel rest body world e = rw (e, drop-append rest body) refl

  -- A body without a brace is waited for.
  pub work-awaiting :
      (fuel : ℕ) (body : List Char) (world : World)
      → bytes_until (delimiter until_brace) body ≡ none
      → work fuel (awaiting body) world ≡ (done (awaiting body), world)
  unfolding work turn
  work-awaiting zero body world e = refl
  work-awaiting (suc fuel) body world e = rw e refl

  pub completed-brace :
      (k : ℕ) (c : Connection) (world : World)
      → completed until_brace k c world
        ≡ (respond (serve (of_list c.request) world).0 c, (serve (of_list c.request) world).1)
  unfolding completed body_done
  completed-brace k c world = refl

  -- A body with one is handed to the handler.
  pub work-body :
      (fuel k : ℕ) (body : List Char) (world : World) (rsp : String)
      → bytes_until (delimiter until_brace) body ≡ some k
      → (serve (of_list body) world).0 ≡ done rsp
      → work (suc fuel) (awaiting body) world
        ≡ work fuel (do_write rsp (handed body)) (serve (of_list body) world).1
  unfolding work turn
  work-body fuel k body world rsp e served =
      rw (e, completed-brace k (handed body) world, served) refl

  -- Where no read is pending, no handler runs.
  pub work-idle :
      (fuel : ℕ) (c : Connection) (world : World)
      → c.reading ≡ []
      → work fuel c world ≡ (done c, world)
  unfolding work turn
  work-idle zero c world e = refl
  work-idle (suc fuel) c world e = rw e refl

  pub converse-idle :
      (later : List (List Char)) (c : Connection) (world : World)
      → c.reading ≡ []
      → (c' : Connection) × (converse later c world ≡ (done c', world))
        × (c'.reading ≡ [])
        × (c'.written ≡ c.written)
  unfolding converse arrive
  converse-idle [] c world e = (c, refl, e, refl)
  converse-idle (bytes ∷ later) c world e =
      let (c', runs, idle, same) = converse-idle later (receive bytes c) world e in
      (c', rw (work-idle 3 (receive bytes c) world e) runs, idle, same)
