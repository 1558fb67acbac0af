-- ===== src/Server/Client.antt =====
-- xrpc_server.cpp: what a client that goes by "Content-Length" makes of a response of `do_write`.
use Prim.Native.String.{count}
use Prim.Native.String as Str
use text.Mathlib.TextLemmas.{length-cons}
use xrpcserver.Prelude.{
  ℕ, suc, String, List, [], ◌∷◌, ◌++◌, append_assoc, ◌≡◌, refl, ap, sym, ◌∙◌, Option, none, some,
  Bool, true, false, ◌&&◌, All, codes, is_empty, is_digit, read_digits, to_string, length, take,
  drop, arith, ◌==◌, if◌then◌else◌,
}
use xrpcserver.Prelude.Text.RoundTrip.{codes-append, read_digits-to_string, to_string-IsDigit}
use xrpcserver.Server.Http.{Connection, do_write, put_text}

-- Does the text begin so?
starts_with : List ℕ → List ℕ → Bool
starts_with [] s = true
starts_with (c ∷ pattern) [] = false
starts_with (c ∷ pattern) (d ∷ s) = c == d && starts_with pattern s

-- What follows the first occurrence of the pattern.
after : List ℕ → List ℕ → Option (List ℕ)
unfolding starts_with
after pattern [] = none
after pattern (c ∷ s) =
    let later = after pattern s in
    if starts_with pattern (c ∷ s) then some (drop (length pattern) (c ∷ s)) else later

-- The length that the header gives, and that many characters after the blank line.
read_body : Option (List ℕ) → Option (List ℕ) → Option (List ℕ)
read_body (some field) (some rest) = some (take (read_digits 0 field) rest)
read_body _ _ = none

pub read_response : List ℕ → Option (List ℕ)
unfolding read_body after
read_response text =
    read_body (after (codes "Content-Length: ") text) (after (codes "\r\n\r\n") text)

take-append : (xs ys : List ℕ) → take (length xs) (xs ++ ys) ≡ xs
take-append [] ys = refl
take-append (x ∷ xs) ys = ap (λ l. x ∷ l) (take-append xs ys)

-- The header has its blank line behind the digits of the length.
after-digits :
    (digits rest : List ℕ)
    → All (λ c. is_digit c ≡ true) digits
    → after (codes "\r\n\r\n") (digits ++ codes "\r\n\r\n" ++ rest) ≡ some rest
unfolding after is_digit
after-digits [] rest h = refl
after-digits (c ∷ digits) rest (d, h) = ground (arith, after-digits digits rest h)

length-codes : (s : String) → length (codes s) ≡ count s
length-codes String.[] = refl
length-codes (String.◌∷◌ c s) = ap suc (length-codes s) ∙ sym (length-cons c s)

-- The header up to the length.
abbrev status_lines : String
status_lines =
    "HTTP/1.1 200 OK\r\nAccess-Control-Allow-Origin: *\r\nContent-Type: application/json\r\nContent-Length: "

-- What `do_write` writes for a response that is not empty.
abbrev written_text : String → String
written_text rsp =
    Str.◌++◌
      (Str.◌++◌ (Str.◌++◌ (Str.◌++◌ (Str.◌++◌ status_lines (to_string (count rsp))) "\r\n") "\r\n")
        rsp)
      "\r\n"

regroup : (k l m n o p : List ℕ) → k ++ l ++ m ++ n ++ o ++ p ≡ k ++ (l ++ (m ++ n) ++ (o ++ p))
regroup k l m n o p = simp append_assoc

codes-written_text :
    (rsp : String)
    → codes (written_text rsp)
      ≡ codes status_lines
        ++ (codes (to_string (count rsp)) ++ codes "\r\n\r\n" ++ (codes rsp ++ codes "\r\n"))
codes-written_text rsp =
    let length_text = to_string (count rsp) in
    rw
      (
        codes-append
            (Str.◌++◌ (Str.◌++◌ (Str.◌++◌ (Str.◌++◌ status_lines length_text) "\r\n") "\r\n") rsp)
            "\r\n",
        codes-append (Str.◌++◌ (Str.◌++◌ (Str.◌++◌ status_lines length_text) "\r\n") "\r\n") rsp,
        codes-append (Str.◌++◌ (Str.◌++◌ status_lines length_text) "\r\n") "\r\n",
        codes-append (Str.◌++◌ status_lines length_text) "\r\n",
        codes-append status_lines length_text,
      )
      (regroup (codes status_lines) (codes length_text) (codes "\r\n") (codes "\r\n") (codes rsp)
        (codes "\r\n"))

do_write_lem :
    (rsp : String) (c : Connection)
    → c.response ≡ ""
    → is_empty rsp ≡ false
    → (do_write rsp c).written ≡ c.written ++ written_text rsp ∷ []
unfolding do_write put_text
do_write_lem rsp c e h = rw (h, e) refl

-- The status line and the headers before the length have none of the marks in them.
after-status_lines :
    (rest : List ℕ)
    → (after (codes "Content-Length: ") (codes status_lines ++ rest) ≡ some rest)
      × (after (codes "\r\n\r\n") (codes status_lines ++ rest) ≡ after (codes "\r\n\r\n") rest)
unfolding after
after-status_lines rest = (refl, refl)

read_response-written_text :
    (rsp : String) → read_response (codes (written_text rsp)) ≡ some (codes rsp)
unfolding read_response is_digit
read_response-written_text rsp =
    let body = codes rsp ++ codes "\r\n" in
    let number = codes (to_string (count rsp)) in
    let marks = after-status_lines (number ++ codes "\r\n\r\n" ++ body) in
    let size : read_digits 0 (number ++ codes "\r\n\r\n" ++ body) ≡ length (codes rsp) =
      rw (append_assoc number (codes "\r\n\r\n") body)
        (read_digits-to_string (count rsp) 13 _ digits_end ∙ sym (length-codes rsp)) in
    rw
      (
        codes-written_text rsp,
        marks.0,
        marks.1,
        after-digits number body (to_string-IsDigit (count rsp)),
        size,
        take-append (codes rsp) (codes "\r\n"),
      )
      refl
  where
    digits_end : is_digit 13 ≡ false
    digits_end = refl

-- Where nothing is left in the buffer, the response to a text that is not empty is written at once,
-- and a client that goes by its "Content-Length" reads exactly this text.
pub read_response-do_write :
    (rsp : String) (c : Connection)
    → c.response ≡ ""
    → is_empty rsp ≡ false
    → (text : String) × ((do_write rsp c).written ≡ c.written ++ text ∷ [])
      × (read_response (codes text) ≡ some (codes rsp))
read_response-do_write rsp c e h =
    (written_text rsp, do_write_lem rsp c e h, read_response-written_text rsp)
