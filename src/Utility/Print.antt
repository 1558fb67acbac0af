-- ===== src/Utility/Print.antt =====
-- common/xrpc_utility.cpp: what `hex_print` and `hash_print` write to the console, as a text.
use Prim.Native.String as Str
use xrpcserver.Prelude.{
  ℕ, zero, suc, ◌/◌, ◌%◌, String, List, [], ◌∷◌, ℤ, pos_part, Outcome, done, undefined, codes, ◌==◌,
  if◌then◌else◌,
}
use xrpcserver.Env.{Env}

-- One of the digits that "%x" prints.
unfoldable pub hex_digit : ℕ → String
hex_digit d =
    if d == 0
    then "0"
    else if d == 1
    then "1"
    else if d == 2
    then "2"
    else if d == 3
    then "3"
    else if d == 4
    then "4"
    else if d == 5
    then "5"
    else if d == 6
    then "6"
    else if d == 7
    then "7"
    else if d == 8
    then "8"
    else if d == 9
    then "9"
    else if d == 10
    then "a"
    else if d == 11
    then "b"
    else if d == 12
    then "c"
    else if d == 13
    then "d"
    else if d == 14
    then "e"
    else "f"

-- `printf("%02x", b)`, for a byte.
unfoldable pub hex_byte : ℕ → String → String
unfolding hex_digit
hex_byte b out = Str.◌++◌ (hex_digit (b / 16)) (Str.◌++◌ (hex_digit (b % 16)) out)

-- What the loop prints of all the bytes, before `out`.
unfoldable pub hex_text : List ℕ → String → String
unfolding hex_byte
hex_text [] out = out
hex_text (b ∷ bytes) out = hex_byte b (hex_text bytes out)

-- What the loop prints of the first `n` bytes, before `out`; a read behind them has no defined
-- result.
unfoldable pub hex_loop : ℕ → List ℕ → String → Outcome String
unfolding hex_byte
hex_loop zero bytes out = done out
hex_loop (suc n) [] out = undefined
hex_loop (suc n) (b ∷ bytes) out = printed (hex_loop n bytes out)
  where
    printed : Outcome String → Outcome String
    printed (done text) = done (hex_byte b text)
    printed o = o

abbrev after_prefix : String → Outcome String → Outcome String
after_prefix prefix (done text) = done (Str.◌++◌ prefix text)
after_prefix prefix o = o

-- A `size` below 0 prints nothing of the bytes.
unfoldable pub hex_print : String → List ℕ → ℤ → Outcome String
unfolding hex_loop
hex_print prefix bytes size = after_prefix prefix (hex_loop (pos_part size) bytes "\n")

module _ ⦃E : Env⦄ where
  unfoldable pub hash_print : String → E.Hash → String
  unfolding hex_text
  hash_print name hash = Str.◌++◌ name (Str.◌++◌ " " (hex_text (codes (E.hash_bytes hash)) "\n"))
