-- ===== src/Prelude/Text.antt =====
-- What the server uses of `std::string`: the characters of a text, `std::to_string` of an unsigned
-- number, `std::stoll` and `find_first_of`.
pub mod RoundTrip
use Prim.Native.Nat.{ℕ, zero, suc, ◌+◌, ◌-◌, ◌*◌, ◌/◌, ◌%◌}
use Prim.Native.Char.{code}
use Prim.Native.String.{String}
use Prim.Native.String as Str
use mathlib.Core.Bool.{Bool, true, false, ◌&&◌, ◌||◌}
use mathlib.Core.Option.{Option, none, some}
use mathlib.Core.List.{List, [], ◌∷◌}
use xrpcserver.Prelude.Tests.{leb, ◌==◌, if◌then◌else◌}
use xrpcserver.Prelude.Int.{ℤ, pos, negsuc, in_range}

-- The code points of a text: its bytes, if it is ASCII.
abbrev pub codes : String → List ℕ
codes String.[] = []
codes (String.◌∷◌ c s) = code c ∷ codes s

-- `s.empty()`
abbrev pub is_empty : String → Bool
is_empty String.[] = true
is_empty (String.◌∷◌ c s) = false

digit : ℕ → String
digit d =
    if d == 0
    then "0"
    else if d == 1
    then "1"
    else if d == 2
    then "2"
    else if d == 3
    then "3"
    else if d == 4
    then "4"
    else if d == 5
    then "5"
    else if d == 6
    then "6"
    else if d == 7
    then "7"
    else if d == 8
    then "8"
    else "9"

-- The digits of `n` before `out`; `n` has at most as many digits as the fuel.
print_digits : ℕ → ℕ → String → String
print_digits zero n out = out
print_digits (suc f) n out =
    let out' = Str.◌++◌ (digit (n % 10)) out in
    let rest = print_digits f (n / 10) out' in if n / 10 == 0 then out' else rest

-- `std::to_string(n)`
unfoldable pub to_string : ℕ → String
unfolding print_digits digit
to_string n = print_digits (suc n) n ""

unfoldable pub is_digit : ℕ → Bool
is_digit c = leb b'0' c && leb c b'9'

-- `isspace` in the "C" locale.
unfoldable pub is_space : ℕ → Bool
is_space c = c == 32 || (leb 9 c && leb c 13)

-- The longest run of digits, read in base ten onto `acc`.
unfoldable pub read_digits : ℕ → List ℕ → ℕ
unfolding is_digit
read_digits acc [] = acc
read_digits acc (c ∷ s) =
    let rest = read_digits (acc * 10 + (c - b'0')) s in if is_digit c then rest else acc

negate : ℕ → ℤ
negate zero = pos 0
negate (suc n) = negsuc n

-- `none` is `std::invalid_argument` (no digit) or `std::out_of_range`.
unsigned_part : Bool → List ℕ → Option ℤ
unsigned_part minus [] = none
unsigned_part minus (c ∷ s) =
    if is_digit c
    then in_range 63 (if minus then negate (read_digits 0 (c ∷ s)) else pos (read_digits 0 (c ∷ s)))
    else none

signed_part : List ℕ → Option ℤ
signed_part [] = none
signed_part (c ∷ s) =
    if c == b'-'
    then unsigned_part true s
    else if c == b'+'
    then unsigned_part false s
    else unsigned_part false (c ∷ s)

skip_spaces : List ℕ → List ℕ
skip_spaces [] = []
skip_spaces (c ∷ s) = let rest = skip_spaces s in if is_space c then rest else c ∷ s

-- `std::stoll(s)`
unfoldable pub stoll : String → Option ℤ
unfolding skip_spaces signed_part unsigned_part negate read_digits is_digit is_space in_range
stoll s = signed_part (skip_spaces (codes s))

-- Whether `c` is one of the characters of `set`.
abbrev pub one_of : List ℕ → ℕ → Bool
one_of [] c = false
one_of (d ∷ set) c = c == d || one_of set c

-- The position in a text of a position in its tail.
abbrev pub shift : Option ℕ → Option ℕ
shift none = none
shift (some i) = some (suc i)

-- `s.find_first_of(set)`, on code points; `none` is `std::string::npos`.
unfoldable pub find_first_of : List ℕ → List ℕ → Option ℕ
find_first_of set [] = none
find_first_of set (c ∷ s) =
    let later = shift (find_first_of set s) in if one_of set c then some 0 else later

-- `pos == 0` and `pos != std::string::npos`
abbrev pub found_at_zero : Option ℕ → Bool
found_at_zero none = false
found_at_zero (some i) = i == 0

abbrev pub is_found : Option ℕ → Bool
is_found none = false
is_found (some i) = true
