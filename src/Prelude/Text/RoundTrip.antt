-- ===== src/Prelude/Text/RoundTrip.antt =====
-- `std::stoll` reads what `std::to_string` prints.
use Prim.Native.Nat.{ℕ, zero, suc, ◌+◌, ◌*◌, ◌-◌, ◌/◌, ◌%◌, ◌^◌, ◌<◌}
use Prim.Native.String.{String}
use Prim.Native.String as Str
use mathlib.Core.Path.{◌≡◌, refl, ◌∙◌, ap}
use mathlib.Core.Logic.{inl, inr}
use mathlib.Core.Bool.{true, false}
use mathlib.Core.Option.{some}
use mathlib.Core.List.{List, [], ◌∷◌, ◌++◌, append-nil}
use native.Mathlib.Omega.{arith}
use text.Mathlib.TextLemmas.{nil-append, cons-append}
use Prim.Native.Char.{code}
use xrpcserver.Prelude.Lists.{All}
use xrpcserver.Prelude.Tests.{◌==◌, Bool-cases, le→leb}
use xrpcserver.Prelude.Int.{pos, in_range}
use xrpcserver.Prelude.Text.{
  codes, digit, print_digits, to_string, is_digit, is_space, read_digits, stoll,
}

pub codes-append : (s t : String) → codes (Str.◌++◌ s t) ≡ codes s ++ codes t
codes-append String.[] t = ap codes (nil-append t)
codes-append (String.◌∷◌ c s) t =
    ap codes (cons-append c s t) ∙ ap (λ l. code c ∷ l) (codes-append s t)

codes-digit :
    (d : ℕ) (out : String) → d < 10 → codes (Str.◌++◌ (digit d) out) ≡ (b'0' + d) ∷ codes out
unfolding digit
codes-digit zero out h = codes-append _ out
codes-digit (suc zero) out h = codes-append _ out
codes-digit (suc (suc zero)) out h = codes-append _ out
codes-digit (suc (suc (suc zero))) out h = codes-append _ out
codes-digit (suc (suc (suc (suc zero)))) out h = codes-append _ out
codes-digit (suc (suc (suc (suc (suc zero))))) out h = codes-append _ out
codes-digit (suc (suc (suc (suc (suc (suc zero)))))) out h = codes-append _ out
codes-digit (suc (suc (suc (suc (suc (suc (suc zero))))))) out h = codes-append _ out
codes-digit (suc (suc (suc (suc (suc (suc (suc (suc zero)))))))) out h = codes-append _ out
codes-digit (suc (suc (suc (suc (suc (suc (suc (suc (suc zero))))))))) out h = codes-append _ out
codes-digit (suc (suc (suc (suc (suc (suc (suc (suc (suc (suc d)))))))))) out h =
    absurd (omega arith)

digit_tests :
    (d : ℕ)
    → d < 10
    → (is_digit (b'0' + d) ≡ true)
      × (is_space (b'0' + d) ≡ false)
      × ((b'0' + d == b'-') ≡ false)
      × ((b'0' + d == b'+') ≡ false)
unfolding is_digit is_space
digit_tests d h = ground arith

-- Reading one more digit.
read_digits-digit :
    (acc d : ℕ) (s : List ℕ)
    → d < 10
    → read_digits acc ((b'0' + d) ∷ s) ≡ read_digits (acc * 10 + d) s
unfolding read_digits is_digit
read_digits-digit acc d s h =
    let same : b'0' + d - b'0' ≡ d = omega arith in
    rw (le→leb b'0' (b'0' + d) (omega arith), le→leb (b'0' + d) b'9' (omega arith), same) refl

-- Reading the digits of `n`, and what follows them.
read_digits-print_digits :
    (f n : ℕ) (out : String) (r : List ℕ)
    → n < f
    → read_digits 0 (codes (print_digits f n out) ++ r) ≡ read_digits n (codes out ++ r)
unfolding print_digits
read_digits-print_digits zero n out r h = absurd (omega arith)
read_digits-print_digits (suc f) n out r h =
    let last_digit = codes-digit (n % 10) out (omega arith) in
    elim (Bool-cases (n / 10 == 0)) [
      | inl last ↦
          let e : 0 * 10 + n % 10 ≡ n = ground arith in
          rw (last, last_digit, read_digits-digit 0 (n % 10) (codes out ++ r) (omega arith), e) refl
      | inr more ↦
          let e : n / 10 * 10 + n % 10 ≡ n = omega arith in
          rw more (
            read_digits-print_digits f (n / 10) _ r (ground arith)
            ∙ rw (last_digit, read_digits-digit (n / 10) (n % 10) (codes out ++ r) (omega arith), e)
                refl)
    ]

-- Reading the print of `n` stops at what is no digit.
pub read_digits-to_string :
    (n c : ℕ) (r : List ℕ) → is_digit c ≡ false → read_digits 0 (codes (to_string n) ++ c ∷ r) ≡ n
unfolding to_string read_digits
read_digits-to_string n c r h =
    read_digits-print_digits (suc n) n "" (c ∷ r) (omega arith) ∙ rw h refl

-- The print consists of digits.
print_digits-IsDigit :
    (f n : ℕ) (out : String)
    → All (λ c. is_digit c ≡ true) (codes out)
    → All (λ c. is_digit c ≡ true) (codes (print_digits f n out))
unfolding print_digits
print_digits-IsDigit zero n out h = h
print_digits-IsDigit (suc f) n out h =
    let last_digit = codes-digit (n % 10) out (omega arith) in
    let more : All (λ c. is_digit c ≡ true) (codes (Str.◌++◌ (digit (n % 10)) out)) =
      rw last_digit ((digit_tests (n % 10) (omega arith)).0, h) in
    elim (Bool-cases (n / 10 == 0)) [
      | inl last ↦ rw last more
      | inr rest ↦ rw rest (print_digits-IsDigit f (n / 10) _ more)
    ]

pub to_string-IsDigit : (n : ℕ) → All (λ c. is_digit c ≡ true) (codes (to_string n))
unfolding to_string
to_string-IsDigit n = print_digits-IsDigit (suc n) n "" tt

-- The print begins with a digit.
print_digits-head :
    (f n : ℕ) (out : String)
    → (d : ℕ) × (s : List ℕ) × (codes (print_digits (suc f) n out) ≡ (b'0' + d) ∷ s) × (d < 10)
unfolding print_digits
print_digits-head zero n out = elim (Bool-cases (n / 10 == 0)) [
  | inl last ↦ (n % 10, codes out, rw last (codes-digit (n % 10) out (omega arith)), omega arith)
  | inr more ↦ (n % 10, codes out, rw more (codes-digit (n % 10) out (omega arith)), omega arith)
]
print_digits-head (suc f) n out = elim (Bool-cases (n / 10 == 0)) [
  | inl last ↦ (n % 10, codes out, rw last (codes-digit (n % 10) out (omega arith)), omega arith)
  | inr more ↦
      let (d, s, e, h) = print_digits-head f (n / 10) (Str.◌++◌ (digit (n % 10)) out) in
      (d, s, rw more e, h)
]

read_digits-nil : (n : ℕ) → read_digits n [] ≡ n
unfolding read_digits
read_digits-nil n = refl

-- What `std::stoll` makes of a text that begins with a digit.
stoll-digit :
    (text : String) (d : ℕ) (s : List ℕ)
    → codes text ≡ (b'0' + d) ∷ s
    → d < 10
    → stoll text ≡ in_range 63 (pos (read_digits 0 ((b'0' + d) ∷ s)))
unfolding stoll
stoll-digit text d s e h =
    let (is_one, no_space, no_minus, no_plus) = digit_tests d h in
    rw (e, no_space, no_minus, no_plus, is_one) refl

-- Every number that fits `long long` is read back from its print.
pub stoll-to_string : (n : ℕ) → n < 2 ^ 63 → stoll (to_string n) ≡ some (pos n)
unfolding to_string in_range
stoll-to_string n h =
    let (d, s, e, small) = print_digits-head n n "" in
    let reads : read_digits 0 ((b'0' + d) ∷ s) ≡ n = rw (← e) (
      rw (← append-nil (codes (print_digits (suc n) n "")))
        (read_digits-print_digits (suc n) n "" [] (omega arith) ∙ read_digits-nil n)) in
    stoll-digit _ d s e small ∙ rw reads (ground arith)
