-- ===== src/Utility/Hex.antt =====
-- The bytes can be read back from what `hex_print` prints.
use Prim.Native.String as Str
use xrpcserver.Prelude.{
  ℕ, zero, suc, ◌+◌, ◌-◌, ◌*◌, ◌/◌, ◌%◌, ◌≤◌, ◌<◌, String, List, [], ◌∷◌, ◌≡◌, refl, ap, ◌∙◌, pos,
  done, All, length, take, codes, arith, leb, ltb, if◌then◌else◌,
}
use xrpcserver.Prelude.Text.RoundTrip.{codes-append}
use xrpcserver.Utility.Print.{hex_digit, hex_byte, hex_text, hex_loop, hex_print}

-- The value of a digit of "%x".
abbrev hex_value : ℕ → ℕ
hex_value c = if leb c b'9' then c - b'0' else c + 10 - b'a'

-- The bytes before the end of the line, two digits each.
abbrev pub read_hex : List ℕ → List ℕ
read_hex (c ∷ (d ∷ s)) = (hex_value c * 16 + hex_value d) ∷ read_hex s
read_hex _ = []

abbrev hex_code : ℕ → ℕ
hex_code d = if ltb d 10 then b'0' + d else b'a' + d - 10

codes-hex_digit :
    (d : ℕ) (out : String) → d < 16 → codes (Str.◌++◌ (hex_digit d) out) ≡ hex_code d ∷ codes out
unfolding hex_digit
codes-hex_digit zero out h = codes-append _ out
codes-hex_digit (suc zero) out h = codes-append _ out
codes-hex_digit (suc (suc zero)) out h = codes-append _ out
codes-hex_digit (suc (suc (suc zero))) out h = codes-append _ out
codes-hex_digit (suc (suc (suc (suc zero)))) out h = codes-append _ out
codes-hex_digit (suc (suc (suc (suc (suc zero))))) out h = codes-append _ out
codes-hex_digit (suc (suc (suc (suc (suc (suc zero)))))) out h = codes-append _ out
codes-hex_digit (suc (suc (suc (suc (suc (suc (suc zero))))))) out h = codes-append _ out
codes-hex_digit (suc (suc (suc (suc (suc (suc (suc (suc zero)))))))) out h = codes-append _ out
codes-hex_digit (suc (suc (suc (suc (suc (suc (suc (suc (suc zero))))))))) out h =
    codes-append _ out
codes-hex_digit (suc (suc (suc (suc (suc (suc (suc (suc (suc (suc zero)))))))))) out h =
    codes-append _ out
codes-hex_digit (suc (suc (suc (suc (suc (suc (suc (suc (suc (suc (suc zero))))))))))) out h =
    codes-append _ out
codes-hex_digit (suc (suc (suc (suc (suc (suc (suc (suc (suc (suc (suc (suc zero)))))))))))) out h =
    codes-append _ out
codes-hex_digit (suc (suc (suc (suc (suc (suc (suc (suc (suc (suc (suc (suc (suc zero)))))))))))))
      out h =
    codes-append _ out
codes-hex_digit
      (suc (suc (suc (suc (suc (suc (suc (suc (suc (suc (suc (suc (suc (suc zero)))))))))))))) out
      h =
    codes-append _ out
codes-hex_digit
      (suc (suc (suc (suc (suc (suc (suc (suc (suc (suc (suc (suc (suc (suc (suc zero)))))))))))))))
      out h =
    codes-append _ out
codes-hex_digit
      (suc
        (suc (suc (suc (suc (suc (suc (suc (suc (suc (suc (suc (suc (suc (suc (suc d))))))))))))))))
      out h =
    absurd (omega arith)

hex_value-hex_code : (d : ℕ) → d < 16 → hex_value (hex_code d) ≡ d
hex_value-hex_code d h = ground arith

read_hex-hex_byte :
    (b : ℕ) (out : String) → b < 256 → read_hex (codes (hex_byte b out)) ≡ b ∷ read_hex (codes out)
unfolding hex_byte
read_hex-hex_byte b out h =
    let whole : b / 16 * 16 + b % 16 ≡ b = omega arith in
    rw
      (
        codes-hex_digit (b / 16) (Str.◌++◌ (hex_digit (b % 16)) out) (omega arith),
        codes-hex_digit (b % 16) out (omega arith),
        hex_value-hex_code (b / 16) (omega arith),
        hex_value-hex_code (b % 16) (omega arith),
        whole,
      )
      refl

read_hex-hex_text :
    (bytes : List ℕ) → All (λ b. b < 256) bytes → read_hex (codes (hex_text bytes "\n")) ≡ bytes
unfolding hex_text
read_hex-hex_text [] h = refl
read_hex-hex_text (b ∷ bytes) (lt, h) =
    read_hex-hex_byte b _ lt ∙ ap (λ l. b ∷ l) (read_hex-hex_text bytes h)

hex_loop_lem :
    (n : ℕ) (bytes : List ℕ) (out : String)
    → n ≤ length bytes
    → hex_loop n bytes out ≡ done (hex_text (take n bytes) out)
unfolding hex_loop hex_text
hex_loop_lem zero bytes out h = refl
hex_loop_lem (suc n) [] out h = absurd (omega arith)
hex_loop_lem (suc n) (b ∷ bytes) out h = rw (hex_loop_lem n bytes out (omega arith)) refl

All-take : (n : ℕ) (bytes : List ℕ) → All (λ b. b < 256) bytes → All (λ b. b < 256) (take n bytes)
All-take zero bytes h = tt
All-take (suc n) [] h = tt
All-take (suc n) (b ∷ bytes) (lt, h) = (lt, All-take n bytes h)

-- Where there are at least `n` bytes, `hex_print` prints the prefix, and a text from which the first
-- `n` bytes can be read.
pub hex_print-reads :
    (prefix : String) (bytes : List ℕ) (n : ℕ)
    → All (λ b. b < 256) bytes
    → n ≤ length bytes
    → (text : String) × (hex_print prefix bytes (pos n) ≡ done (Str.◌++◌ prefix text))
      × (read_hex (codes text) ≡ take n bytes)
unfolding hex_print
hex_print-reads prefix bytes n h le = (
  hex_text (take n bytes) "\n",
  rw (hex_loop_lem n bytes "\n" le) refl,
  read_hex-hex_text (take n bytes) (All-take n bytes h),
)
