-- ===== src/Handler/Counts.antt =====
-- The `int` arithmetic of the lists, in range.
use xrpcserver.Prelude.{
  if◌then◌else◌, List, [], ◌∷◌, ◌-◌, ◌≤◌, zero, suc, refl, sym, take, drop, ℕ, ◌+◌, ◌*◌, ◌<◌, ◌^◌,
  ◌≡◌, pos, done, arith, in_range, ◌*ℤ◌, ◌+ℤ◌,
}
use xrpcserver.Handler.History.{int_mul, int_add, next_num, in_page}

pub next_num_lem : (n : ℕ) → n + 1 < 2 ^ 31 → next_num n ≡ done (n + 1)
unfolding next_num
next_num_lem n h = ground arith

pub int_mul_lem : (a b : ℕ) → a * b < 2 ^ 31 → int_mul (pos a) (pos b) ≡ done (pos (a * b))
unfolding int_mul ◌*ℤ◌ in_range
int_mul_lem a b h = ground arith

pub int_add_lem : (a b : ℕ) → a + b < 2 ^ 31 → int_add (pos a) (pos b) ≡ done (pos (a + b))
unfolding int_add ◌+ℤ◌ in_range
int_add_lem a b h = ground arith

-- The elements whose number is in the page, where the first has the number `n`.
unfoldable pub page {ℓ} : {A : Type ℓ} → ℕ → ℕ → ℕ → List A → List A
page start stop n [] = []
page start stop n (x ∷ l) =
    let rest = page start stop (n + 1) l in
    if in_page (pos start) (pos stop) n then x ∷ rest else rest

page-within {ℓ} :
    {A : Type ℓ} (start stop n c : ℕ) (l : List A)
    → start ≤ n
    → c ≡ stop - n
    → page start stop n l ≡ take c l
unfolding page
page-within start stop n zero [] h e = refl
page-within start stop n (suc c) [] h e = refl
page-within start stop n zero (x ∷ l) h e = ground (arith, page-within start stop (n + 1) zero l)
page-within start stop n (suc c) (x ∷ l) h e = ground (arith, page-within start stop (n + 1) c l)

take-nil {ℓ} : {A : Type ℓ} (c : ℕ) → take {A = A} c [] ≡ []
take-nil zero = refl
take-nil (suc c) = refl

-- The page is a run of the list.
pub page_lem {ℓ} :
    {A : Type ℓ} (start stop n d : ℕ) (l : List A)
    → start ≡ n + d
    → page start stop n l ≡ take (stop - start) (drop d l)
unfolding page
page_lem start stop n zero l e =
    page-within start stop n (stop - start) l (omega arith) (omega arith)
page_lem start stop n (suc d) [] e = sym (take-nil (stop - start))
page_lem start stop n (suc d) (x ∷ l) e = ground (arith, page_lem start stop (n + 1) d l)
