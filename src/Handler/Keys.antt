-- ===== src/Handler/Keys.antt =====
-- The built-in accounts and the keys of properties.
use xrpcserver.Prelude.{
  ◌⊎◌, str_eq, ℕ, String, List, [], ◌∷◌, ◌≡◌, ◌≢◌, ◌↔◌, refl, inl, inr, Bool, Bool-cases, true,
  false, not, ◌||◌, done, arith, codes, All, Option, none, some, find_first_of, found_at_zero,
  is_found, one_of, shift, if◌then◌else◌,
}
use xrpcserver.Env.{Env}
use xrpcserver.Rpc.{State, ◌>>=◌}
use xrpcserver.Handler.Submit.{
  transaction_digest_add, test_genesis_account_address, test_genesis_account_pri_key,
  user_a_account_address, user_a_pri_key, user_b_account_address, user_b_pri_key,
}
use xrpcserver.Handler.Transfer.{is_bad_key}
use xrpcserver.Handler.Dispatch.{no_hash}

-- The accounts whose private keys stand in the source.
abbrev pub built_in : List (String × List ℕ)
built_in =
    (test_genesis_account_address, test_genesis_account_pri_key)
    ∷ (user_a_account_address, user_a_pri_key)
    ∷ (user_b_account_address, user_b_pri_key)
    ∷ []

abbrev pub key_in : String → List (String × List ℕ) → Option (List ℕ)
key_in account [] = none
key_in account ((a, key) ∷ l) = if str_eq account a then some key else key_in account l

module _ ⦃E : Env⦄ where
  -- The sender of the handler's transaction is one of the built-in accounts, `no_hash` accepts it,
  -- and `transaction_digest_add` yields `true` and signs the transaction with the account's key, and
  -- changes nothing else. Or it is none of them, `no_hash` does not accept it, and
  -- `transaction_digest_add` yields `false` and changes nothing.
  pub transaction_digest_add-eq-no_hash :
      (s : State)
      → ((key : List ℕ) × (key_in s.tx.sender_addr built_in ≡ some key)
          × (no_hash s.tx.sender_addr ≡ true)
          × (transaction_digest_add s
              ≡ (done true, record s { tx = E.tx_hash_and_sign_calc (E.key_of key) s.tx })))
        ⊎ ((key_in s.tx.sender_addr built_in ≡ none)
            × (no_hash s.tx.sender_addr ≡ false)
            × (transaction_digest_add s ≡ (done false, s)))
  unfolding transaction_digest_add no_hash ◌>>=◌
  transaction_digest_add-eq-no_hash s =
      elim (Bool-cases (str_eq s.tx.sender_addr test_genesis_account_address)) [
        | inl e₁ ↦ rw e₁ (inl (test_genesis_account_pri_key, refl, refl, refl))
        | inr e₁ ↦ elim (Bool-cases (str_eq s.tx.sender_addr user_a_account_address)) [
          | inl e₂ ↦ rw (e₁, e₂) (inl (user_a_pri_key, refl, refl, refl))
          | inr e₂ ↦ elim (Bool-cases (str_eq s.tx.sender_addr user_b_account_address)) [
            | inl e₃ ↦ rw (e₁, e₂, e₃) (inl (user_b_pri_key, refl, refl, refl))
            | inr e₃ ↦ rw (e₁, e₂, e₃) (inr (refl, refl, refl))
          ]
        ]
      ]

-- The characters that a key may not have.
abbrev IsPlain : ℕ → Type 0
IsPlain c = (c ≢ b'#') × (c ≢ b'$')

-- A key of a property: "@", and then neither "#" nor "$".
abbrev pub IsPropertyKey : List ℕ → Type 0
IsPropertyKey [] = ⊥
IsPropertyKey (c ∷ s) = (c ≡ b'@') × All IsPlain s

shift-false : (o : Option ℕ) → is_found o ≡ false → is_found (shift o) ≡ false
shift-false none h = refl
shift-false (some i) h = h

-- The first character is none of the set, and none is found after it.
or_false :
    (b : Bool) (o : Option ℕ)
    → is_found (if b then some 0 else shift o) ≡ false
    → (b ≡ false) × (is_found o ≡ false)
or_false true o h = cc
or_false false none h = (refl, refl)
or_false false (some i) h = cc

IsPlain-sound : (s : List ℕ) → is_found (find_first_of (codes "#$") s) ≡ false → All IsPlain s
unfolding find_first_of
IsPlain-sound [] h = tt
IsPlain-sound (c ∷ s) h =
    let (special, rest) = or_false (one_of (codes "#$") c) (find_first_of (codes "#$") s) h in
    ((ground arith, ground arith), IsPlain-sound s rest)

plain_complete : (s : List ℕ) → All IsPlain s → is_found (find_first_of (codes "#$") s) ≡ false
unfolding find_first_of
plain_complete [] h = refl
plain_complete (c ∷ s) (plain, h) =
    let special : one_of (codes "#$") c ≡ false = ground arith in
    rw special (shift-false _ (plain_complete s h))

accepts : List ℕ → Bool
accepts s =
    not (found_at_zero (find_first_of (codes "@") s)) || is_found (find_first_of (codes "#$") s)

shift_zero : (o : Option ℕ) → found_at_zero (shift o) ≡ false
shift_zero none = refl
shift_zero (some i) = ground arith

at_sign_iff :
    (c : ℕ) (s : List ℕ) → (found_at_zero (find_first_of (codes "@") (c ∷ s)) ≡ true) ↔ (c ≡ b'@')
unfolding find_first_of
at_sign_iff c s = elim (Bool-cases (one_of (codes "@") c)) [
  | inl e ↦ (λ h. ground arith, λ h. rw e refl)
  | inr e ↦ (
    λ h. absurd (cc (shift_zero (find_first_of (codes "@") s), rw e at h)),
    λ h. absurd (ground arith),
  )
]

empty_refused : accepts [] ≢ false
unfolding accepts find_first_of
empty_refused h = cc

both : (a b : Bool) → (not a || b) ≡ false → (a ≡ true) × (b ≡ false)
both true b h = (refl, h)
both false b h = cc

accepts_iff : (s : List ℕ) → (accepts s ≡ false) ↔ IsPropertyKey s
unfolding accepts
accepts_iff [] = (λ h. absurd (empty_refused h), λ h. absurd h)
accepts_iff (c ∷ s) = (
  λ h.
      let (first, none_special) = both _ _ h in
      ((at_sign_iff c s).0 first, (IsPlain-sound (c ∷ s) none_special).1),
  λ (e, plain).
      let at_sign : IsPlain c = (ground arith, ground arith) in
      rw ((at_sign_iff c s).1 e) (plain_complete (c ∷ s) (at_sign, plain)),
)

-- `check_input` accepts exactly the keys that begin with "@", and after it have neither "#" nor "$".
pub is_bad_key_iff : (key : String) → (is_bad_key key ≡ false) ↔ IsPropertyKey (codes key)
unfolding is_bad_key accepts
is_bad_key_iff key = accepts_iff (codes key)
