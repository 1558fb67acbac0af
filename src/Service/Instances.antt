-- ===== src/Service/Instances.antt =====
-- The list of the instances of `CallData`: what its operations do to the state of each.
use xrpcserver.Prelude.{
  ℕ, ◌+◌, ◌<◌, List, [], ◌∷◌, ◌++◌, ◌≡◌, ◌≢◌, refl, inl, inr, none, some, Bool-cases, All, arith,
  ◌==◌,
}
use xrpcserver.Service.Async.{CallStatus, status_of, set_status, delete}

abbrev pub Instances : Type 0
Instances = List (ℕ × CallStatus)

-- No two instances have the same address, and all addresses are below `n`.
abbrev pub Apart : ℕ → Instances → Type 0
Apart n [] = Unit
Apart n ((a, st) ∷ l) = (a < n) × All (λ (i : ℕ × CallStatus). i.0 ≢ a) l × Apart n l

pub status-concat :
    (r a : ℕ) (st : CallStatus) (l : Instances)
    → r ≢ a
    → status_of r (l ++ (a, st) ∷ []) ≡ status_of r l
unfolding status_of
status-concat r a st [] h = ground arith
status-concat r a st ((b, old) ∷ l) h = ground (arith, status-concat r a st l h)

All-concat :
    (b n : ℕ) (st : CallStatus) (l : Instances)
    → b < n
    → All (λ (i : ℕ × CallStatus). i.0 ≢ b) l
    → All (λ (i : ℕ × CallStatus). i.0 ≢ b) (l ++ (n, st) ∷ [])
All-concat b n st [] lt h = (λ e. absurd (omega arith), tt)
All-concat b n st ((a, old) ∷ l) lt (d, h) = (d, All-concat b n st l lt h)

pub Apart-concat :
    (n : ℕ) (st : CallStatus) (l : Instances) → Apart n l → Apart (n + 1) (l ++ (n, st) ∷ [])
Apart-concat n st [] h = (omega arith, tt, tt)
Apart-concat n st ((a, old) ∷ l) (lt, d, h) =
    (omega arith, All-concat a n st l lt d, Apart-concat n st l h)

All-set_status :
    (b tag : ℕ) (st : CallStatus) (l : Instances)
    → All (λ (i : ℕ × CallStatus). i.0 ≢ b) l
    → All (λ (i : ℕ × CallStatus). i.0 ≢ b) (set_status tag st l)
unfolding set_status
All-set_status b tag st [] h = tt
All-set_status b tag st ((a, old) ∷ l) (d, h) = elim (Bool-cases (a == tag)) [
  | inl e ↦ rw e (d, h)
  | inr e ↦ rw e (d, All-set_status b tag st l h)
]

pub Apart-set_status :
    (n tag : ℕ) (st : CallStatus) (l : Instances) → Apart n l → Apart n (set_status tag st l)
unfolding set_status
Apart-set_status n tag st [] h = tt
Apart-set_status n tag st ((a, old) ∷ l) (lt, d, h) = elim (Bool-cases (a == tag)) [
  | inl e ↦ rw e (lt, d, h)
  | inr e ↦ rw e (lt, All-set_status a tag st l d, Apart-set_status n tag st l h)
]

All-delete :
    (b tag : ℕ) (l : Instances)
    → All (λ (i : ℕ × CallStatus). i.0 ≢ b) l
    → All (λ (i : ℕ × CallStatus). i.0 ≢ b) (delete tag l)
unfolding delete
All-delete b tag [] h = tt
All-delete b tag ((a, old) ∷ l) (d, h) = elim (Bool-cases (a == tag)) [
  | inl e ↦ rw e h
  | inr e ↦ rw e (d, All-delete b tag l h)
]

pub Apart-delete : (n tag : ℕ) (l : Instances) → Apart n l → Apart n (delete tag l)
unfolding delete
Apart-delete n tag [] h = tt
Apart-delete n tag ((a, old) ∷ l) (lt, d, h) = elim (Bool-cases (a == tag)) [
  | inl e ↦ rw e h
  | inr e ↦ rw e (lt, All-delete a tag l d, Apart-delete n tag l h)
]

-- An address that no instance has.
status_none :
    (r : ℕ) (l : Instances) → All (λ (i : ℕ × CallStatus). i.0 ≢ r) l → status_of r l ≡ none
unfolding status_of
status_none r [] h = refl
status_none r ((a, st) ∷ l) (d, h) = ground (arith, status_none r l h)

pub status-set_status :
    (r tag : ℕ) (st : CallStatus) (l : Instances)
    → r ≢ tag
    → status_of r (set_status tag st l) ≡ status_of r l
unfolding status_of set_status
status-set_status r tag st [] h = refl
status-set_status r tag st ((a, old) ∷ l) h = ground (arith, status-set_status r tag st l h)

pub status-set_status_self :
    (tag : ℕ) (st old : CallStatus) (l : Instances)
    → status_of tag l ≡ some old
    → status_of tag (set_status tag st l) ≡ some st
unfolding status_of set_status
status-set_status_self tag st old [] e = cc
status-set_status_self tag st old ((a, o) ∷ l) e =
    ground (arith, status-set_status_self tag st old l)

pub status-delete :
    (r tag : ℕ) (l : Instances) → r ≢ tag → status_of r (delete tag l) ≡ status_of r l
unfolding status_of delete
status-delete r tag [] h = refl
status-delete r tag ((a, old) ∷ l) h = ground (arith, status-delete r tag l h)

pub status-delete_self :
    (n tag : ℕ) (l : Instances) → Apart n l → status_of tag (delete tag l) ≡ none
unfolding status_of delete
status-delete_self n tag [] h = refl
status-delete_self n tag ((a, old) ∷ l) (lt, d, h) = elim (Bool-cases (a == tag)) [
  | inl e ↦ let same : a ≡ tag = ground arith in rw e (status_none tag l (rw same at d))
  | inr e ↦ rw (e, e) (status-delete_self n tag l h)
]

-- An address below all new ones.
pub status-concat_lt :
    (r n : ℕ) (st : CallStatus) (l : Instances)
    → r < n
    → status_of r (l ++ (n, st) ∷ []) ≡ status_of r l
status-concat_lt r n st l h = status-concat r n st l λ e. absurd (omega arith)

pub status-lt :
    (r n : ℕ) (st : CallStatus) (l : Instances) → Apart n l → status_of r l ≡ some st → r < n
unfolding status_of
status-lt r n st [] h e = cc
status-lt r n st ((a, old) ∷ l) (lt, d, h) e = ground (arith, status-lt r n st l h)

-- The new address.
pub status-concat_new :
    (n : ℕ) (st : CallStatus) (l : Instances)
    → Apart n l
    → status_of n (l ++ (n, st) ∷ []) ≡ some st
unfolding status_of
status-concat_new n st [] h = ground arith
status-concat_new n st ((a, old) ∷ l) (lt, d, h) = ground (arith, status-concat_new n st l h)
