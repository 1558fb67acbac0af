-- ===== src/Service/Waiting.antt =====
-- How many instances of the asynchronous service wait: what the operations on the list do to it.
use xrpcserver.Prelude.{
  ℕ, ◌+◌, List, [], ◌∷◌, ◌++◌, ◌≡◌, ◌≢◌, refl, inl, inr, Bool-cases, some, done, arith, ◌==◌,
}
use xrpcserver.Service.Async.{
  CallStatus, create, process, finish, status_of, set_status, delete, count_waiting,
}

pub done-injective {ℓ} : {A : Type ℓ} {a b : A} → done a ≡ done b → a ≡ b
done-injective e = cc

-- No instance is left in the state CREATE, which its constructor leaves.
abbrev pub Started : List (ℕ × CallStatus) → Type 0
Started [] = Unit
Started ((a, create) ∷ l) = ⊥
Started ((a, st) ∷ l) = Started l

pub count_waiting-concat :
    (l : List (ℕ × CallStatus)) (a : ℕ)
    → count_waiting (l ++ (a, process) ∷ []) ≡ count_waiting l + 1
unfolding count_waiting
count_waiting-concat [] a = refl
count_waiting-concat ((b, create) ∷ l) a = count_waiting-concat l a
count_waiting-concat ((b, process) ∷ l) a = ground (arith, count_waiting-concat l a)
count_waiting-concat ((b, finish) ∷ l) a = count_waiting-concat l a

pub Started-concat :
    (l : List (ℕ × CallStatus)) (a : ℕ) → Started l → Started (l ++ (a, process) ∷ [])
Started-concat [] a h = tt
Started-concat ((b, create) ∷ l) a h = h
Started-concat ((b, process) ∷ l) a h = Started-concat l a h
Started-concat ((b, finish) ∷ l) a h = Started-concat l a h

-- A waiting instance that finishes.
pub count_waiting-set_status :
    (tag : ℕ) (l m : List (ℕ × CallStatus))
    → status_of tag l ≡ some process
    → count_waiting (set_status tag finish (l ++ m)) + 1 ≡ count_waiting (l ++ m)
unfolding count_waiting set_status status_of
count_waiting-set_status tag [] m e = cc
count_waiting-set_status tag ((b, create) ∷ l) m e =
    ground (arith, count_waiting-set_status tag l m)
count_waiting-set_status tag ((b, process) ∷ l) m e =
    ground (arith, count_waiting-set_status tag l m)
count_waiting-set_status tag ((b, finish) ∷ l) m e =
    ground (arith, count_waiting-set_status tag l m)

pub Started-set_status :
    (tag : ℕ) (l : List (ℕ × CallStatus)) → Started l → Started (set_status tag finish l)
unfolding set_status
Started-set_status tag [] h = tt
Started-set_status tag ((b, create) ∷ l) h = absurd h
Started-set_status tag ((b, process) ∷ l) h = elim (Bool-cases (b == tag)) [
  | inl e ↦ rw e h
  | inr e ↦ rw e (Started-set_status tag l h)
]
Started-set_status tag ((b, finish) ∷ l) h = elim (Bool-cases (b == tag)) [
  | inl e ↦ rw e h
  | inr e ↦ rw e (Started-set_status tag l h)
]

-- A finished instance that is deleted.
pub count_waiting-delete :
    (tag : ℕ) (l : List (ℕ × CallStatus))
    → status_of tag l ≡ some finish
    → count_waiting (delete tag l) ≡ count_waiting l
unfolding count_waiting delete status_of
count_waiting-delete tag [] e = cc
count_waiting-delete tag ((b, create) ∷ l) e = ground (arith, count_waiting-delete tag l)
count_waiting-delete tag ((b, process) ∷ l) e = ground (arith, count_waiting-delete tag l)
count_waiting-delete tag ((b, finish) ∷ l) e = ground (arith, count_waiting-delete tag l)

pub Started-delete : (tag : ℕ) (l : List (ℕ × CallStatus)) → Started l → Started (delete tag l)
unfolding delete
Started-delete tag [] h = tt
Started-delete tag ((b, create) ∷ l) h = absurd h
Started-delete tag ((b, process) ∷ l) h = elim (Bool-cases (b == tag)) [
  | inl e ↦ rw e h
  | inr e ↦ rw e (Started-delete tag l h)
]
Started-delete tag ((b, finish) ∷ l) h = elim (Bool-cases (b == tag)) [
  | inl e ↦ rw e h
  | inr e ↦ rw e (Started-delete tag l h)
]

pub status-Started :
    (tag : ℕ) (l : List (ℕ × CallStatus)) → Started l → status_of tag l ≢ some create
unfolding status_of
status-Started tag [] h = cc
status-Started tag ((b, create) ∷ l) h = absurd h
status-Started tag ((b, process) ∷ l) h = λ e. ground (arith, status-Started tag l h)
status-Started tag ((b, finish) ∷ l) h = λ e. ground (arith, status-Started tag l h)
