-- ===== src/Server/Start.antt =====
-- When the HTTP server starts.
use xrpcserver.Prelude.{
  [], ◌+◌, ◌≡◌, ◌⊎◌, refl, inl, inr, Bool, Bool-cases, true, false, ◌||◌, Option, none, some, ℤ,
  eq_ℤ, Outcome, done, thrown, undefined, stoll, arith,
}
use xrpcserver.Env.{Env}
use xrpcserver.Rpc.{Tx, World}
use xrpcserver.Server.Genesis.{
  genesis_tx, genesis_unit, genesis_store, with_amount, genesis_account_create,
}
use xrpcserver.Server.Listener.{Running, returned, looping, started, run}

module _ ⦃E : Env⦄ where
  -- The genesis transaction of this start.
  abbrev pub GenesisTx : World → Tx
  GenesisTx w = genesis_tx (E.timestamp_now_ms w.ticks)

  -- What the store makes of it, with this amount: a code, and the store after it.
  abbrev pub update : World → ℤ → ℤ × E.Store
  update w amount = E.update_event (GenesisTx w) (genesis_unit (GenesisTx w) amount) w.store

  -- The transaction is verified, its amount reads as a number, and the store has taken the
  -- transaction and its unit, or had the account already; no message was sent.
  pub record IsCreated (w w' : World) : Type 0 where
    pub amount : ℤ
    pub verified : E.tx_hash_and_sign_verify (GenesisTx w) ≡ true
    pub reads : stoll (GenesisTx w).transaction_params ≡ some amount
    pub accepted :
        (eq_ℤ (update w amount).0 E.store_ok ≡ true)
        ⊎ (eq_ℤ (update w amount).0 E.create_account_is_exist ≡ true)
    pub stored : w'.store ≡ (update w amount).1
    pub silent : w'.sent ≡ w.sent

  done-injective : {a b : Bool} → ◌≡◌ {A = Outcome Bool} (done a) (done b) → a ≡ b
  done-injective e = cc

  or_cases : (a b : Bool) → (a || b) ≡ true → (a ≡ true) ⊎ (b ≡ true)
  or_cases a b e = ground arith

  genesis-IsCreated :
      (w : World)
      → (genesis_account_create w).0 ≡ done true
      → IsCreated w (genesis_account_create w).1
  unfolding genesis_account_create genesis_store
  genesis-IsCreated w e = elim (Bool-cases (E.tx_hash_and_sign_verify (GenesisTx w))) [
    | inr bad ↦ let impossible = done-injective (rw bad at e) in cc
    | inl good ↦ rw good (made (stoll (GenesisTx w).transaction_params) refl good (rw good at e))
  ]
    where
      w₁ : World
      w₁ = record w { ticks = w.ticks + 1 }

      made :
          (o : Option ℤ)
          → stoll (GenesisTx w).transaction_params ≡ o
          → E.tx_hash_and_sign_verify (GenesisTx w) ≡ true
          → (with_amount (GenesisTx w) o w₁).0 ≡ done true
          → IsCreated w (with_amount (GenesisTx w) o w₁).1
      made none reads good e' = cc
      made (some amount) reads good e' = record {
        amount = amount;
        verified = good;
        reads = reads;
        accepted = or_cases _ _ (done-injective e');
        stored = refl;
        silent = refl;
      }

  -- If `run` comes to its loop, the genesis account has been created, or was there; it waits for one
  -- connection. If it returns, it returns 0.
  pub run-IsCreated :
      (w : World) (r : Running)
      → (run w).0 ≡ done r
      → ((r ≡ looping (record { accepting = 1; connections = [] })) × IsCreated w (run w).1)
        ⊎ (r ≡ returned 0) × ((genesis_account_create w).0 ≡ done false)
  unfolding run
  run-IsCreated w r e = begun (genesis_account_create w).0 refl e
    where
      begun :
          (o : Outcome Bool)
          → (genesis_account_create w).0 ≡ o
          → started o ≡ done r
          → ((r ≡ looping (record { accepting = 1; connections = [] }))
              × IsCreated w (genesis_account_create w).1)
            ⊎ (r ≡ returned 0) × ((genesis_account_create w).0 ≡ done false)
      begun (done true) e₁ e₂ = inl (cc, genesis-IsCreated w e₁)
      begun (done false) e₁ e₂ = inr (cc, e₁)
      begun thrown e₁ e₂ = cc
      begun undefined e₁ e₂ = cc
