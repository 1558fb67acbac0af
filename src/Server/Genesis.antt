-- ===== src/Server/Genesis.antt =====
-- xrpc_server.cpp: `genesis_account_create`.
use xrpcserver.Prelude.{
  ℕ, ◌+◌, String, List, [], ◌∷◌, Bool, false, not, ◌||◌, Option, none, some, ℤ, eq_ℤ, Outcome, done,
  thrown, stoll, str_eq, if◌then◌else◌,
}
use xrpcserver.Env.{Env, Xfullunit}
use xrpcserver.Rpc.{Tx, World}
use xrpcserver.Handler.{test_genesis_account_address, test_genesis_account_pri_key}

-- `insert` of a map leaves an entry that is there.
unfoldable pub insert_new : String → ℤ → List (String × ℤ) → List (String × ℤ)
insert_new key amount [] = (key, amount) ∷ []
insert_new key amount ((k, v) ∷ m) =
    if str_eq k key then (k, v) ∷ m else (k, v) ∷ insert_new key amount m

module _ ⦃E : Env⦄ where
  abbrev pub Fullunit : Type 0
  Fullunit = Xfullunit E.Hash E.UnitHidden

  -- The transaction, signed.
  unfoldable pub genesis_tx : ℕ → Tx
  genesis_tx now =
      let tx : Tx = record E.new_tx {
        transaction_type = E.type_create_account;
        sender_addr = test_genesis_account_address;
        receiver_addr = test_genesis_account_address;
        property_key = "$$";
        transaction_params = "200000000000";
        timestamp = 0;
        random_nounce = 0;
        work_proof = 0;
      } in
      record (E.tx_hash_and_sign_calc (E.key_of test_genesis_account_pri_key) tx) {
        edge_timestamp = now;
      }

  -- The unit, signed.
  unfoldable pub genesis_unit : Tx → ℤ → Fullunit
  unfolding insert_new
  genesis_unit tx amount =
      let unit : Fullunit = record E.new_unit {
        asset_properties = insert_new tx.property_key amount E.new_unit.asset_properties;
        unit_type = E.full_unit_type;
        seq_id = 1;
        associated_event_hash = tx.tx_digest;
      } in
      E.create_unit_digest_and_signature (E.key_of test_genesis_account_pri_key) unit

  -- `update_event` on the transaction and the unit.
  unfoldable pub genesis_store : Tx → ℤ → World → Outcome Bool × World
  unfolding genesis_unit
  genesis_store tx amount world =
      let (ret, store) = E.update_event tx (genesis_unit tx amount) world.store in
      (
        done (eq_ℤ ret E.store_ok || eq_ℤ ret E.create_account_is_exist),
        record world { store = store },
      )

  abbrev pub with_amount : Tx → Option ℤ → World → Outcome Bool × World
  with_amount tx none world = (thrown, world)
  with_amount tx (some amount) world = genesis_store tx amount world

  unfoldable pub genesis_account_create : World → Outcome Bool × World
  unfolding genesis_store
  genesis_account_create world =
      let tx = genesis_tx (E.timestamp_now_ms world.ticks) in
      let world' : World = record world { ticks = world.ticks + 1 } in
      if not (E.tx_hash_and_sign_verify tx)
      then (done false, world')
      else with_amount tx (stoll tx.transaction_params) world'
