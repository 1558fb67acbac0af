-- ===== src/Env/Chain.antt =====
-- The chain's types (xchaincore.h, xhash.h, xckey.h, xstring.h): records of the members that the
-- server reads or writes, and a parameter for the rest. A `std::string` is a text whose code points
-- stand for its bytes.
use xrpcserver.Prelude.{ℕ, String, Bool, List, Option, ℤ, ◌≡◌}

-- xtransaction_t; `hidden` is whatever else the class holds.
pub record Xtransaction (Hash Hidden : Type 0) : Type 0 where
  pub transaction_type : ℤ
  pub sender_addr : String
  pub receiver_addr : String
  pub property_key : String
  pub transaction_params : String
  pub timestamp : ℕ
  pub last_msg_digest : Hash
  pub random_nounce : ℕ
  pub work_proof : ℕ
  pub tx_digest : Hash
  pub tx_signature : String
  pub edge_timestamp : ℕ
  pub origin_sender : String
  pub origin_amount : String
  pub hidden : Hidden

-- xfullunit_t
pub record Xfullunit (Hash Hidden : Type 0) : Type 0 where
  pub asset_properties : List (String × ℤ)
  pub unit_type : ℤ
  pub seq_id : ℕ
  pub associated_event_hash : Hash
  pub hidden : Hidden

pub record ChainLib : Type 1 where
  -- uint256_t, its equality, its 32 bytes, and the constructor from a pointer to bytes, which has
  -- no defined result where there are too few of them
  pub Hash : Type 0
  pub hash_eq : Hash → Hash → Bool
  pub hash_bytes : Hash → String
  pub hash_of : String → Option Hash
  pub zero_hash : Hash
  pub base64_encode : String → String
  pub base64_decode : String → String
  -- xecprikey_t, from 32 bytes
  pub Key : Type 0
  pub key_of : List ℕ → Key
  pub key_bytes : Key → String
  -- xecpubkey_t
  pub PublicKey : Type 0
  pub get_public_key : Key → PublicKey
  pub public_key_bytes : PublicKey → String
  pub to_address : PublicKey → String
  -- xtransaction_t
  pub TxHidden : Type 0
  pub new_tx : Xtransaction Hash TxHidden
  pub sha256 : Xtransaction Hash TxHidden → Hash
  pub sign_calc : Key → Xtransaction Hash TxHidden → Xtransaction Hash TxHidden
  pub tx_hash_and_sign_calc : Key → Xtransaction Hash TxHidden → Xtransaction Hash TxHidden
  pub tx_hash_and_sign_verify : Xtransaction Hash TxHidden → Bool
  pub serialize_no_type : Xtransaction Hash TxHidden → String
  -- enum_xtransaction_type
  pub type_create_account : ℤ
  pub type_transfer_asset_in : ℤ
  pub type_transfer_asset_out : ℤ
  pub type_data_property_operation : ℤ
  -- xfullunit_t
  pub UnitHidden : Type 0
  pub new_unit : Xfullunit Hash UnitHidden
  pub full_unit_type : ℤ
  pub create_unit_digest_and_signature : Key → Xfullunit Hash UnitHidden → Xfullunit Hash UnitHidden
  -- xaccount_snap_t; a getter with an out parameter maps what that held before the call to what it
  -- holds after; `unit_snap` is the associated event hashes of the units
  pub AccountSnap : Type 0
  pub sequence_id : AccountSnap → ℕ
  pub create_time : AccountSnap → ℕ
  pub unit_snap : AccountSnap → List Hash
  pub get_balance : AccountSnap → String → String → String
  pub get_property : AccountSnap → String → String → Bool × String
  pub get_all_property : AccountSnap → List (String × String)

module _ (C : ChainLib) where
  open C use {Key, Hash, TxHidden, tx_hash_and_sign_calc}

  -- The documented behaviour of the library that some theorems use: to sign a transaction leaves what
  -- it says as it is.
  pub record ChainLaws : Type 0 where
    pub type-calc :
        (k : Key) (t : Xtransaction Hash TxHidden)
        → (tx_hash_and_sign_calc k t).transaction_type ≡ t.transaction_type
    pub sender-calc :
        (k : Key) (t : Xtransaction Hash TxHidden)
        → (tx_hash_and_sign_calc k t).sender_addr ≡ t.sender_addr
    pub receiver-calc :
        (k : Key) (t : Xtransaction Hash TxHidden)
        → (tx_hash_and_sign_calc k t).receiver_addr ≡ t.receiver_addr
    pub key-calc :
        (k : Key) (t : Xtransaction Hash TxHidden)
        → (tx_hash_and_sign_calc k t).property_key ≡ t.property_key
    pub params-calc :
        (k : Key) (t : Xtransaction Hash TxHidden)
        → (tx_hash_and_sign_calc k t).transaction_params ≡ t.transaction_params
