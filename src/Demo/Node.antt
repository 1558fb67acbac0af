-- ===== src/Demo/Node.antt =====
-- A chain and a node for the tests.
use xrpcserver.Prelude.{
  ℕ, ◌+◌, String, List, [], ◌∷◌, none, some, Bool, true, false, not, pos, str_eq, ◌==◌, is_empty,
  if◌then◌else◌, refl,
}
use xrpcserver.Env.{Env, ChainLib, ChainLaws, Xtransaction}
use xrpcserver.Demo.Json.{null, demo_json}

abbrev pub DemoTx : Type 0
DemoTx = Xtransaction ℕ (Unit {0})

-- A transaction is verified if its signature is "good", as the keys make it. An account is a pair of
-- its last hash and the property "@name".
abbrev pub demo_chain : ChainLib
demo_chain = record {
  Hash = ℕ;
  hash_eq = λ a b. a == b;
  hash_bytes = λ h. "hash";
  hash_of = λ s. if is_empty s then none else some 7;
  zero_hash = 0;
  base64_encode = λ s. s;
  base64_decode = λ s. s;
  Key = List ℕ;
  key_of = λ k. k;
  key_bytes = λ k. "key";
  PublicKey = List ℕ;
  get_public_key = λ k. k;
  public_key_bytes = λ k. "public";
  to_address = λ k. "address";
  TxHidden = Unit;
  new_tx = record {
    transaction_type = pos 0;
    sender_addr = "";
    receiver_addr = "";
    property_key = "";
    transaction_params = "";
    timestamp = 0;
    last_msg_digest = 0;
    random_nounce = 0;
    work_proof = 0;
    tx_digest = 0;
    tx_signature = "";
    edge_timestamp = 0;
    origin_sender = "";
    origin_amount = "";
    hidden = tt;
  };
  sha256 = λ t. 1;
  sign_calc = λ k t. record t { tx_signature = "good" };
  tx_hash_and_sign_calc = λ k t. record t { tx_signature = "good" };
  tx_hash_and_sign_verify = λ t. str_eq t.tx_signature "good";
  serialize_no_type = λ t. t.receiver_addr;
  type_create_account = pos 0;
  type_transfer_asset_in = pos 4;
  type_transfer_asset_out = pos 1;
  type_data_property_operation = pos 3;
  UnitHidden = Unit;
  new_unit = record {
    asset_properties = [];
    unit_type = pos 0;
    seq_id = 0;
    associated_event_hash = 0;
    hidden = tt;
  };
  full_unit_type = pos 1;
  create_unit_digest_and_signature = λ k u. u;
  AccountSnap = ℕ × String;
  sequence_id = λ a. 1;
  create_time = λ a. 2;
  unit_snap = λ a. a.0 ∷ [];
  get_balance = λ a k b. b;
  get_property = λ a k b. if str_eq k "@name" then (true, a.1) else (false, b);
  get_all_property = λ a. ("@name", a.1) ∷ [];
}

pub demo_chain_laws : ChainLaws demo_chain
demo_chain_laws = record {
  type-calc = λ k t. refl;
  sender-calc = λ k t. refl;
  receiver-calc = λ k t. refl;
  key-calc = λ k t. refl;
  params-calc = λ k t. refl;
}

-- Every account of the node has the same balance, blocks and last hash.
pub record DemoStore : Type 0 where
  pub balance : String
  pub settle : List DemoTx
  pub receive : List DemoTx
  pub known : Bool
  pub last_hash : ℕ

abbrev pub demo : Env
demo = record {
  json = demo_json;
  chain = demo_chain;
  node = record {
    Store = DemoStore;
    get_account_balance = λ s a k. (if s.known then pos 0 else pos 1, s.balance);
    account_not_exist = pos 1;
    no_property_key = pos 2;
    get_account_snap_info = λ s a. if s.known then some (s.last_hash, a) else none;
    get_settle_blocks = λ s a. s.settle;
    get_receive_blocks = λ s a. s.receive;
    get_last_hash = λ s a. if s.known then some s.last_hash else none;
    exist_account = λ s a. s.known;
    query_online_tx = λ s. some s.settle;
    get_stat_info = λ s. null;
    delete_account = λ a s. record s { known = false };
    account_snap_delete = λ a s. record s { known = false };
    update_event = λ t u s. (pos 0, record s { known = true });
    store_ok = pos 0;
    create_account_is_exist = pos 1;
    msg_type_proposal_message = pos 9;
    node_type_consensus_node = pos 5;
    node_type_rpc = pos 6;
    node_type = pos 6;
    ShardInfo = String;
    get_account_shard_info = λ a. a;
    trigger_elect_reply = λ v. v;
    can_accept = λ host port. not (is_empty host);
    timeofday = λ n. (100 + n, 5000);
    timestamp_now_ms = λ n. 1000 + n;
    rand = λ n. n;
  };
}
