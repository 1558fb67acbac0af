-- ===== src/Env/Node.antt =====
-- The node that the server runs in: the store, the message dispatcher, the account
-- synchronisation, the elections, the configuration, the clock and `rand`.
use xrpcserver.Prelude.{ℕ, String, Bool, List, Option, ℤ}
use xrpcserver.Env.Json.{JsonLib}
use xrpcserver.Env.Chain.{ChainLib, Xtransaction, Xfullunit}

-- xtop_message_t
pub record XtopMessage : Type 0 where
  pub msg_type : ℤ
  pub content : String
  pub transaction_unique_seqno : ℕ

pub record NodeLib (J : JsonLib) (C : ChainLib) : Type 1 where
  -- The store. A query does not change it; one that the server ignores unless it succeeds is an
  -- option. The pointers in the returned lists are not null.
  pub Store : Type 0
  -- the code returned, and the balance
  pub get_account_balance : Store → String → String → ℤ × String
  pub account_not_exist : ℤ
  pub no_property_key : ℤ
  pub get_account_snap_info : Store → String → Option C.AccountSnap
  pub get_settle_blocks : Store → String → List (Xtransaction C.Hash C.TxHidden)
  pub get_receive_blocks : Store → String → List (Xtransaction C.Hash C.TxHidden)
  pub get_last_hash : Store → String → Option C.Hash
  pub exist_account : Store → String → Bool
  pub query_online_tx : Store → Option (List (Xtransaction C.Hash C.TxHidden))
  pub get_stat_info : Store → J.Value
  pub delete_account : String → Store → Store
  pub account_snap_delete : String → Store → Store
  pub update_event :
      Xtransaction C.Hash C.TxHidden → Xfullunit C.Hash C.UnitHidden → Store → ℤ × Store
  pub store_ok : ℤ
  pub create_account_is_exist : ℤ
  -- messages, elections and the configuration
  pub msg_type_proposal_message : ℤ
  pub node_type_consensus_node : ℤ
  pub node_type_rpc : ℤ
  pub node_type : ℤ
  pub ShardInfo : Type 0
  pub get_account_shard_info : String → ShardInfo
  pub trigger_elect_reply : J.Value → J.Value
  -- Does asio open an acceptor at this host and port? It throws where it does not.
  pub can_accept : String → ℕ → Bool
  -- The n-th reading of the clock (seconds and microseconds), of the millisecond timer, of `rand`.
  pub timeofday : ℕ → ℕ × ℕ
  pub timestamp_now_ms : ℕ → ℕ
  pub rand : ℕ → ℕ

-- What the server has told other parts of the system to do.
pub data Effect (Value ShardInfo : Type 0) : Type 0 where
  broadcast_ex : XtopMessage → Effect Value ShardInfo
  broadcast : XtopMessage → ℤ → ShardInfo → Effect Value ShardInfo
  account_delete : String → Effect Value ShardInfo
  account_sync : String → Effect Value ShardInfo
  trigger_elect : Value → Effect Value ShardInfo
