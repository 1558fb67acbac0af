-- ===== src/Rpc/Request.antt =====
-- The members of `xrpc_handler` (xrpc_handler.hpp), and the world that a request acts on.
use xrpcserver.Prelude.{ℕ, String, List, Outcome}
use xrpcserver.Env.{Env, Xtransaction, Effect}

module _ ⦃E : Env⦄ where
  abbrev pub Json : Type 0
  Json = E.Value

  abbrev pub Tx : Type 0
  Tx = Xtransaction E.Hash E.TxHidden

  -- `ticks` counts the readings of the clock, the timer and `rand`; `sent` is in order of time.
  pub record World : Type 0 where
    pub store : E.Store
    pub sent : List (Effect E.Value E.ShardInfo)
    pub ticks : ℕ

  pub record State : Type 0 where
    pub request_http : String
    pub root : E.Value
    pub rsp : E.Value
    pub array_obj : E.Value
    pub item : E.Value
    pub tx : Xtransaction E.Hash E.TxHidden
    pub world : World
    pub open world use *

  -- A method: what it wrote before it threw stays written.
  abbrev pub Rpc : Type 0 → Type 0
  Rpc A = State → Outcome A × State
