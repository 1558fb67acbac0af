-- ===== src/Env.antt =====
-- What the server uses and does not implement, as one parameter: the JSON library, the chain's
-- types, and the node that the process runs in. `Env.State` is the state over such a parameter.
mod Json
mod Chain
mod Node
pub use Json.{JsonLib, JsonLaws}
pub use Chain.{Xtransaction, Xfullunit, ChainLib, ChainLaws}
pub use Node.{
  NodeLib, XtopMessage, Effect, broadcast, broadcast_ex, account_delete, account_sync,
  trigger_elect,
}

pub record Env : Type 1 where
  pub json : JsonLib
  pub open json use *
  pub chain : ChainLib
  pub open chain use *
  pub node : NodeLib json chain
  pub open node use *
