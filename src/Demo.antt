-- ===== src/Demo.antt =====
-- A small node, for the tests: JSON values as a data type, hashes as numbers, and a store whose
-- answers are members of a record.
mod Json
mod Node
pub use Json.{
  Value, get, elements, null, text, int, arr, obj, no_items, item, no_fields, field, demo_json,
  demo_json_laws,
}
pub use Node.{DemoStore, DemoTx, demo, demo_chain_laws}
