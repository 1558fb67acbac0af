-- ===== src/Rpc/Monad.antt =====
-- The steps that the methods of `xrpc_handler` are made of.
use xrpcserver.Prelude.{
  ℕ, ◌+◌, String, [], ◌∷◌, ◌++◌, Option, none, some, ℤ, Outcome, done, thrown, undefined, or_throw,
  if◌then◌else◌,
}
use xrpcserver.Env.{Env, Effect}
use xrpcserver.Rpc.Request.{Json, Tx, State, Rpc}

module _ ⦃E : Env⦄ where
  unfoldable pub pure : {A : Type 0} → A → Rpc A
  pure a s = (done a, s)

  -- `pure tt`, at the end of a method.
  unfoldable pub done_unit : Rpc (Unit {0})
  done_unit s = (done tt, s)

  unfoldable pub lift : {A : Type 0} → Outcome A → Rpc A
  lift o s = (o, s)

  unfoldable pub gets : {A : Type 0} → (State → A) → Rpc A
  gets f s = (done (f s), s)

  unfoldable pub set_rsp_value : Json → Rpc (Unit {0})
  set_rsp_value v s = (done tt, record s { rsp = v })

  -- A call of the store that does not change it.
  unfoldable pub query : {A : Type 0} → (E.Store → A) → Rpc A
  query f s = (done (f s.store), s)

  unfoldable pub change_store : (E.Store → E.Store) → Rpc (Unit {0})
  change_store f s = (done tt, record s { world = record s.world { store = f s.store } })

  -- The next reading of the clock, the millisecond timer or `rand`.
  unfoldable pub read_clock : {A : Type 0} → (ℕ → A) → Rpc A
  read_clock f s = (done (f s.ticks), record s { world = record s.world { ticks = s.ticks + 1 } })

  unfoldable pub send : Effect E.Value E.ShardInfo → Rpc (Unit {0})
  send e s = (done tt, record s { world = record s.world { sent = s.sent ++ e ∷ [] } })

  unfoldable pub set_tx : (Tx → Tx) → Rpc (Unit {0})
  set_tx f s = (done tt, record s { tx = f s.tx })

  -- The two branches of a test for what a query has found.
  unfoldable pub when_found : {A B : Type 0} → Option A → Rpc B → (A → Rpc B) → Rpc B
  when_found none missing found = missing
  when_found (some a) missing found = found a

  -- `v[k]`. On a value that is not const this adds a missing member to `v`, as null; no request
  -- shows that but `trigger_elect`, where it is written out.
  unfoldable pub member : Json → String → Outcome Json
  member v k = if E.keyed v then done (E.get v k) else thrown

  abbrev convert : {A : Type 0} → (Json → Option A) → Outcome Json → Outcome A
  convert f (done x) = or_throw (f x)
  convert f thrown = thrown
  convert f undefined = undefined

  -- `v[k].asString()`
  unfoldable pub string_in : Json → String → Outcome String
  unfolding member
  string_in v k = convert E.as_string (member v k)

  unfoldable pub int_in : Json → String → Outcome ℤ
  unfolding member
  int_in v k = convert E.as_int (member v k)

  unfoldable pub int64_in : Json → String → Outcome ℤ
  unfolding member
  int64_in v k = convert E.as_int64 (member v k)

  unfoldable pub c_string_in : Json → String → Outcome String
  unfolding member
  c_string_in v k = convert E.as_c_string (member v k)

  -- `m_root[k].asString()`, `.asInt()`, `.asInt64()`. In the source a member that is missing is added
  -- to `m_root` as a null, which reads as it did; only `trigger_elect` passes `m_root` on as a whole,
  -- and adds what has been read by then.
  unfoldable pub root_string : String → Rpc String
  root_string k s = (string_in s.root k, s)

  unfoldable pub root_int : String → Rpc ℤ
  root_int k s = (int_in s.root k, s)

  unfoldable pub root_int64 : String → Rpc ℤ
  root_int64 k s = (int64_in s.root k, s)

  unfoldable pub item_string : String → Rpc String
  item_string k s = (string_in s.item k, s)

  -- `m_js_rsp[k] = x`
  unfoldable pub set_rsp : String → Json → Rpc (Unit {0})
  set_rsp k x s =
      if E.keyed s.rsp then (done tt, record s { rsp = E.put s.rsp k x }) else (thrown, s)

  -- `m_js_item[k] = x`
  unfoldable pub set_item : String → Json → Rpc (Unit {0})
  set_item k x s =
      if E.keyed s.item then (done tt, record s { item = E.put s.item k x }) else (thrown, s)

  -- `m_js_arrayObj.append(m_js_item)`
  unfoldable pub append_item : Rpc (Unit {0})
  append_item s =
      if E.listed s.array_obj
      then (done tt, record s { array_obj = E.append s.array_obj s.item })
      else (thrown, s)

  abbrev pub continue : {A B : Type 0} → Outcome A → (A → Rpc B) → Rpc B
  continue (done a) f s = f a s
  continue thrown f s = (thrown, s)
  continue undefined f s = (undefined, s)

  infixl 5 ◌>>=◌ ◌>>◌
  -- Opening this opens the steps above that cannot fail, and the reads of members.
  unfoldable pub ◌>>=◌ : {A B : Type 0} → Rpc A → (A → Rpc B) → Rpc B
  unfolding pure done_unit lift gets set_rsp_value query change_store read_clock send set_tx
      when_found root_string root_int root_int64 item_string
  ◌>>=◌ m f s = continue (m s).0 f (m s).1

  abbrev pub ◌>>◌ : {B : Type 0} → Rpc (Unit {0}) → Rpc B → Rpc B
  m >> k = m >>= λ _. k
