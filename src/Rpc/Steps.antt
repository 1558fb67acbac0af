-- ===== src/Rpc/Steps.antt =====
-- How a method runs, one step after another, where each step ends normally.
use xrpcserver.Prelude.{String, ◌≡◌, refl, true, done}
use xrpcserver.Env.{Env}
use xrpcserver.Rpc.Request.{Json, State, Rpc}
use xrpcserver.Rpc.Monad.{◌>>=◌, set_item, set_rsp, append_item}

module _ ⦃E : Env⦄ where
  -- The rest of a block, after a step that yields `a`.
  pub step :
      {A B : Type 0} {s s' : State} {a : A} (m : Rpc A) (rest : A → Rpc B)
      → m s ≡ (done a, s')
      → (m >>= rest) s ≡ rest a s'
  unfolding ◌>>=◌
  step m rest e = rw e refl

  pub set_item_lem :
      (k : String) (x : Json) (s : State)
      → E.keyed s.item ≡ true
      → set_item k x s ≡ (done tt, record s { item = E.put s.item k x })
  unfolding set_item
  set_item_lem k x s h = rw h refl

  pub set_rsp_lem :
      (k : String) (x : Json) (s : State)
      → E.keyed s.rsp ≡ true
      → set_rsp k x s ≡ (done tt, record s { rsp = E.put s.rsp k x })
  unfolding set_rsp
  set_rsp_lem k x s h = rw h refl

  pub append_item_lem :
      (s : State)
      → E.listed s.array_obj ≡ true
      → append_item s ≡ (done tt, record s { array_obj = E.append s.array_obj s.item })
  unfolding append_item
  append_item_lem s h = rw h refl
