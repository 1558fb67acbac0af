-- ===== src/Handler/Info.antt =====
-- xrpc_handler.cpp: what `account_info` answers, and what its "give" says of `give`.
use xrpcserver.Prelude.{
  String, ◌≡◌, ◌⊎◌, refl, inl, inr, ◌∙◌, ap, Bool, Bool-cases, true, ◌||◌, ltb, length, any, back,
  pos, some, done, or_undefined, to_string, if◌then◌else◌,
}
use xrpcserver.Base.{xrpc_already_give, xrpc_server_account_not_found}
use xrpcserver.Env.{Env, JsonLaws}
use xrpcserver.Rpc.{
  Json, State, Rpc, ◌>>=◌, string_in, set_rsp, query, root_string, when_found, lift, done_unit,
}
use xrpcserver.Rpc.Steps.{step, set_rsp_lem}
use xrpcserver.Utility.{hash_to_json_string}
use xrpcserver.Handler.Response.{set_result_ok, fail}
use xrpcserver.Handler.Query.{account_info, is_asset_in}
use xrpcserver.Handler.Transfer.{check_gift, accept}
use xrpcserver.Handler.Members.{same, other}
use xrpcserver.Handler.Answers.{Result}

module _ ⦃E : Env⦄ where
  -- The members of `v` say what the account's balance, sequence number, last hash, time of creation
  -- and name are.
  pub record IsInfo (snap : E.AccountSnap) (hash : E.Hash) (v : Json) : Type 0 where
    pub balance : E.get v "balance" ≡ E.of_string (E.get_balance snap "$$" "0")
    pub sequence : E.get v "sequence" ≡ E.of_string (to_string (E.sequence_id snap))
    pub last_hash : E.get v "lasthash" ≡ E.of_string (hash_to_json_string hash)
    pub create_time : E.get v "createtime" ≡ E.of_string (to_string (E.create_time snap))
    pub name : E.get v "property_value" ≡ E.of_string (E.get_property snap "@name" "").1

  abbrev result_value : Json → Json
  result_value v = E.put v "Result" (E.of_int (pos 1))

  abbrev numbers_value : E.AccountSnap → Json → Json
  numbers_value snap v =
      E.put (E.put v "balance" (E.of_string (E.get_balance snap "$$" "0"))) "sequence"
        (E.of_string (to_string (E.sequence_id snap)))

  abbrev hash_value : E.AccountSnap → E.Hash → Json → Json
  hash_value snap hash v =
      E.put (E.put v "lasthash" (E.of_string (hash_to_json_string hash))) "createtime"
        (E.of_string (to_string (E.create_time snap)))

  abbrev name_value : E.AccountSnap → Json → Json
  name_value snap v =
      E.put (E.put v "property_value" (E.of_string (E.get_property snap "@name" "").1)) "give"
        (E.of_int (pos 1))

  abbrev info_value : E.AccountSnap → E.Hash → Json → Json
  info_value snap hash v =
      name_value snap (hash_value snap hash (numbers_value snap (result_value v)))

  -- Has a transfer come in for the account, or does a block wait for it?
  abbrev has_received : State → String → Bool
  has_received s account =
      any is_asset_in (E.get_settle_blocks s.store account)
      || ltb 0 (length (E.get_receive_blocks s.store account))

  -- In the same store, the checks of `give` do this with an account that exists, and refuse one that
  -- does not.
  abbrev pub Gives : State → String → Rpc (Unit {0}) → Type 0
  Gives s account m =
      (t : State)
      → t.store ≡ s.store
      → check_gift account t
        ≡ (if E.exist_account s.store account then m t else fail xrpc_server_account_not_found t)

  -- The end of `account_info`, from the settled blocks on.
  give_told : String → Rpc (Unit {0})
  give_told account = do
    settle_list ← query (λ store. E.get_settle_blocks store account)
    if any is_asset_in settle_list then set_rsp "give" (E.of_int (pos 0)) else do
      receive_list ← query (λ store. E.get_receive_blocks store account)
      if ltb 0 (length receive_list) then set_rsp "give" (E.of_int (pos 0)) else done_unit

  module _ (L : JsonLaws E.json) where
    account_info_lem :
        (s : State) (account : String) (snap : E.AccountSnap) (hash : E.Hash)
        → string_in s.root "account" ≡ done account
        → E.get_account_snap_info s.store account ≡ some snap
        → back (E.unit_snap snap) ≡ some hash
        → E.keyed s.rsp ≡ true
        → account_info s ≡ give_told account (record s { rsp = info_value snap hash s.rsp })
    unfolding account_info set_result_ok root_string query when_found lift give_told
    account_info_lem s account snap hash e₁ e₂ e₃ k₀ =
        let k₁ = L.keyed-put s.rsp "Result" (E.of_int (pos 1)) k₀ in
        let k₂ = L.keyed-put _ "balance" (E.of_string (E.get_balance snap "$$" "0")) k₁ in
        let k₃ = L.keyed-put _ "sequence" (E.of_string (to_string (E.sequence_id snap))) k₂ in
        let k₄ = L.keyed-put _ "lasthash" (E.of_string (hash_to_json_string hash)) k₃ in
        let k₅ = L.keyed-put _ "createtime" (E.of_string (to_string (E.create_time snap))) k₄ in
        let k₆ =
          L.keyed-put _ "property_value" (E.of_string (E.get_property snap "@name" "").1) k₅ in
        step _ _ (ap (λ o. (o, s)) e₁)
        ∙ step _ _ (ap (λ o. (done o, s)) e₂)
        ∙ step _ _ (set_rsp_lem _ _ s k₀)
        ∙ step _ _ (set_rsp_lem _ _ (record s { rsp = result_value s.rsp }) k₁)
        ∙ step _ _ (set_rsp_lem _ _ _ k₂)
        ∙ step _ _ (
            ap (λ o. (or_undefined o, record s { rsp = numbers_value snap (result_value s.rsp) }))
              e₃)
        ∙ step _ _ (set_rsp_lem _ _ (record s { rsp = numbers_value snap (result_value s.rsp) }) k₃)
        ∙ step _ _ (set_rsp_lem _ _ _ k₄)
        ∙ step _ _ (
            set_rsp_lem _ _
              (record s { rsp = hash_value snap hash (numbers_value snap (result_value s.rsp)) })
              k₅)
        ∙ step _ _ (set_rsp_lem _ _ _ k₆)

    give_told_lem :
        (account : String) (s : State)
        → E.keyed s.rsp ≡ true
        → give_told account s ≡ (
          done tt,
          record s {
            rsp = if has_received s account then E.put s.rsp "give" (E.of_int (pos 0)) else s.rsp;
          },
        )
    unfolding give_told ◌>>=◌ set_rsp
    give_told_lem account s k =
        elim (Bool-cases (any is_asset_in (E.get_settle_blocks s.store account))) [
          | inl e ↦ rw (e, k) refl
          | inr e ↦ elim (Bool-cases (ltb 0 (length (E.get_receive_blocks s.store account)))) [
            | inl e' ↦ rw (e, e', k) refl
            | inr e' ↦ rw (e, e') refl
          ]
        ]

    info_value-IsInfo :
        (snap : E.AccountSnap) (hash : E.Hash) (v : Json)
        → E.keyed v ≡ true
        → (E.get (info_value snap hash v) "Result" ≡ E.of_int (pos 1))
          × IsInfo snap hash (info_value snap hash v)
          × (E.get (info_value snap hash v) "give" ≡ E.of_int (pos 1))
          × (E.keyed (info_value snap hash v) ≡ true)
    info_value-IsInfo snap hash v k₀ =
        let k₁ = L.keyed-put v "Result" (E.of_int (pos 1)) k₀ in
        let k₂ = L.keyed-put _ "balance" (E.of_string (E.get_balance snap "$$" "0")) k₁ in
        let k₃ = L.keyed-put _ "sequence" (E.of_string (to_string (E.sequence_id snap))) k₂ in
        let k₄ = L.keyed-put _ "lasthash" (E.of_string (hash_to_json_string hash)) k₃ in
        let k₅ = L.keyed-put _ "createtime" (E.of_string (to_string (E.create_time snap))) k₄ in
        let k₆ =
          L.keyed-put _ "property_value" (E.of_string (E.get_property snap "@name" "").1) k₅ in
        (
          other L refl k₆
              ∙ other L refl k₅
              ∙ other L refl k₄
              ∙ other L refl k₃
              ∙ other L refl k₂
              ∙ other L refl k₁
              ∙ same L k₀,
          record {
            balance =
                other L refl k₆
                ∙ other L refl k₅
                ∙ other L refl k₄
                ∙ other L refl k₃
                ∙ other L refl k₂
                ∙ same L k₁;
            sequence =
                other L refl k₆ ∙ other L refl k₅ ∙ other L refl k₄ ∙ other L refl k₃ ∙ same L k₂;
            last_hash = other L refl k₆ ∙ other L refl k₅ ∙ other L refl k₄ ∙ same L k₃;
            create_time = other L refl k₆ ∙ other L refl k₅ ∙ same L k₄;
            name = other L refl k₆ ∙ same L k₅;
          },
          same L k₆,
          L.keyed-put _ "give" (E.of_int (pos 1)) k₆,
        )

    -- A last change of "give" leaves the other members as they are.
    IsInfo-give :
        (snap : E.AccountSnap) (hash : E.Hash) (v x : Json)
        → E.keyed v ≡ true
        → IsInfo snap hash v
        → IsInfo snap hash (E.put v "give" x)
    IsInfo-give snap hash v x k h = record {
      balance = other L refl k ∙ h.balance;
      sequence = other L refl k ∙ h.sequence;
      last_hash = other L refl k ∙ h.last_hash;
      create_time = other L refl k ∙ h.create_time;
      name = other L refl k ∙ h.name;
    }

    check_gift_lem :
        (s : State) (account : String)
        → check_gift account s ≡ (
            if E.exist_account s.store account
            then (if has_received s account then fail xrpc_already_give s else accept s)
            else fail xrpc_server_account_not_found s)
    unfolding check_gift ◌>>=◌
    check_gift_lem s account = elim (Bool-cases (E.exist_account s.store account)) [
      | inr h ↦ rw h refl
      | inl h ↦ elim (Bool-cases (any is_asset_in (E.get_settle_blocks s.store account))) [
        | inl e ↦ elim (Bool-cases (ltb 0 (length (E.get_receive_blocks s.store account)))) [
          | inl e' ↦ rw (h, e', e) refl
          | inr e' ↦ rw (h, e', e) refl
        ]
        | inr e ↦ elim (Bool-cases (ltb 0 (length (E.get_receive_blocks s.store account)))) [
          | inl e' ↦ rw (h, e', e) refl
          | inr e' ↦ rw (h, e', e) refl
        ]
      ]
    ]

    -- Where the account reads and has a snapshot with a last hash, and the handler's response is an
    -- object or nothing: the request ends normally, "Result" is 1, and the response says what the
    -- account's balance, sequence number, last hash, time of creation and name are. Its "give" is 1
    -- or 0. Where `give` has come, in the same store, to its checks of the account, they refuse one
    -- that does not exist as not found; one that exists they accept if "give" is 1, and refuse as
    -- given already if it is 0.
    pub account_info-Shows :
        (s : State) (account : String) (snap : E.AccountSnap) (hash : E.Hash)
        → string_in s.root "account" ≡ done account
        → E.get_account_snap_info s.store account ≡ some snap
        → back (E.unit_snap snap) ≡ some hash
        → E.keyed s.rsp ≡ true
        → ((account_info s).0 ≡ done tt)
          × Result 1 (account_info s).1
          × IsInfo snap hash (account_info s).1.rsp
          × (((E.get (account_info s).1.rsp "give" ≡ E.of_int (pos 1)) × Gives s account accept)
              ⊎ ((E.get (account_info s).1.rsp "give" ≡ E.of_int (pos 0))
                  × Gives s account (fail xrpc_already_give)))
    account_info-Shows s account snap hash e₁ e₂ e₃ k =
        let (result, info, give, k₇) = info_value-IsInfo snap hash s.rsp k in
        let run =
          account_info_lem s account snap hash e₁ e₂ e₃ k
          ∙ give_told_lem account (record s { rsp = info_value snap hash s.rsp }) k₇ in
        elim (Bool-cases (has_received s account)) [
          | inr e ↦
              rw (run, e)
                (refl, result, info, inl (give, λ t q. check_gift_lem t account ∙ rw (q, e) refl))
          | inl e ↦
              rw (run, e)
                (
                  refl,
                  other L refl k₇ ∙ result,
                  IsInfo-give snap hash _ _ k₇ info,
                  inr (same L k₇, λ t q. check_gift_lem t account ∙ rw (q, e) refl),
                )
        ]
