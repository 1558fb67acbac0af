-- ===== src/Handler/Properties.antt =====
-- xrpc_handler.cpp: what `query_all_property` answers.
use xrpcserver.Prelude.{
  String, List, [], ◌∷◌, ◌≡◌, refl, sym, subst, ◌∙◌, inl, inr, Bool-cases, true, false, some, done,
  pos, codes, All, arith, str_eq, eq_iff,
}
use xrpcserver.Env.{Env, JsonLaws}
use xrpcserver.Rpc.{Json, State, ◌>>=◌, string_in, done_unit}
use xrpcserver.Rpc.Steps.{step, set_rsp_lem}
use xrpcserver.Handler.Response.{set_result_ok}
use xrpcserver.Handler.Query.{write_properties, query_all_property}
use xrpcserver.Handler.Members.{same, other}
use xrpcserver.Handler.Answers.{Result}
use xrpcserver.Handler.Keys.{IsPropertyKey}

abbrev pub Properties : Type 0
Properties = List (String × String)

-- No two properties have the same key.
abbrev pub Distinct : Properties → Type 0
Distinct [] = Unit
Distinct ((key, value) ∷ l) = All (λ (p : String × String). str_eq p.0 key ≡ false) l × Distinct l

-- Each is a property that `check_input` lets through.
abbrev pub AllKeys : Properties → Type 0
AllKeys l = All (λ (p : String × String). IsPropertyKey (codes p.0)) l

not_result : (key : String) → IsPropertyKey (codes key) → str_eq "Result" key ≡ false
not_result key h = elim (Bool-cases (str_eq "Result" key)) [
  | inr e ↦ e
  | inl e ↦
      let at_sign =
        subst (λ (k : String). IsPropertyKey (codes k)) (sym ((eq_iff "Result" key).0 e)) h in
      absurd (omega (arith, at_sign.0))
]

module _ ⦃E : Env⦄ where
  -- Each property is a member of `v`.
  abbrev pub ShowsAll : Json → Properties → Type 0
  ShowsAll v l = All (λ (p : String × String). E.get v p.0 ≡ E.of_string p.1) l

  -- What the loop leaves in the response.
  record Written (l : Properties) (s : State) : Type 0 where
    rsp : Json
    run : write_properties l s ≡ (done tt, record s { rsp = rsp })
    keyed : E.keyed rsp ≡ true
    others :
        (j : String)
        → All (λ (p : String × String). str_eq p.0 j ≡ false) l
        → E.get rsp j ≡ E.get s.rsp j
    shows : Distinct l → ShowsAll rsp l

  module _ (L : JsonLaws E.json) where
    write_properties-Written : (l : Properties) (s : State) → E.keyed s.rsp ≡ true → Written l s
    unfolding write_properties done_unit
    write_properties-Written [] s k = record {
      rsp = s.rsp;
      run = refl;
      keyed = k;
      others = λ j h. refl;
      shows = λ d. tt;
    }
    write_properties-Written ((key, value) ∷ l) s k =
        let begun : State = record s { rsp = E.put s.rsp key (E.of_string value) } in
        let w = write_properties-Written l begun (L.keyed-put s.rsp key (E.of_string value) k) in
        record {
          rsp = w.rsp;
          run = step _ _ (set_rsp_lem key (E.of_string value) s k) ∙ w.run;
          keyed = w.keyed;
          others = λ j (e, h). w.others j h ∙ other L e k;
          shows = λ (apart, d). (w.others key apart ∙ same L k, w.shows d);
        }

    -- The last member leaves the properties as they are.
    ShowsAll-result :
        (v : Json) (l : Properties)
        → E.keyed v ≡ true
        → AllKeys l
        → ShowsAll v l
        → ShowsAll (E.put v "Result" (E.of_int (pos 1))) l
    ShowsAll-result v [] k h a = tt
    ShowsAll-result v ((key, value) ∷ l) k (good, h) (e, a) =
        (other L (not_result key good) k ∙ e, ShowsAll-result v l k h a)

    query_all_property_lem :
        (s : State) (account : String) (snap : E.AccountSnap)
        (w : Written (E.get_all_property snap) s)
        → string_in s.root "account" ≡ done account
        → E.get_account_snap_info s.store account ≡ some snap
        → query_all_property s
          ≡ (done tt, record s { rsp = E.put w.rsp "Result" (E.of_int (pos 1)) })
    unfolding query_all_property ◌>>=◌ set_result_ok
    query_all_property_lem s account snap w e₁ e₂ =
        rw (e₁, e₂, w.run)
          (set_rsp_lem "Result" (E.of_int (pos 1)) (record s { rsp = w.rsp }) w.keyed)

    -- Where the account reads and has a snapshot, whose properties have different keys, each one that
    -- `check_input` accepts, and the handler's response is an object or nothing: the request ends
    -- normally, "Result" is 1, and each property is a member of the response.
    pub query_all_property-ShowsAll :
        (s : State) (account : String) (snap : E.AccountSnap)
        → string_in s.root "account" ≡ done account
        → E.get_account_snap_info s.store account ≡ some snap
        → E.keyed s.rsp ≡ true
        → AllKeys (E.get_all_property snap)
        → Distinct (E.get_all_property snap)
        → ((query_all_property s).0 ≡ done tt)
          × Result 1 (query_all_property s).1
          × ShowsAll (query_all_property s).1.rsp (E.get_all_property snap)
    query_all_property-ShowsAll s account snap e₁ e₂ k h d =
        let w = write_properties-Written (E.get_all_property snap) s k in
        rw (query_all_property_lem s account snap w e₁ e₂)
          (refl, same L w.keyed, ShowsAll-result w.rsp _ w.keyed h (w.shows d))
