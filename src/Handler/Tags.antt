-- ===== src/Handler/Tags.antt =====
-- xrpc_handler.cpp: `set_property_value`, whose table of names agrees with the store.
use xrpcserver.Prelude.{
  String, [], ◌∷◌, ◌≡◌, refl, ◌∙◌, inl, inr, Option, none, some, Option-cases, Bool, Bool-cases,
  true, false, done, All, str_eq, eq_iff, pos, arith, if◌then◌else◌,
}
use xrpcserver.Env.{Env, JsonLaws}
use xrpcserver.Rpc.{Json, State, ◌>>=◌, string_in, set_item, pure}
use xrpcserver.Rpc.Steps.{step, set_rsp_lem}
use xrpcserver.Handler.Response.{set_result_ok}
use xrpcserver.Handler.History.{UserTag, find, insert, set_tag, set_property_value}
use xrpcserver.Handler.Members.{same, other}

module _ ⦃E : Env⦄ where
  -- The name of an account: its property "@name", and nothing where it has none.
  abbrev pub property_name : Bool × String → String
  property_name p = if p.0 then p.1 else ""

  abbrev pub snap_name : Option E.AccountSnap → String
  snap_name none = ""
  snap_name (some snap) = property_name (E.get_property snap "@name" "")

  abbrev pub name_of : E.Store → String → String
  name_of store account = snap_name (E.get_account_snap_info store account)

  -- A getter that finds no property leaves its out parameter as it was.
  abbrev pub LeavesOut : Type 0
  LeavesOut =
      (snap : E.AccountSnap) (key before : String)
      → (E.get_property snap key before).0 ≡ false
      → (E.get_property snap key before).1 ≡ before

  -- Each entry of the table is the name of its account.
  abbrev pub Names : E.Store → UserTag → Type 0
  Names store m = All (λ (entry : String × String). entry.1 ≡ name_of store entry.0) m

  find_sound :
      (store : E.Store) (who text : String) (m : UserTag)
      → Names store m
      → find who m ≡ some text
      → text ≡ name_of store who
  unfolding find
  find_sound store who text [] n e = cc
  find_sound store who text ((k, v) ∷ m) (h, n) e = elim (Bool-cases (str_eq k who)) [
    | inl found ↦ let k_is_who : k ≡ who = (eq_iff k who).0 found in ground arith
    | inr later ↦ find_sound store who text m n (rw later at e)
  ]

  insert-Names :
      (store : E.Store) (who text : String) (m : UserTag)
      → text ≡ name_of store who
      → Names store m
      → Names store (insert who text m)
  unfolding insert
  insert-Names store who text m e n = elim (Option-cases (find who m)) [
    | inl new ↦ rw (new, insert) (e, n)
    | inr (old, found) ↦ rw (found, insert) n
  ]

  -- What a half of `set_property_value` does for the account `who`, the text of the member `key`.
  record Tagged (key tag_key who : String) (m : UserTag) (s : State) : Type 0 where
    tags : UserTag
    item : Json
    run : set_tag key tag_key m s ≡ (done tags, record s { item = item })
    names : Names s.store tags
    keyed : E.keyed item ≡ true
    tag : E.get item tag_key ≡ E.of_string (name_of s.store who)
    others : (j : String) → str_eq tag_key j ≡ false → E.get item j ≡ E.get s.item j

  module _ (L : JsonLaws E.json) where
    string_in_lem :
        (v : Json) (k text : String)
        → E.keyed v ≡ true
        → E.get v k ≡ E.of_string text
        → string_in v k ≡ done text
    unfolding string_in
    string_in_lem v k text h e = rw (h, e, L.as_string-of_string text) refl

    string_in-put :
        (v x : Json) (k j : String)
        → E.keyed v ≡ true
        → str_eq k j ≡ false
        → string_in (E.put v k x) j ≡ string_in v j
    unfolding string_in
    string_in-put v x k j h e = rw (h, L.keyed-put v k x h, other L {x = x} e h) refl

    -- The name is in the table.
    tag_known :
        (key tag_key who text : String) (m : UserTag) (s : State)
        → string_in s.item key ≡ done who
        → E.keyed s.item ≡ true
        → Names s.store m
        → find who m ≡ some text
        → Tagged key tag_key who m s
    unfolding set_tag ◌>>=◌ set_item
    tag_known key tag_key who text m s e k n found = record {
      tags = m;
      item = E.put s.item tag_key (E.of_string text);
      run = rw (e, found, k) refl;
      names = n;
      keyed = L.keyed-put _ _ _ k;
      tag = same L k ∙ rw (find_sound s.store who text m n found) refl;
      others = λ j d. other L d k;
    }

    -- It is not, and the store knows the account or not.
    tag_new :
        (key tag_key who : String) (m : UserTag) (s : State)
        → str_eq tag_key key ≡ false
        → string_in s.item key ≡ done who
        → E.keyed s.item ≡ true
        → Names s.store m
        → find who m ≡ none
        → LeavesOut
        → Tagged key tag_key who m s
    unfolding set_tag ◌>>=◌ set_item
    tag_new key tag_key who m s d e k n new out =
        let again : string_in (E.put s.item tag_key (E.of_string "")) key ≡ done who =
          string_in-put s.item (E.of_string "") tag_key key k d ∙ e in
        let k₂ = L.keyed-put s.item tag_key (E.of_string "") k in
        elim (Option-cases (E.get_account_snap_info s.store who)) [
          | inl unknown ↦ record {
            tags = insert who "" m;
            item = E.put s.item tag_key (E.of_string "");
            run = rw (e, new, k, again, unknown, again) refl;
            names = insert-Names s.store who "" m (rw unknown refl) n;
            keyed = k₂;
            tag = same L k ∙ rw unknown refl;
            others = λ j d'. other L d' k;
          }
          | inr (snap, known) ↦ elim (Bool-cases (E.get_property snap "@name" "").0) [
            | inl named ↦
                let again' : string_in
                      (E.put (E.put s.item tag_key (E.of_string "")) tag_key
                        (E.of_string (E.get_property snap "@name" "").1))
                      key
                    ≡ done who =
                  string_in-put _ (E.of_string (E.get_property snap "@name" "").1) tag_key key k₂ d
                  ∙ again in
                record {
                  tags = insert who (E.get_property snap "@name" "").1 m;
                  item =
                      E.put (E.put s.item tag_key (E.of_string "")) tag_key
                        (E.of_string (E.get_property snap "@name" "").1);
                  run = rw (e, new, k, again, known, named, k₂, again') refl;
                  names = insert-Names s.store who _ m (rw known (rw named refl)) n;
                  keyed = L.keyed-put _ _ _ k₂;
                  tag = same L k₂ ∙ rw known (rw named refl);
                  others = λ j d'. other L d' k₂ ∙ other L d' k;
                }
            | inr unnamed ↦ record {
              tags = insert who (E.get_property snap "@name" "").1 m;
              item = E.put s.item tag_key (E.of_string "");
              run = rw (e, new, k, again, known, unnamed, again) refl;
              names =
                  insert-Names s.store who _ m (rw known (rw unnamed (out snap "@name" "" unnamed)))
                    n;
              keyed = k₂;
              tag = same L k ∙ rw known (rw unnamed refl);
              others = λ j d'. other L d' k;
            }
          ]
        ]

    set_tag-Tagged :
        (key tag_key who : String) (m : UserTag) (s : State)
        → str_eq tag_key key ≡ false
        → E.get s.item key ≡ E.of_string who
        → E.keyed s.item ≡ true
        → Names s.store m
        → LeavesOut
        → Tagged key tag_key who m s
    set_tag-Tagged key tag_key who m s d e k n out =
        let reads = string_in_lem s.item key who k e in
        elim (Option-cases (find who m)) [
          | inl new ↦ tag_new key tag_key who m s d reads k n new out
          | inr (text, known) ↦ tag_known key tag_key who text m s reads k n known
        ]

    -- What `set_property_value` does for a transaction from `src` to `dst`.
    pub record TagsSet (src dst : String) (m : UserTag) (s : State) : Type 0 where
      pub tags : UserTag
      pub item : Json
      pub run :
          set_property_value m s
          ≡ (done tags, record s { item = item; rsp = E.put s.rsp "Result" (E.of_int (pos 1)) })
      pub names : Names s.store tags
      pub keyed : E.keyed item ≡ true
      pub source_tag : E.get item "source_tag" ≡ E.of_string (name_of s.store src)
      pub destination_tag : E.get item "destination_tag" ≡ E.of_string (name_of s.store dst)
      pub others :
          (j : String)
          → str_eq "source_tag" j ≡ false
          → str_eq "destination_tag" j ≡ false
          → E.get item j ≡ E.get s.item j

    pub set_property_value-TagsSet :
        (src dst : String) (m : UserTag) (s : State)
        → E.get s.item "source" ≡ E.of_string src
        → E.get s.item "destination" ≡ E.of_string dst
        → E.keyed s.item ≡ true
        → E.keyed s.rsp ≡ true
        → Names s.store m
        → LeavesOut
        → TagsSet src dst m s
    unfolding set_property_value set_result_ok pure
    set_property_value-TagsSet src dst m s e₁ e₂ k r n out =
        let a = set_tag-Tagged "source" "source_tag" src m s refl e₁ k n out in
        let s' : State = record s { item = a.item } in
        let b =
          set_tag-Tagged "destination" "destination_tag" dst a.tags s' refl
            (a.others "destination" refl ∙ e₂) a.keyed a.names out in
        record {
          tags = b.tags;
          item = b.item;
          run =
              step _ _ a.run
              ∙ step _ _ b.run
              ∙ step _ _ (set_rsp_lem "Result" (E.of_int (pos 1)) (record s' { item = b.item }) r)
              ∙ refl;
          names = b.names;
          keyed = b.keyed;
          source_tag = b.others "source_tag" refl ∙ a.tag;
          destination_tag = b.tag;
          others = λ j d₁ d₂. b.others j d₂ ∙ a.others j d₁;
        }
