-- ===== src/Demo/Json.antt =====
-- An implementation of the JSON interface, with its laws.
use xrpcserver.Prelude.{
  String, List, [], ◌∷◌, ◌++◌, Option, none, some, ◌≡◌, refl, Bool, true, false, ℤ, str_eq, eq_iff,
  arith, if◌then◌else◌,
}
use xrpcserver.Env.{JsonLib, JsonLaws}

mutual
  pub data Value : Type 0 where
    null : Value
    text : String → Value
    int : ℤ → Value
    arr : Items → Value
    obj : Fields → Value

  pub data Fields : Type 0 where
    no_fields : Fields
    field : String → Value → Fields → Fields

  pub data Items : Type 0 where
    no_items : Items
    item : Value → Items → Items

abbrev pub keyed : Value → Bool
keyed null = true
keyed (obj fs) = true
keyed _ = false

abbrev pub find_field : String → Fields → Value
find_field k no_fields = null
find_field k (field j v fs) = if str_eq j k then v else find_field k fs

abbrev pub get : Value → String → Value
get (obj fs) k = find_field k fs
get _ k = null

abbrev pub put_field : String → Value → Fields → Fields
put_field k x no_fields = field k x no_fields
put_field k x (field j v fs) = if str_eq j k then field j x fs else field j v (put_field k x fs)

abbrev pub put : Value → String → Value → Value
put (obj fs) k x = obj (put_field k x fs)
put _ k x = obj (field k x no_fields)

abbrev pub touch : Value → String → Value
touch v k = put v k (get v k)

abbrev pub listed : Value → Bool
listed null = true
listed (arr vs) = true
listed _ = false

abbrev pub snoc : Items → Value → Items
snoc no_items x = item x no_items
snoc (item v vs) x = item v (snoc vs x)

abbrev pub append : Value → Value → Value
append (arr vs) x = arr (snoc vs x)
append _ x = arr (item x no_items)

abbrev pub items : Items → List Value
items no_items = []
items (item v vs) = v ∷ items vs

abbrev pub elements : Value → List Value
elements (arr vs) = items vs
elements _ = []

abbrev pub empty : Value → Bool
empty null = true
empty (arr no_items) = true
empty (obj no_fields) = true
empty _ = false

abbrev pub as_string : Value → Option String
as_string null = some ""
as_string (text s) = some s
as_string _ = none

abbrev pub as_int : Value → Option ℤ
as_int (int n) = some n
as_int _ = none

-- The one text that it cannot read is "bad"; of the others it takes the whole to be the action.
abbrev pub demo_json : JsonLib
demo_json = record {
  Value = Value;
  null = null;
  of_string = text;
  of_int = int;
  keyed = keyed;
  get = get;
  touch = touch;
  put = put;
  listed = listed;
  append = append;
  elements = elements;
  empty = empty;
  as_string = as_string;
  as_c_string = as_string;
  as_int = as_int;
  as_int64 = as_int;
  parse = λ s.
      if str_eq s "bad" then (false, null) else (true, obj (field "action" (text s) no_fields));
  write = λ v. "value";
  to_styled_string = λ v. "styled";
}

find_field-put_field :
    (k j : String) (x : Value) (fs : Fields)
    → find_field j (put_field k x fs) ≡ (if str_eq k j then x else find_field j fs)
find_field-put_field k j x no_fields = refl
find_field-put_field k j x (field i v fs) =
    ground (arith, eq_iff k j, eq_iff i k, eq_iff i j, find_field-put_field k j x fs)

get-put :
    (v : Value) (k : String) (x : Value) (j : String)
    → keyed v ≡ true
    → get (put v k x) j ≡ (if str_eq k j then x else get v j)
get-put null k x j h = refl
get-put (obj fs) k x j h = find_field-put_field k j x fs
get-put _ k x j h = cc

keyed-put : (v : Value) (k : String) (x : Value) → keyed v ≡ true → keyed (put v k x) ≡ true
keyed-put null k x h = refl
keyed-put _ k x h = refl

put_field-full : (k : String) (x : Value) (fs : Fields) → empty (obj (put_field k x fs)) ≡ false
put_field-full k x no_fields = refl
put_field-full k x (field j v fs) = ground arith

empty-put : (v : Value) (k : String) (x : Value) → empty (put v k x) ≡ false
empty-put (obj fs) k x = put_field-full k x fs
empty-put _ k x = refl

items-snoc : (vs : Items) (x : Value) → items (snoc vs x) ≡ items vs ++ x ∷ []
items-snoc no_items x = refl
items-snoc (item v vs) x = cc (items-snoc vs x)

elements-append : (v x : Value) → listed v ≡ true → elements (append v x) ≡ elements v ++ x ∷ []
elements-append null x h = refl
elements-append (arr vs) x h = items-snoc vs x
elements-append _ x h = cc

listed-append : (v x : Value) → listed v ≡ true → listed (append v x) ≡ true
listed-append null x h = refl
listed-append _ x h = refl

pub demo_json_laws : JsonLaws demo_json
demo_json_laws = record {
  keyed-null = refl;
  keyed-put = keyed-put;
  get-put = get-put;
  empty-put = empty-put;
  listed-null = refl;
  listed-append = listed-append;
  elements-null = refl;
  elements-append = elements-append;
  as_string-null = refl;
  get-null = λ k. refl;
  as_string-of_string = λ s. refl;
}
