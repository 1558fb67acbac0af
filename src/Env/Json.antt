-- ===== src/Env/Json.antt =====
-- xJson, the JSON library (jsoncpp): a parameter of the model.
use xrpcserver.Prelude.{
  String, ◌≡◌, Bool, true, false, List, [], ◌∷◌, ◌++◌, Option, some, str_eq, if◌then◌else◌, ℤ,
}

pub record JsonLib : Type 1 where
  pub Value : Type 0
  pub null : Value
  -- Value(const std::string &), Value(int), Value(int64_t)
  pub of_string : String → Value
  pub of_int : ℤ → Value
  -- Is the value null or an object, so that `v[key]` does not throw?
  pub keyed : Value → Bool
  -- v[key], with null for a missing member
  pub get : Value → String → Value
  -- what reading v[key] leaves in v: a missing member is added, as null
  pub touch : Value → String → Value
  -- v[key] = x
  pub put : Value → String → Value → Value
  -- Is the value null or an array, so that `v.append(x)` does not throw?
  pub listed : Value → Bool
  pub append : Value → Value → Value
  -- the elements of an array; none for null
  pub elements : Value → List Value
  -- v.empty(): null, or an array or object with no element
  pub empty : Value → Bool
  -- none where the conversion throws
  pub as_string : Value → Option String
  pub as_c_string : Value → Option String
  pub as_int : Value → Option ℤ
  pub as_int64 : Value → Option ℤ
  -- Reader::parse: its result, and the value that it leaves in the root
  pub parse : String → Bool × Value
  -- FastWriter::write and toStyledString
  pub write : Value → String
  pub to_styled_string : Value → String

module _ (J : JsonLib) where
  open J use {Value, null, of_string, keyed, get, put, listed, append, elements, empty, as_string}

  -- The documented behaviour of the library that the theorems use.
  pub record JsonLaws : Type 0 where
    pub keyed-null : keyed null ≡ true
    pub keyed-put : (v : Value) (k : String) (x : Value) → keyed v ≡ true → keyed (put v k x) ≡ true
    pub get-put :
        (v : Value) (k : String) (x : Value) (j : String)
        → keyed v ≡ true
        → get (put v k x) j ≡ (if str_eq k j then x else get v j)
    pub empty-put : (v : Value) (k : String) (x : Value) → empty (put v k x) ≡ false
    pub listed-null : listed null ≡ true
    pub listed-append : (v x : Value) → listed v ≡ true → listed (append v x) ≡ true
    pub elements-null : elements null ≡ []
    pub elements-append :
        (v x : Value) → listed v ≡ true → elements (append v x) ≡ elements v ++ x ∷ []
    pub as_string-null : as_string null ≡ some ""
    pub get-null : (k : String) → get null k ≡ null
    pub as_string-of_string : (s : String) → as_string (of_string s) ≡ some s
