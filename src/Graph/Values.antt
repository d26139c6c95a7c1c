-- ===== src/Graph/Values.antt =====
-- serde_json's values as the graph services build and read them. An object is the list of its
-- entries; those that the services write are in the order of their keys.
use atlas_of_us.Prelude.{
  String, Bool, true, false, Option, none, some, List, [], ◌∷◌, ◌==◌, if◌then◌else◌,
}
use atlas_of_us.Graph.Models.{ℤ}
use atlas_of_us.Floats.{Floats}

mutual
  pub data Value (N : Type 0) : Type 0 where
    null : Value N
    boolean : Bool → Value N
    number : N → Value N
    text : String → Value N
    array : Items N → Value N
    object : Fields N → Value N

  pub data Items (N : Type 0) : Type 0 where
    nil : Items N
    cons : Value N → Items N → Items N

  pub data Fields (N : Type 0) : Type 0 where
    end : Fields N
    field : String → Value N → Fields N → Fields N

-- serde_json's numbers, `to_string` of a value and of a number, and `from_str` to a `HashMap`.
pub record Serde : Type 1 where
  pub floats : Floats
  pub Number : Type 0
  pub as_i64 : Number → Option ℤ
  pub as_f64 : Number → Option floats.F64
  pub from_i64 : ℤ → Number
  pub from_f64 : floats.F64 → Option Number
  pub number_text : Number → String
  pub value_text : Value Number → String
  pub entries_of_text : String → Option (List (String × Value Number))

module _ {N : Type 0} where
  abbrev pub items : List (Value N) → Items N
  items [] = nil
  items (v ∷ vs) = cons v (items vs)

  abbrev pub fields : List (String × Value N) → Fields N
  fields [] = end
  fields ((k, v) ∷ es) = field k v (fields es)

  -- `json!([…])` and `json!({…})`
  abbrev pub json_array : List (Value N) → Value N
  json_array vs = array (items vs)

  abbrev pub json_object : List (String × Value N) → Value N
  json_object es = object (fields es)

  -- `Map::get`
  unfoldable pub get : String → Fields N → Option (Value N)
  get key end = none
  get key (field k v fs) = let rest = get key fs in if k == key then some v else rest

  abbrev pub contains_key : String → Fields N → Bool
  contains_key key fs = elim (get key fs) [ none ↦ false | some v ↦ true ]

  -- The entries whose key passes the test.
  unfoldable pub retain : (String → Bool) → Fields N → Fields N
  retain keep end = end
  retain keep (field k v fs) = let rest = retain keep fs in if keep k then field k v rest else rest

  abbrev pub as_object : Value N → Option (Fields N)
  as_object (object fs) = some fs
  as_object v = none

  abbrev pub list_of : Items N → List (Value N)
  list_of nil = []
  list_of (cons v vs) = v ∷ list_of vs

  abbrev pub as_array : Value N → Option (List (Value N))
  as_array (array vs) = some (list_of vs)
  as_array v = none

  -- `get(key).and_then(|v| v.as_str()).unwrap_or("")`
  abbrev pub text_or_empty : Option (Value N) → String
  text_or_empty (some (text s)) = s
  text_or_empty v = ""
