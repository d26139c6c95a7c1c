-- ===== src/Graph/Mapped.antt =====
-- What map_bolt4_to_bolt5_node keeps of the properties of a node.
use atlas_of_us.Graph.Mapping.{
  labels_of, int_or_zero, json_int, node_props, generalizes, map_bolt4_to_bolt5_node,
}
use atlas_of_us.Graph.Reading.{member}
use atlas_of_us.Graph.Values.{
  text_or_empty, json_object, Fields, retain, Serde, get, Value, text, array, object, end, field,
}
use atlas_of_us.Prelude.{
  String, ◌≡◌, refl, ap, ◌∙◌, inl, inr, Bool, true, false, not, Option, none, some, [], ◌∷◌, ◌++◌,
  arith, eq_iff, ◌==◌, if◌then◌else◌, Bool-cases,
}

module _ {N : Type 0} where
  -- What is kept is found as before, and the rest is not found.
  pub get-retain :
      (keep : String → Bool) (key : String) (fs : Fields N)
      → get key (retain keep fs) ≡ (if keep key then get key fs else none)
  unfolding get retain
  get-retain keep key end = ground arith
  get-retain keep key (field k v fs) = elim (Bool-cases (k == key)) [
    | inl same ↦
        let q : k ≡ key = (eq_iff k key).0 same in rw q (ground (arith, get-retain keep key fs))
    | inr other ↦ ground (arith, other, get-retain keep key fs)
  ]

if-not {ℓ} : {A : Type ℓ} (x y : A) (b : Bool) → (if not b then x else y) ≡ (if b then y else x)
if-not x y true = refl
if-not x y false = refl

-- The property of a mapped node.
abbrev pub prop_at : {N : Type 0} → String → Value N → Option (Value N)
prop_at key v = elim (member "Props" v) [ none ↦ none | some props ↦ member key props ]

module _ (serde : Serde) where
  prop_at-Props :
      (key : String) (gen : Option (Value serde.Number)) (x i l p : Value serde.Number)
      → prop_at key (
          json_object (
            ("ElementId", x) ∷ generalizes serde gen
            ++ ("Id", i) ∷ ("Labels", l) ∷ ("Props", p) ∷ []))
        ≡ member key p
  unfolding get
  prop_at-Props key none x i l p = refl
  prop_at-Props key (some g) x i l p = refl

  -- A node that comes with its properties keeps each of them but the embedding.
  pub map_bolt4_to_bolt5_node-props :
      (obj props : Fields serde.Number) (key : String)
      → get "props" obj ≡ some (object props)
      → prop_at key (map_bolt4_to_bolt5_node serde (object obj))
        ≡ (if key == "embedding" then none else get key props)
  unfolding get
  map_bolt4_to_bolt5_node-props obj props key e =
      prop_at-Props key (get "generalizesToElementId" obj)
        (text (text_or_empty (get "elementId" obj)))
        (json_int serde (int_or_zero serde (get "id" obj)))
        (array (labels_of serde (get "labels" obj))) (node_props serde obj (get "props" obj))
      ∙ ap (λ o. member key (node_props serde obj o)) e
      ∙ get-retain (λ k. not (k == "embedding")) key props
      ∙ if-not (get key props) none (key == "embedding")
