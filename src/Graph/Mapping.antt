-- ===== src/Graph/Mapping.antt =====
-- common/neo4j_utils.rs: rows of neo4rs in the shape that the web client reads.
use atlas_of_us.Effects.Defs.{unwrap_or}
use atlas_of_us.Graph.Models.{pos, ℤ}
use atlas_of_us.Graph.Values.{
  get, list_of, text_or_empty, contains_key, json_array, json_object, retain, Serde, Value, null,
  boolean, number, text, array, object, Items, nil, cons, Fields,
}
use atlas_of_us.Prelude.{
  String, Bool, false, not, ◌||◌, Option, none, some, List, [], ◌∷◌, ◌++◌, map, ◌==◌, if◌then◌else◌,
}

-- neo4rs's values, as far as they are made here.
mutual
  pub data BoltType (F : Type 0) : Type 0 where
    bolt_null : BoltType F
    bolt_boolean : Bool → BoltType F
    bolt_integer : ℤ → BoltType F
    bolt_float : F → BoltType F
    bolt_string : String → BoltType F
    bolt_list : Bolts F → BoltType F

  pub data Bolts (F : Type 0) : Type 0 where
    no_bolts : Bolts F
    bolts : BoltType F → Bolts F → Bolts F

module _ (serde : Serde) where
  abbrev pub Json : Type 0
  Json = Value serde.Number

  abbrev pub bolt_number : serde.Number → BoltType serde.floats.F64
  bolt_number n = elim (serde.as_i64 n) [
    | some i ↦ bolt_integer i
    | none ↦ elim (serde.as_f64 n) [
      | some f ↦ bolt_float f
      | none ↦ bolt_string (serde.number_text n)
    ]
  ]

  unfoldable mutual
    pub json_value_to_bolt_type : Value serde.Number → BoltType serde.floats.F64
    json_value_to_bolt_type null = bolt_null
    json_value_to_bolt_type (boolean b) = bolt_boolean b
    json_value_to_bolt_type (number n) = bolt_number n
    json_value_to_bolt_type (text s) = bolt_string s
    json_value_to_bolt_type (array vs) = bolt_list (bolt_items vs)
    json_value_to_bolt_type (object fs) = bolt_string (serde.value_text (object fs))

    pub bolt_items : Items serde.Number → Bolts serde.floats.F64
    bolt_items nil = no_bolts
    bolt_items (cons v vs) = bolts (json_value_to_bolt_type v) (bolt_items vs)

  -- `get(key).and_then(|v| v.as_i64()).unwrap_or(0)`
  abbrev pub int_or_zero : Option Json → ℤ
  int_or_zero (some (number n)) = unwrap_or (serde.as_i64 n) (pos 0)
  int_or_zero v = pos 0

  abbrev pub json_int : ℤ → Json
  json_int i = number (serde.from_i64 i)

  -- `get(key).and_then(|v| v.as_array()).cloned().unwrap_or_default()`
  abbrev pub labels_of : Option Json → Items serde.Number
  labels_of (some (array vs)) = vs
  labels_of v = nil

  abbrev pub is_node_property : String → Bool
  is_node_property key = not (
      key == "id"
      || key == "elementId"
      || key == "labels"
      || key == "generalizesToElementId"
      || key == "embedding")

  -- Without the embedding, as far as the properties are an object.
  abbrev pub node_props : Fields serde.Number → Option Json → Json
  node_props obj none = object (retain is_node_property obj)
  node_props obj (some (object props)) = object (retain (λ key. not (key == "embedding")) props)
  node_props obj (some nested_props) = nested_props

  abbrev pub generalizes : Option Json → List (String × Json)
  generalizes none = []
  generalizes (some gen_id) = ("GeneralizesToElementId", gen_id) ∷ []

  abbrev pub map_bolt4_to_bolt5_node : Json → Json
  map_bolt4_to_bolt5_node (object obj) = json_object (
      ("ElementId", text (text_or_empty (get "elementId" obj)))
        ∷ generalizes (get "generalizesToElementId" obj)
      ++ ("Id", json_int (int_or_zero (get "id" obj)))
        ∷ ("Labels", array (labels_of (get "labels" obj)))
        ∷ ("Props", node_props obj (get "props" obj))
        ∷ [])
  map_bolt4_to_bolt5_node node_data = node_data

  abbrev pub is_relationship_property : String → Bool
  is_relationship_property key = not (
      key == "id"
      || key == "elementId"
      || key == "startId"
      || key == "startElementId"
      || key == "endId"
      || key == "endElementId"
      || key == "type")

  abbrev pub map_bolt4_to_bolt5_relationship : Json → Json
  map_bolt4_to_bolt5_relationship (object obj) = json_object (
      ("ElementId", text (text_or_empty (get "elementId" obj)))
      ∷ ("EndElementId", text (text_or_empty (get "endElementId" obj)))
      ∷ ("EndId", json_int (int_or_zero (get "endId" obj)))
      ∷ ("Id", json_int (int_or_zero (get "id" obj)))
      ∷ ("Props", unwrap_or (get "props" obj) (object (retain is_relationship_property obj)))
      ∷ ("StartElementId", text (text_or_empty (get "startElementId" obj)))
      ∷ ("StartId", json_int (int_or_zero (get "startId" obj)))
      ∷ ("Type", text (text_or_empty (get "type" obj)))
      ∷ [])
  map_bolt4_to_bolt5_relationship rel_data = rel_data

  -- One value of a row: nothing where it is missing, empty where it is no array.
  abbrev pub mapped_node : Option Json → List Json
  mapped_node none = []
  mapped_node (some node) = map_bolt4_to_bolt5_node node ∷ []

  abbrev pub mapped_array : (Json → Json) → Option Json → List Json
  mapped_array f none = []
  mapped_array f (some (array vs)) = json_array (map f (list_of vs)) ∷ []
  mapped_array f (some v) = json_array [] ∷ []

  abbrev pub map_row : Fields serde.Number → Json
  map_row obj = json_object (
      ("Keys", json_array (text "node" ∷ text "relationships" ∷ text "affiliatedNodes" ∷ []))
      ∷ (
        "Values",
        json_array (
            mapped_node (get "node" obj)
            ++ mapped_array map_bolt4_to_bolt5_relationship (get "relationships" obj)
            ++ mapped_array map_bolt4_to_bolt5_node (get "affiliatedNodes" obj)),
      )
      ∷ [])

  -- A row that is no object is passed over.
  unfoldable pub map_rows : List Json → List Json
  map_rows [] = []
  map_rows (object obj ∷ data_) = map_row obj ∷ map_rows data_
  map_rows (node_result ∷ data_) = map_rows data_

  abbrev pub is_complex : Json → Bool
  is_complex (object obj) =
      contains_key "node" obj
      || contains_key "relationships" obj
      || contains_key "affiliatedNodes" obj
  is_complex item = false

  abbrev pub is_relationship : Fields serde.Number → Bool
  is_relationship obj =
      contains_key "startId" obj || contains_key "type" obj || contains_key "Type" obj

  abbrev pub map_simple : Json → List Json → List Json
  map_simple (object obj) data_ =
      if is_relationship obj
      then map map_bolt4_to_bolt5_relationship data_
      else map map_bolt4_to_bolt5_node data_
  map_simple first_item data_ = data_

  -- The shape of the first row decides for all of them.
  unfoldable pub map_bolt4_to_bolt5 : List Json → Json
  map_bolt4_to_bolt5 [] = json_array []
  map_bolt4_to_bolt5 (first ∷ rest) =
      if is_complex first
      then json_array (map_rows (first ∷ rest))
      else json_array (map_simple first (first ∷ rest))
