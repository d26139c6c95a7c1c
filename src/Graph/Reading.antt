-- ===== src/Graph/Reading.antt =====
-- services/node.rs: nodes with what is related to them, by their labels and properties or by a
-- text.
use atlas_of_us.Graph.Mapping.{map_bolt4_to_bolt5}
use atlas_of_us.Graph.Queries.{search_term_query, node_with_relationships_query_fragment}
use atlas_of_us.Graph.Nodes.{NodeService}
use atlas_of_us.Graph.Nodes.{database_failure, embed, show_int, NodeWithRelationships, Property}
use atlas_of_us.Effects.Defs.{ok, err, lift, unwrap_or, ◌>>=◌, Result}
use atlas_of_us.Graph.Store.{
  embedding_param, Float, execute_statement, read_rows, StoreRow, StoreRows, NodeStore,
}
use atlas_of_us.Graph.Models.{ServiceError, ℤ}
use atlas_of_us.Text.{chars, join, trim_chars, format, of_chars}
use atlas_of_us.Graph.Values.{json_array, json_object, list_of, get, Value, text, array, object}
use atlas_of_us.Prelude.{String, Option, none, some, List, [], ◌∷◌, map, ◌==◌, if◌then◌else◌}

-- `trim`
abbrev pub trim : String → String
trim s = of_chars (trim_chars (chars s))

abbrev pub where_clause : String → String → String
where_clause key value_str =
    if key == "elementId"
    then format ("elementId(node) = '" ∷ value_str ∷ "'" ∷ [])
    else format ("node." ∷ key ∷ " = '" ∷ value_str ∷ "'" ∷ [])

-- Only texts restrict the nodes.
unfoldable pub where_clauses : {N : Type 0} → List (String × Value N) → List String
where_clauses [] = []
where_clauses ((key, text value_str) ∷ props) =
    where_clause (trim key) (trim value_str) ∷ where_clauses props
where_clauses ((key, value) ∷ props) = where_clauses props

abbrev pub match_clauses : Option (List String) → List String
match_clauses none = "MATCH (node)" ∷ []
match_clauses (some labels) = map (λ label. format ("MATCH (node:`" ∷ label ∷ "`)" ∷ [])) labels

abbrev pub where_part : List String → String
where_part [] = ""
where_part (clause ∷ clauses) = format ("\nWHERE " ∷ join " AND " (clause ∷ clauses) ∷ [])

abbrev pub nodes_query : {N : Type 0} → Option (List String) → List (String × Value N) → ℤ → String
nodes_query labels props depth = format (
    join "\n" (match_clauses labels)
    ∷ where_part (where_clauses props)
    ∷ node_with_relationships_query_fragment (show_int depth)
    ∷ [])

-- `Value::get`
abbrev pub member : {N : Type 0} → String → Value N → Option (Value N)
member key (object fs) = get key fs
member key v = none

module _ (db : NodeStore) where
  abbrev pub row_value : StoreRow db → Value db.serde.Number
  row_value row = json_object (
      ("affiliatedNodes", unwrap_or (row.get_value "affiliatedNodes") (json_array []))
      ∷ ("node", unwrap_or (row.get_value "node") (json_object []))
      ∷ ("relationships", unwrap_or (row.get_value "relationships") (json_array []))
      ∷ [])

  abbrev pub nodes_data : List (Result String (StoreRow db)) → List (Value db.serde.Number)
  nodes_data rows = map row_value (read_rows rows)

  abbrev pub nodes_read : StoreRows db → Result (ServiceError (Float db)) (Value db.serde.Number)
  nodes_read (err e) = err (database_failure db e)
  nodes_read (ok rows) = ok (map_bolt4_to_bolt5 db.serde (nodes_data rows))

  unfoldable pub get_nodes_with_relationships :
      Option (List String)
      → Option (List (Property db))
      → ℤ
      → NodeService db (Value db.serde.Number)
  get_nodes_with_relationships labels properties depth = do
    result ← execute_statement db (nodes_query labels (unwrap_or properties []) depth) []
    lift (nodes_read result)

  abbrev pub related : Value db.serde.Number → NodeWithRelationships db.serde.Number
  related v = record {
    node = unwrap_or (member "node" v) (json_object []);
    relationships = unwrap_or (member "relationships" v) (json_array []);
    affiliated_nodes = unwrap_or (member "affiliatedNodes" v) (json_array []);
  }

  abbrev pub read_back : Value db.serde.Number → List (NodeWithRelationships db.serde.Number)
  read_back (array vs) = map related (list_of vs)
  read_back v = []

  abbrev pub nodes_found :
      StoreRows db → Result (ServiceError (Float db)) (List (NodeWithRelationships db.serde.Number))
  nodes_found (err e) = err (database_failure db e)
  nodes_found (ok rows) = ok (read_back (map_bolt4_to_bolt5 db.serde (nodes_data rows)))

  unfoldable pub get_nodes_near :
      ℤ → List (Float db) → NodeService db (List (NodeWithRelationships db.serde.Number))
  get_nodes_near depth embedding = do
    result ←
        execute_statement db (search_term_query (show_int depth))
          (("embedding", embedding_param db embedding) ∷ [])
    lift (nodes_found result)

  unfoldable pub get_nodes_by_search_term :
      String → ℤ → NodeService db (List (NodeWithRelationships db.serde.Number))
  get_nodes_by_search_term search_term depth = embed db search_term >>= get_nodes_near depth
