-- ===== src/Graph/Returned.antt =====
-- What readers get of the rows that the services on nodes map with common/neo4j_utils.rs.
use atlas_of_us.Effects.Counting.{bind-ok}
use atlas_of_us.Graph.Models.{ServiceError, ℤ}
use atlas_of_us.Graph.Nodes.{embed, database_failure, Property, NodeWithRelationships}
use atlas_of_us.Effects.Defs.{Result, err, ok, ◌>>=◌, unwrap_or}
use atlas_of_us.Graph.Mapping.{
  map_bolt4_to_bolt5, mapped_array, map_bolt4_to_bolt5_relationship, map_bolt4_to_bolt5_node,
  map_rows,
}
use atlas_of_us.Graph.Store.{
  StoreRows, read_rows, Float, NodeCall, execute_statement, StoreRow, NodeStore,
}
use atlas_of_us.Graph.Reading.{
  get_nodes_near, nodes_found, nodes_read, nodes_query, get_nodes_by_search_term,
  get_nodes_with_relationships, read_back, row_value,
}
use atlas_of_us.Graph.Values.{
  json_array, json_object, list_of, get, Value, null, boolean, number, text, array, object,
}
use atlas_of_us.Prelude.{String, ◌≡◌, refl, ap, ◌∙◌, Option, none, some, List, [], ◌∷◌, ◌++◌, map}

-- How the web client reads a row: always three values.
module _ (db : NodeStore) where
  abbrev pub array_or_empty : Option (Value db.serde.Number) → List (Value db.serde.Number)
  array_or_empty (some (array vs)) = list_of vs
  array_or_empty v = []

  abbrev pub client_row : StoreRow db → Value db.serde.Number
  client_row row = json_object (
      ("Keys", json_array (text "node" ∷ text "relationships" ∷ text "affiliatedNodes" ∷ []))
      ∷ (
        "Values",
        json_array (
            map_bolt4_to_bolt5_node db.serde (unwrap_or (row.get_value "node") (json_object []))
            ∷ json_array (
                map (map_bolt4_to_bolt5_relationship db.serde)
                  (array_or_empty (row.get_value "relationships")))
            ∷ json_array (
                map (map_bolt4_to_bolt5_node db.serde)
                  (array_or_empty (row.get_value "affiliatedNodes")))
            ∷ []),
      )
      ∷ [])

  mapped_array-array_or_empty :
      (f : Value db.serde.Number → Value db.serde.Number) (v : Option (Value db.serde.Number))
      → mapped_array db.serde f (some (unwrap_or v (json_array [])))
        ≡ json_array (map f (array_or_empty v)) ∷ []
  mapped_array-array_or_empty f none = refl
  mapped_array-array_or_empty f (some null) = refl
  mapped_array-array_or_empty f (some (boolean b)) = refl
  mapped_array-array_or_empty f (some (number n)) = refl
  mapped_array-array_or_empty f (some (text s)) = refl
  mapped_array-array_or_empty f (some (array vs)) = refl
  mapped_array-array_or_empty f (some (object fs)) = refl

  abbrev row_of :
      Value db.serde.Number
      → List (Value db.serde.Number)
      → List (Value db.serde.Number)
      → Value db.serde.Number
  row_of node rels nodes = json_object (
      ("Keys", json_array (text "node" ∷ text "relationships" ∷ text "affiliatedNodes" ∷ []))
      ∷ ("Values", json_array (node ∷ rels ++ nodes))
      ∷ [])

  map_rows-client_row :
      (rows : List (StoreRow db))
      → map_rows db.serde (map (row_value db) rows) ≡ map client_row rows
  unfolding map_rows get
  map_rows-client_row [] = refl
  map_rows-client_row (row ∷ rows) =
      let rels =
        mapped_array-array_or_empty (map_bolt4_to_bolt5_relationship db.serde)
          (row.get_value "relationships") in
      let nodes =
        mapped_array-array_or_empty (map_bolt4_to_bolt5_node db.serde)
          (row.get_value "affiliatedNodes") in
      let node =
        map_bolt4_to_bolt5_node db.serde (unwrap_or (row.get_value "node") (json_object [])) in
      let affiliated =
        mapped_array db.serde (map_bolt4_to_bolt5_node db.serde)
          (some (unwrap_or (row.get_value "affiliatedNodes") (json_array []))) in
      let related_ = json_array (
        map (map_bolt4_to_bolt5_relationship db.serde)
          (array_or_empty (row.get_value "relationships"))) in
      ap (λ rs. row_of node rs affiliated ∷ map_rows db.serde (map (row_value db) rows)) rels
      ∙ ap (λ ns. row_of node (related_ ∷ []) ns ∷ map_rows db.serde (map (row_value db) rows))
          nodes
      ∙ ap (λ vs. client_row row ∷ vs) (map_rows-client_row rows)

  map_bolt4_to_bolt5-client_row :
      (rows : List (StoreRow db))
      → map_bolt4_to_bolt5 db.serde (map (row_value db) rows) ≡ json_array (map client_row rows)
  unfolding map_bolt4_to_bolt5 get
  map_bolt4_to_bolt5-client_row [] = refl
  map_bolt4_to_bolt5-client_row (row ∷ rows) = ap json_array (map_rows-client_row (row ∷ rows))

  -- What a client gets for the answer of the database.
  abbrev pub client_rows : StoreRows db → Result (ServiceError (Float db)) (Value db.serde.Number)
  client_rows (err e) = err (database_failure db e)
  client_rows (ok rows) = ok (json_array (map client_row (read_rows rows)))

  nodes_read-client_rows : (answer : StoreRows db) → nodes_read db answer ≡ client_rows answer
  nodes_read-client_rows (err e) = refl
  nodes_read-client_rows (ok rows) = ap ok (map_bolt4_to_bolt5-client_row (read_rows rows))

  -- Reading nodes with what is related to them gives one object for each row that could be read,
  -- with three values under their three keys, whatever columns the row has.
  pub get_nodes_with_relationships-client_rows :
      (labels : Option (List String)) (properties : Option (List (Property db))) (depth : ℤ)
      (h : List (NodeCall (Float db)))
      → (get_nodes_with_relationships db labels properties depth h).0
        ≡ client_rows (db.answer_execute h (nodes_query labels (unwrap_or properties []) depth) [])
  unfolding get_nodes_with_relationships execute_statement ◌>>=◌
  get_nodes_with_relationships-client_rows labels properties depth h =
      nodes_read-client_rows
        (db.answer_execute h (nodes_query labels (unwrap_or properties []) depth) [])

  abbrev pub blank : NodeWithRelationships db.serde.Number
  blank = record {
    node = json_object [];
    relationships = json_array [];
    affiliated_nodes = json_array [];
  }

  read_back-blank :
      (rows : List (StoreRow db))
      → read_back db (json_array (map client_row rows)) ≡ map (λ row. blank) rows
  unfolding get
  read_back-blank [] = refl
  read_back-blank (row ∷ rows) = ap (λ ns. blank ∷ ns) (read_back-blank rows)

  map-blank :
      (rows : List (StoreRow db))
      → map (λ row. blank) rows ≡ map (λ n. blank) (map (λ row. blank) rows)
  map-blank [] = refl
  map-blank (row ∷ rows) = ap (λ ns. blank ∷ ns) (map-blank rows)

  nodes_found-blank :
      (answer : StoreRows db) (found : List (NodeWithRelationships db.serde.Number))
      → nodes_found db answer ≡ ok found
      → found ≡ map (λ n. blank) found
  nodes_found-blank (err e) found q = cc
  nodes_found-blank (ok rows) found q =
      let read =
        ap (read_back db) (map_bolt4_to_bolt5-client_row (read_rows rows))
        ∙ read_back-blank (read_rows rows) in
      let same : found ≡ map (λ row. blank) (read_rows rows) = cc in
      rw same (map-blank (read_rows rows))

  -- A search by a text that returns has no node and nothing related in any of its results.
  pub get_nodes_by_search_term-blank :
      (search_term : String) (depth : ℤ) (h : List (NodeCall (Float db)))
      (found : List (NodeWithRelationships db.serde.Number))
      → (get_nodes_by_search_term db search_term depth h).0 ≡ ok found
      → found ≡ map (λ n. blank) found
  unfolding get_nodes_by_search_term get_nodes_near execute_statement ◌>>=◌
  get_nodes_by_search_term-blank search_term depth h found returned =
      let (embedding, h', _, _, rest, _) =
        bind-ok (embed db search_term) (get_nodes_near db depth) h found returned in
      nodes_found-blank _ found rest
