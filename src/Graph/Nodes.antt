-- ===== src/Graph/Nodes.antt =====
-- services/node.rs: creating, finding, reading and updating nodes.
use atlas_of_us.Graph.Database.{first_row}
use atlas_of_us.Graph.Similarity.{find_similar_nodes}
use atlas_of_us.Graph.Queries.{create_node_query, update_node_query, find_node_query}
use atlas_of_us.Agent.Generation.Models.{Similar}
use atlas_of_us.Floats.{is_gt}
use atlas_of_us.Graph.Mapping.{bolt_string, json_value_to_bolt_type}
use atlas_of_us.Graph.Requests.{CreateNodeResult, CreateNodeRequest}
use atlas_of_us.Effects.Defs.{
  attempt, ok, unwrap_or, err, lift, pure, with_err, Result, ◌>>=◌, ◌>>◌,
}
use atlas_of_us.Text.{decimal, format}
use atlas_of_us.Graph.Store.{
  read_rows, generate_embedding, execute_statement, Access, Float, Params, StoreRow, StoreRows,
  NodeStore,
}
use atlas_of_us.Graph.Models.{
  similar_node_exists, negsuc, validation_error, database_error, embedding_failed, ServiceError,
  pos, ℤ,
}
use atlas_of_us.Graph.Values.{json_object, json_array, text_or_empty, Value, null, number}
use atlas_of_us.Prelude.{
  suc, String, Bool, true, false, Option, none, some, List, [], ◌∷◌, map, ◌==◌, if◌then◌else◌,
}

-- `HashMap::insert`: the value of a key that is there is replaced.
unfoldable pub insert_entry {ℓ} : {A : Type ℓ} → String → A → List (String × A) → List (String × A)
insert_entry key v [] = (key, v) ∷ []
insert_entry key v ((k, w) ∷ es) =
    let rest = insert_entry key v es in if k == key then (k, v) ∷ es else (k, w) ∷ rest

-- `HashMap::get`
unfoldable pub lookup_entry {ℓ} : {A : Type ℓ} → String → List (String × A) → Option A
lookup_entry key [] = none
lookup_entry key ((k, v) ∷ es) = let rest = lookup_entry key es in if k == key then some v else rest

abbrev pub keys {ℓ} : {A : Type ℓ} → List (String × A) → List String
keys [] = []
keys ((k, v) ∷ es) = k ∷ keys es

abbrev pub show_int : ℤ → String
show_int (pos n) = decimal n
show_int (negsuc n) = format ("-" ∷ decimal (suc n) ∷ [])

pub record NodeWithRelationships (N : Type 0) : Type 0 where
  pub node : Value N
  pub relationships : Value N
  pub affiliated_nodes : Value N

module _ (db : NodeStore) where
  abbrev pub Property : Type 0
  Property = String × Value db.serde.Number

  abbrev pub NodeService : Type 0 → Type 0
  NodeService A = Access db (ServiceError (Float db)) A

  abbrev pub database_failure : String → ServiceError (Float db)
  database_failure e = database_error (format ("Database error: " ∷ e ∷ []))

  -- `json!` of a number that is none is null.
  abbrev pub json_float : Float db → Value db.serde.Number
  json_float x = elim (db.serde.from_f64 x) [ some n ↦ number n | none ↦ null ]

  abbrev pub params_of : List Property → Params db
  params_of [] = []
  params_of ((k, v) ∷ ps) = (k, json_value_to_bolt_type db.serde v) ∷ params_of ps

  abbrev pub embedding_failure : String → ServiceError (Float db)
  embedding_failure e = embedding_failed e

  abbrev pub embed : String → NodeService (List (Float db))
  embed text_to_embed = with_err embedding_failure (generate_embedding db text_to_embed)

  abbrev pub node_text : List Property → String
  node_text properties = format (
      text_or_empty (lookup_entry "name" properties)
      ∷ ": "
      ∷ text_or_empty (lookup_entry "description" properties)
      ∷ [])

  abbrev pub is_too_similar : Float db → Bool
  is_too_similar score = is_gt (db.serde.floats.partial_cmp score (db.serde.floats.hundredths 70))

  -- Fails where the best of the nodes is too similar.
  abbrev pub unless_similar :
      Result String (List (Similar (Float db))) → Result (ServiceError (Float db)) (Unit {0})
  unless_similar (err e) = err (database_error (format ("Failed to find similar nodes: " ∷ e ∷ [])))
  unless_similar (ok []) = ok tt
  unless_similar (ok (best ∷ nodes)) =
      if is_too_similar best.score
      then err (
          similar_node_exists best.score (
            format (
              "A node with a similarity score of "
              ∷ db.serde.floats.format_full best.score
              ∷ " already exists."
              ∷ [])))
      else ok tt

  unfoldable pub check_similar : Bool → List (Float db) → NodeService (Unit {0})
  check_similar false embedding = pure tt
  check_similar true embedding = do
    similar_nodes ← attempt (
        find_similar_nodes db (record {
          node_id = none;
          embedding = some embedding;
          text = none;
          label = none;
          limit = some (pos 1);
        }))
    lift (unless_similar similar_nodes)

  abbrev pub node_of_row :
      List String → Option (StoreRow db) → Result (ServiceError (Float db)) CreateNodeResult
  node_of_row labels none = err (database_error "Failed to get element ID after node creation")
  node_of_row labels (some row) = ok (record {
    element_id = unwrap_or (row.get_text "elementId") "";
    name = unwrap_or (row.get_text "name") "";
    labels = labels;
  })

  abbrev pub created_node :
      List String → StoreRows db → Result (ServiceError (Float db)) CreateNodeResult
  created_node labels (err e) = err (database_failure e)
  created_node labels (ok rows) = node_of_row labels (first_row rows)

  unfoldable pub insert_node :
      CreateNodeRequest (Value db.serde.Number) → List (Float db) → NodeService CreateNodeResult
  insert_node request embedding = do
    let final_properties =
        insert_entry "embedding" (json_array (map json_float embedding)) request.properties
    result ←
        execute_statement db (create_node_query request.labels (keys final_properties))
          (params_of final_properties)
    lift (created_node request.labels result)

  unfoldable pub create_node :
      CreateNodeRequest (Value db.serde.Number) → Bool → NodeService CreateNodeResult
  create_node request check_similarity = do
    embedding ← embed (node_text request.properties)
    check_similar check_similarity embedding
    insert_node request embedding

  abbrev pub found_node : StoreRows db → Result (ServiceError (Float db)) (Option String)
  found_node (err e) = err (database_failure e)
  found_node (ok rows) = elim (first_row rows) [
    | none ↦ ok none
    | some row ↦ ok (some (unwrap_or (row.get_text "elementId") ""))
  ]

  unfoldable pub find_node_by_name : String → Option String → NodeService (Option String)
  find_node_by_name name label = do
    result ← execute_statement db (find_node_query label) (("name", bolt_string name) ∷ [])
    lift (found_node result)

  -- A column of each row.
  abbrev pub values_of :
      String → StoreRows db → Result (ServiceError (Float db)) (List (Value db.serde.Number))
  values_of column (err e) = err (database_failure e)
  values_of column (ok rows) =
      ok (map (λ row. unwrap_or (row.get_value column) (json_object [])) (read_rows rows))

  -- One of the two has to be given.
  abbrev pub check_update :
      Option (List String) → Option (List Property) → Result (ServiceError (Float db)) (Unit {0})
  check_update none none =
      err (validation_error "At least one of 'labels' or 'properties' must be provided")
  check_update labels properties = ok tt

  unfoldable pub update_node :
      String
      → Option (List String)
      → Option (List Property)
      → NodeService (List (Value db.serde.Number))
  update_node target_id labels properties = do
    lift (check_update labels properties)
    let props = unwrap_or properties []
    result ←
        execute_statement db (update_node_query labels (keys props))
          (("targetId", bolt_string target_id) ∷ params_of props)
    lift (values_of "n" result)
