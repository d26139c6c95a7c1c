-- ===== src/Graph/Relationships.antt =====
-- services/relationship.rs and services/search.rs.
use atlas_of_us.Graph.Similarity.{find_similar_nodes}
use atlas_of_us.Graph.Database.{first_row}
use atlas_of_us.Graph.Queries.{
  create_relationship_query, delete_relationship_query, search_nodes_query,
  update_relationship_query,
}
use atlas_of_us.Text.{is_some, format}
use atlas_of_us.Agent.Generation.Models.{Similar}
use atlas_of_us.Effects.Defs.{with_err, lift, ok, ◌>>◌, err, unwrap_or, ◌>>=◌, Result}
use atlas_of_us.Graph.Models.{pos, validation_error, database_error, ServiceError, ℤ}
use atlas_of_us.Graph.Nodes.{NodeService}
use atlas_of_us.Graph.Nodes.{params_of, keys, values_of, database_failure, Property}
use atlas_of_us.Graph.Requests.{CreateRelationshipResult, CreateRelationshipRequest}
use atlas_of_us.Graph.Store.{execute_statement, Float, StoreRows, NodeStore}
use atlas_of_us.Graph.Values.{Value}
use atlas_of_us.Graph.Mapping.{bolt_string, bolt_integer}
use atlas_of_us.Prelude.{
  String, Bool, true, false, not, ◌&&◌, ◌||◌, Option, none, some, List, [], ◌∷◌, if◌then◌else◌,
}

module _ (db : NodeStore) where
  abbrev pub created_relationship :
      CreateRelationshipRequest (Value db.serde.Number)
      → StoreRows db
      → Result (ServiceError (Float db)) CreateRelationshipResult
  created_relationship request (err e) = err (database_failure db e)
  created_relationship request (ok rows) = elim (first_row rows) [
    | none ↦ err (database_error "Failed to get element ID after relationship creation")
    | some row ↦ ok (record {
      element_id = unwrap_or (row.get_text "elementId") "";
      relationship_type = request.relationship_type;
      source_id = request.source_id;
      target_id = request.target_id;
    })
  ]

  unfoldable pub create_relationship :
      CreateRelationshipRequest (Value db.serde.Number) → NodeService db CreateRelationshipResult
  create_relationship request = do
    let properties = unwrap_or request.properties []
    result ←
        execute_statement db (create_relationship_query request.relationship_type (keys properties))
          (("sourceId", bolt_string request.source_id)
            ∷ ("targetId", bolt_string request.target_id)
            ∷ params_of db properties)
    lift (created_relationship request result)

  unfoldable pub update_relationship :
      String → String → Option (List (Property db)) → NodeService db (List (Value db.serde.Number))
  update_relationship target_id relationship_type properties = do
    let props = unwrap_or properties []
    result ←
        execute_statement db (update_relationship_query relationship_type (keys props))
          (("targetId", bolt_string target_id) ∷ params_of db props)
    lift (values_of db "r" result)

  abbrev pub deleted_count : StoreRows db → Result (ServiceError (Float db)) ℤ
  deleted_count (err e) = err (database_failure db e)
  deleted_count (ok rows) = elim (first_row rows) [
    | none ↦ ok (pos 0)
    | some row ↦ ok (unwrap_or (row.get_int "deleted") (pos 0))
  ]

  unfoldable pub delete_relationship : String → NodeService db ℤ
  delete_relationship element_id = do
    result ← execute_statement db delete_relationship_query (("relId", bolt_string element_id) ∷ [])
    lift (deleted_count result)

  unfoldable pub search_nodes :
      String → Option (List String) → ℤ → NodeService db (List (Value db.serde.Number))
  search_nodes query_text labels limit = do
    result ←
        execute_statement db (search_nodes_query labels)
          (("query", bolt_string query_text) ∷ ("limit", bolt_integer limit) ∷ [])
    lift (values_of db "node" result)

  abbrev pub has_embedding : Option (List (Float db)) → Bool
  has_embedding (some (x ∷ xs)) = true
  has_embedding embedding = false

  abbrev pub exactly_one : Bool → Bool → Result (ServiceError (Float db)) (Unit {0})
  exactly_one has_node_id has_embedding =
      if (not has_node_id && not has_embedding) || (has_node_id && has_embedding)
      then err (validation_error "Exactly one of 'nodeId' or 'embedding' must be provided")
      else ok tt

  abbrev pub similarity_failure : String → ServiceError (Float db)
  similarity_failure e = database_error (format ("Error finding similar nodes: " ∷ e ∷ []))

  -- The caller gets the list as JSON.
  unfoldable pub find_similar :
      Option String
      → Option (List (Float db))
      → Option ℤ
      → NodeService db (List (Similar (Float db)))
  find_similar node_id embedding limit = do
    lift (exactly_one (is_some node_id) (has_embedding embedding))
    with_err similarity_failure (
        find_similar_nodes db (record {
          node_id = node_id;
          embedding = embedding;
          text = none;
          label = none;
          limit = limit;
        }))
