-- ===== src/Graph/Responses.antt =====
-- domains/graph/handlers.rs: the handlers on nodes and relationships, as functions of the request
-- that a route has decoded. A failure is its status with the body, if it has one.
use atlas_of_us.Graph.Mapping.{json_int}
use atlas_of_us.Graph.Relationships.{
  create_relationship, delete_relationship, find_similar, search_nodes, update_relationship,
}
use atlas_of_us.Graph.Reading.{get_nodes_by_search_term, get_nodes_with_relationships}
use atlas_of_us.Agent.Generation.Models.{Similar}
use atlas_of_us.Graph.Requests.{
  CreateRelationshipResult, CreateNodeRequest, CreateNodeResult, CreateRelationshipRequest,
  FindSimilarNodesRequest,
}
use atlas_of_us.Graph.Nodes.{create_node, json_float, update_node, Property, NodeWithRelationships}
use atlas_of_us.Effects.Defs.{err, pure, unwrap_or, ok, lift, with_err, Result, ◌>>=◌}
use atlas_of_us.Graph.Store.{Float, Access, NodeStore}
use atlas_of_us.Text.{chars, format, trim_chars, of_chars}
use Prim.Native.Char.{Char, code}
use atlas_of_us.Graph.Values.{json_array, json_object, Value, null, text}
use atlas_of_us.Graph.Models.{
  show_service_error, ServiceError, ℤ, pos, embedding_failed, validation_error, similar_node_exists,
}
use atlas_of_us.Prelude.{
  ℕ, String, true, false, Option, none, some, List, [], ◌∷◌, map, ◌==ₙ◌, if◌then◌else◌,
}

pub record UpdateNodeRequest (V : Type 0) : Type 0 where
  pub target_id : String
  pub labels : Option (List String)
  pub properties : Option (List (String × V))

pub record UpdateRelationshipRequest (V : Type 0) : Type 0 where
  pub target_id : String
  pub relationship_type : String
  pub properties : Option (List (String × V))

pub record NodeQueryParams : Type 0 where
  pub labels : Option String
  pub properties : Option String
  pub depth : Option ℤ

pub record SearchNodesParams : Type 0 where
  pub query : String
  pub labels : Option String
  pub limit : Option ℤ

abbrev grow : Char → List (List Char) → List (List Char)
grow c [] = (c ∷ []) ∷ []
grow c (word ∷ words) = (c ∷ word) ∷ words

-- `split(',')`
unfoldable pub split_commas : List Char → List (List Char)
split_commas [] = [] ∷ []
split_commas (c ∷ cs) =
    let rest = split_commas cs in if code c ==ₙ 44 then [] ∷ rest else grow c rest

abbrev pub parse_labels : Option String → Option (List String)
parse_labels none = none
parse_labels (some labels_str) =
    some (map (λ cs. of_chars (trim_chars cs)) (split_commas (chars labels_str)))

module _ (db : NodeStore) where
  abbrev pub Body : Type 0
  Body = Value db.serde.Number

  abbrev pub HttpFailure : Type 0
  HttpFailure = ℕ × Option Body

  abbrev pub Handler : Type 0
  Handler = Access db HttpFailure Body

  abbrev pub internal_error : HttpFailure
  internal_error = (500, some (json_object (("error", text "internal server error") ∷ [])))

  abbrev pub bad_request : String → HttpFailure
  bad_request e =
      (400, some (json_object (("details", text e) ∷ ("error", text "invalid request body") ∷ [])))

  abbrev pub any_failure : ServiceError (Float db) → HttpFailure
  any_failure e = internal_error

  abbrev pub bare_failure : ServiceError (Float db) → HttpFailure
  bare_failure e = (500, none)

  abbrev pub texts_json : List String → Body
  texts_json ss = json_array (map text ss)

  abbrev pub parse_properties : Option String → Result HttpFailure (Option (List (Property db)))
  parse_properties none = ok none
  parse_properties (some properties_str) = elim (db.serde.entries_of_text properties_str) [
    | some props ↦ ok (some props)
    | none ↦ err (400, none)
  ]

  unfoldable pub get_nodes : NodeQueryParams → Handler
  get_nodes params = do
    properties ← lift (parse_properties params.properties)
    with_err bare_failure (
        get_nodes_with_relationships db (parse_labels params.labels) properties
          (unwrap_or params.depth (pos 1)))

  abbrev pub related_json : NodeWithRelationships db.serde.Number → Body
  related_json n = json_object (
      ("affiliatedNodes", n.affiliated_nodes)
      ∷ ("node", n.node)
      ∷ ("relationships", n.relationships)
      ∷ [])

  unfoldable pub get_node_with_relationships_by_search_term : String → Option ℤ → Handler
  get_node_with_relationships_by_search_term search_term depth = do
    nodes ←
        with_err bare_failure (get_nodes_by_search_term db search_term (unwrap_or depth (pos 1)))
    pure (json_array (map related_json nodes))

  abbrev pub create_node_failure : ServiceError (Float db) → HttpFailure
  create_node_failure (similar_node_exists score details) = (
    409,
    some (
        json_object (
          ("details", text details)
          ∷ ("error", text "similar node already exists")
          ∷ ("score", json_float db score)
          ∷ [])),
  )
  create_node_failure (embedding_failed e) = (
    500,
    some (json_object (("error", text (format ("failed to generate embedding: " ∷ e ∷ []))) ∷ [])),
  )
  create_node_failure e = internal_error

  abbrev pub created_json : CreateNodeResult → Body
  created_json result = json_array (
      json_object (
        ("elementId", text result.element_id)
        ∷ ("labels", texts_json result.labels)
        ∷ ("props", json_object (("name", text result.name) ∷ []))
        ∷ [])
      ∷ [])

  unfoldable pub post_node : CreateNodeRequest Body → Handler
  post_node request = do
    result ← with_err create_node_failure (create_node db request true)
    pure (created_json result)

  unfoldable pub post_relationship : CreateRelationshipRequest Body → Handler
  post_relationship request = do
    result ← with_err any_failure (create_relationship db request)
    pure (
        json_array (
          json_object (
            ("elementId", text result.element_id)
            ∷ ("endElementId", text result.target_id)
            ∷ ("startElementId", text result.source_id)
            ∷ ("type", text result.relationship_type)
            ∷ [])
          ∷ []))

  -- Both handlers that validate answer alike.
  abbrev pub validation_failure : ServiceError (Float db) → HttpFailure
  validation_failure (validation_error e) = bad_request e
  validation_failure e = internal_error

  unfoldable pub put_node : UpdateNodeRequest Body → Handler
  put_node request = do
    nodes ←
        with_err validation_failure
          (update_node db request.target_id request.labels request.properties)
    pure (json_array nodes)

  unfoldable pub put_relationship : UpdateRelationshipRequest Body → Handler
  put_relationship request = do
    relationships ←
        with_err any_failure
          (update_relationship db request.target_id request.relationship_type request.properties)
    pure (json_array relationships)

  abbrev pub text_or_null : Option String → Body
  text_or_null none = null
  text_or_null (some s) = text s

  abbrev pub similar_json : Similar (Float db) → Body
  similar_json n = json_object (
      ("description", text_or_null n.description)
      ∷ ("id", text n.id)
      ∷ ("name", text n.name)
      ∷ ("score", json_float db n.score)
      ∷ [])

  unfoldable pub get_similar_nodes : FindSimilarNodesRequest (Float db) → Handler
  get_similar_nodes request = do
    nodes ←
        with_err validation_failure
          (find_similar db request.node_id request.embedding request.limit)
    pure (json_array (map similar_json nodes))

  unfoldable pub remove_relationship : String → Handler
  remove_relationship relationship_element_id = do
    deleted ← with_err any_failure (delete_relationship db relationship_element_id)
    pure (json_object (("deleted", json_int db.serde deleted) ∷ []))

  unfoldable pub get_search_nodes : SearchNodesParams → Handler
  get_search_nodes params = do
    nodes ← with_err bare_failure (
        search_nodes db params.query (parse_labels params.labels) (unwrap_or params.limit (pos 20)))
    pure (json_object (("nodes", json_array nodes) ∷ []))

  -- For the agent, without the check for similar nodes.
  unfoldable pub create_node_internal : CreateNodeRequest Body → Access db String CreateNodeResult
  create_node_internal request =
      with_err (show_service_error db.serde.floats) (create_node db request false)

  unfoldable pub create_relationship_internal :
      CreateRelationshipRequest Body → Access db String CreateRelationshipResult
  create_relationship_internal request =
      with_err (show_service_error db.serde.floats) (create_relationship db request)
