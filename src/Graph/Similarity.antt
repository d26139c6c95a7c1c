-- ===== src/Graph/Similarity.antt =====
-- common/similarity.rs: nodes similar to a node, an embedding or a text.
use atlas_of_us.Graph.Mapping.{bolt_integer, bolt_string}
use atlas_of_us.Graph.Queries.{build_node_id_query, build_embedding_query}
use atlas_of_us.Effects.Defs.{lift, map_ok, ok, err, raise, unwrap_or, ◌>>=◌, Result}
use atlas_of_us.Agent.Generation.Models.{Similar}
use atlas_of_us.Graph.Requests.{FindSimilarNodesRequest}
use atlas_of_us.Graph.Models.{pos, ℤ}
use atlas_of_us.Graph.Store.{
  collect_rows, embedding_param, execute_statement, generate_embedding, Access, Float, Params,
  StoreRow, StoreRows, NodeStore,
}
use atlas_of_us.Prelude.{String, Option, none, some, List, [], ◌∷◌, map}

module _ (db : NodeStore) where
  abbrev pub similar_of : StoreRow db → Similar (Float db)
  similar_of row = record {
    name = unwrap_or (row.get_text "name") "";
    description = row.get_text "description";
    id = unwrap_or (row.get_text "id") "";
    score = unwrap_or (row.get_float "score") (db.serde.floats.hundredths 0);
  }

  abbrev pub read_similar : StoreRows db → Result String (List (Similar (Float db)))
  read_similar (err e) = err e
  read_similar (ok rows) = map_ok (map similar_of) (collect_rows rows)

  unfoldable pub execute_similarity_query :
      String → Params db → Access db String (List (Similar (Float db)))
  execute_similarity_query query_str params = do
    result ← execute_statement db query_str params
    lift (read_similar result)

  abbrev similar_to_embedding :
      Option String → ℤ → List (Float db) → Access db String (List (Similar (Float db)))
  similar_to_embedding label limit embedding =
      execute_similarity_query (build_embedding_query label)
        (("embedding", embedding_param db embedding) ∷ ("limit", bolt_integer limit) ∷ [])

  abbrev pub similar_to_text :
      Option String → ℤ → Option String → Access db String (List (Similar (Float db)))
  similar_to_text label limit none = raise "Either node_id, embedding, or text must be provided"
  similar_to_text label limit (some text) = do
    embedding ← generate_embedding db text
    similar_to_embedding label limit embedding

  -- The node comes before the embedding, and the embedding before the text.
  unfoldable pub find_similar_nodes :
      FindSimilarNodesRequest (Float db) → Access db String (List (Similar (Float db)))
  find_similar_nodes request =
      let limit = unwrap_or request.limit (pos 5) in
      elim request.node_id [
        | some node_id ↦
            execute_similarity_query (build_node_id_query request.label)
              (("nodeId", bolt_string node_id) ∷ ("limit", bolt_integer limit) ∷ [])
        | none ↦ elim request.embedding [
          | some embedding ↦ similar_to_embedding request.label limit embedding
          | none ↦ similar_to_text request.label limit request.text
        ]
      ]
