-- ===== src/Worker/Similarity.antt =====
-- Vector search for similar nodes: services/similarity.rs of the worker.
use atlas_of_us.Prelude.{ℕ, String, Option, none, some, List, [], ◌∷◌}
use atlas_of_us.Text.{format}
use atlas_of_us.Effects.Defs.{Result, ok, err, Eff, raise, lift, ◌>>=◌, with_err, unwrap_or}
use atlas_of_us.Worker.Services.{
  Services, Float, Call, Bolt, Params, Row, Statement, similar_by_node, similar_by_embedding,
}
use atlas_of_us.Worker.Clients.{generate_embedding, show_embedding_error, execute}

-- `limit` is an `i32` in the source; its callers pass small positive numbers.
pub record FindSimilarNodesRequest (F : Type 0) : Type 0 where
  pub node_id : Option String
  pub embedding : Option (List F)
  pub text : Option String
  pub label : Option String
  pub limit : Option ℕ

pub record SimilarNodeResult (F : Type 0) : Type 0 where
  pub name : String
  pub description : Option String
  pub id : String
  pub score : F

pub data SimilarityError : Type 0 where
  embedding_failed query_failed invalid_request : String → SimilarityError

unfoldable pub show_similarity_error : SimilarityError → String
show_similarity_error (embedding_failed m) = format ("Embedding generation failed: " ∷ m ∷ [])
show_similarity_error (query_failed m) = format ("Query failed: " ∷ m ∷ [])
show_similarity_error (invalid_request m) = format ("Invalid request: " ∷ m ∷ [])

module _ (env : Services) where
  abbrev similar_of_row : Row (Float env) → SimilarNodeResult (Float env)
  similar_of_row row = record {
    name = unwrap_or (row.get_text "name") "";
    description = row.get_text "description";
    id = unwrap_or (row.get_text "id") "";
    score = unwrap_or (row.get_float "score") (env.floats.hundredths 0);
  }

  -- The loop over the rows ends at the first that cannot be read.
  unfoldable pub collect_rows :
      List (Result String (Row (Float env)))
      → Result SimilarityError (List (SimilarNodeResult (Float env)))
  collect_rows [] = ok []
  collect_rows (err e ∷ rows) = err (query_failed e)
  collect_rows (ok row ∷ rows) = elim (collect_rows rows) [
    | ok rest ↦ ok (similar_of_row row ∷ rest)
    | err e ↦ err e
  ]

  unfoldable pub execute_similarity_query :
      Statement
      → Params (Float env)
      → Eff (Call (Float env)) SimilarityError (List (SimilarNodeResult (Float env)))
  unfolding collect_rows
  execute_similarity_query s params = do
    rows ← with_err query_failed (execute env s params)
    lift (collect_rows rows)

  abbrev search_embedding :
      Option String
      → ℕ
      → List (Float env)
      → Eff (Call (Float env)) SimilarityError (List (SimilarNodeResult (Float env)))
  search_embedding label limit embedding =
      execute_similarity_query (similar_by_embedding label)
        (("embedding", Bolt.floats embedding) ∷ ("limit", Bolt.int limit) ∷ [])

  abbrev pub search_by :
      FindSimilarNodesRequest (Float env)
      → Option String
      → Option (List (Float env))
      → Option String
      → Eff (Call (Float env)) SimilarityError (List (SimilarNodeResult (Float env)))
  search_by r (some node_id) embedding text =
      execute_similarity_query (similar_by_node r.label)
        (("nodeId", Bolt.text node_id) ∷ ("limit", Bolt.int (unwrap_or r.limit 5)) ∷ [])
  search_by r none (some embedding) text = search_embedding r.label (unwrap_or r.limit 5) embedding
  search_by r none none (some text) = do
    embedding ←
        with_err (λ e. embedding_failed (show_embedding_error e)) (generate_embedding env text)
    search_embedding r.label (unwrap_or r.limit 5) embedding
  search_by r none none none =
      raise (invalid_request "Either node_id, embedding, or text must be provided")

  -- The node id comes before the embedding, and the embedding before the text.
  unfoldable pub find_similar_nodes :
      FindSimilarNodesRequest (Float env)
      → Eff (Call (Float env)) SimilarityError (List (SimilarNodeResult (Float env)))
  find_similar_nodes r = search_by r r.node_id r.embedding r.text

  unfoldable pub find_similar_by_text :
      String
      → Option String
      → ℕ
      → Eff (Call (Float env)) SimilarityError (List (SimilarNodeResult (Float env)))
  unfolding find_similar_nodes
  find_similar_by_text text label limit = find_similar_nodes (record {
    node_id = none;
    embedding = none;
    text = some text;
    label = label;
    limit = some limit;
  })
