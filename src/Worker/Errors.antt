-- ===== src/Worker/Errors.antt =====
-- `ProcessingError` of the worker's handler.rs.
use atlas_of_us.Prelude.{String, Bool, true, false, [], ◌∷◌}
use atlas_of_us.Text.{format}
use atlas_of_us.Worker.Clients.{LlmError, show_llm_error, EmbeddingError, show_embedding_error}
use atlas_of_us.Worker.Similarity.{SimilarityError, show_similarity_error}

pub data ProcessingError : Type 0 where
  neo4j embedding llm similarity configuration invalid_data : String → ProcessingError

unfoldable pub show_processing_error : ProcessingError → String
show_processing_error (neo4j m) = format ("Neo4j error: " ∷ m ∷ [])
show_processing_error (embedding m) = format ("Embedding error: " ∷ m ∷ [])
show_processing_error (llm m) = format ("LLM error: " ∷ m ∷ [])
show_processing_error (similarity m) = format ("Similarity error: " ∷ m ∷ [])
show_processing_error (configuration m) = format ("Configuration error: " ∷ m ∷ [])
show_processing_error (invalid_data m) = format ("Invalid data: " ∷ m ∷ [])

unfoldable pub is_retryable_error : ProcessingError → Bool
is_retryable_error (neo4j _) = true
is_retryable_error (embedding _) = true
is_retryable_error (llm _) = true
is_retryable_error _ = false

-- The three `From` conversions.
abbrev pub from_embedding : EmbeddingError → ProcessingError
from_embedding e = embedding (show_embedding_error e)

abbrev pub from_llm : LlmError → ProcessingError
from_llm e = llm (show_llm_error e)

abbrev pub from_similarity : SimilarityError → ProcessingError
from_similarity e = similarity (show_similarity_error e)
