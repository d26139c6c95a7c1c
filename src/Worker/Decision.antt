-- ===== src/Worker/Decision.antt =====
-- What to do with a concept that may exist already: processors/common.rs of the worker.
use atlas_of_us.Prelude.{
  true, ℕ, String, Bool, false, Option, none, some, List, [], ◌∷◌, map, ltb, ◌==◌, if◌then◌else◌,
  head?, find,
}
use atlas_of_us.Text.{format, lines, join, extract_json}
use atlas_of_us.Effects.Defs.{Eff, pure, lift, ◌>>=◌, with_err, map_err, unwrap_or, or_else}
use atlas_of_us.Floats.{lt_f64, ge_f64}
use atlas_of_us.Worker.Job.{DomainLevelInfo}
use atlas_of_us.Worker.Services.{Services, Float, Call, GenerationConfig, VerificationResponse}
use atlas_of_us.Worker.Clients.{LlmService, generate}
use atlas_of_us.Worker.Similarity.{SimilarNodeResult}
use atlas_of_us.Worker.Errors.{ProcessingError, invalid_data, from_llm}

pub record SimilarityThresholds (F : Type 0) : Type 0 where
  pub auto_reuse : F
  pub auto_create : F

pub data ConceptDecision : Type 0 where
  use_existing : String → String → ConceptDecision
  create_new : ConceptDecision
  create_and_generalize : String → String → ConceptDecision

unfoldable pub determine_level : Option ℕ → String → List DomainLevelInfo → ℕ
determine_level suggested_level _ _ =
    let level = unwrap_or suggested_level 3 in
    if ltb level 1 then 1 else if ltb 5 level then 5 else level

module _ {F : Type 0} where
  abbrev pub is_named : String → SimilarNodeResult F → Bool
  is_named name n = n.name == name

  -- `Some(&n.name) == name.as_ref()`
  abbrev pub is_named_by : Option String → SimilarNodeResult F → Bool
  is_named_by none n = false
  is_named_by (some name) n = n.name == name

  abbrev pub reuse_of : Option (SimilarNodeResult F) → ConceptDecision
  reuse_of none = create_new
  reuse_of (some n) = use_existing n.id n.name

  abbrev pub generalize_to : Option (SimilarNodeResult F) → ConceptDecision
  generalize_to none = create_new
  generalize_to (some n) = create_and_generalize n.id n.name

  -- The `match` on the answer of the language model, by the two tests of its word and by the name
  -- of the target.
  abbrev pub decision_by :
      VerificationResponse
      → List (SimilarNodeResult F)
      → Bool
      → Bool
      → Option String
      → ConceptDecision
  decision_by v similar_nodes true _ target =
      reuse_of
        (or_else (find (is_named_by v.existing_node_name) similar_nodes) (head? similar_nodes))
  decision_by v similar_nodes false true none = create_new
  decision_by v similar_nodes false true (some target_name) =
      generalize_to (find (is_named target_name) similar_nodes)
  decision_by v similar_nodes false false target = create_new

  unfoldable pub decision_of : VerificationResponse → List (SimilarNodeResult F) → ConceptDecision
  decision_of v similar_nodes =
      decision_by v similar_nodes (v.decision == "use_existing")
        (v.decision == "create_and_generalize") (or_else v.existing_node_name v.suggested_target)

module _ (env : Services) where
  unfoldable pub standard : SimilarityThresholds (Float env)
  standard = record {
    auto_reuse = env.floats.hundredths 95;
    auto_create = env.floats.hundredths 70;
  }

  unfoldable pub trait_node : SimilarityThresholds (Float env)
  trait_node = record {
    auto_reuse = env.floats.hundredths 85;
    auto_create = env.floats.hundredths 65;
  }

  similar_line : SimilarNodeResult (Float env) → String
  similar_line n = format (
      "- "
      ∷ n.name
      ∷ " (score: "
      ∷ env.floats.format_two n.score
      ∷ "): "
      ∷ unwrap_or n.description "No description"
      ∷ [])

  verification_prompt : String
  verification_prompt = lines (
      "You are an expert at semantic similarity analysis for a knowledge graph."
      ∷ "Your task is to determine if a concept should reuse an existing node, create a new node,"
      ∷ "or create a domain-specific node that generalizes to an existing node." ∷ ""
      ∷ "Respond with a JSON object containing:"
      ∷ "- \"decision\": one of \"use_existing\", \"create_new\", or \"create_and_generalize\""
      ∷ "- \"existing_node_name\": if using existing or generalizing, the name of the existing node"
      ∷ "- \"reason\": brief explanation" ∷ "" ∷ "Guidelines:"
      ∷ "- \"use_existing\": The concept is semantically equivalent to an existing node"
      ∷ "- \"create_new\": The concept is distinct enough to warrant a new node"
      ∷ "- \"create_and_generalize\": The concept is domain-specific but has a more general equivalent"
      ∷ "  (e.g., \"Chess Tactics\" generalizes to \"Tactics\")" ∷ ""
      ∷ "IMPORTANT: Only respond with valid JSON, no other text." ∷ [])

  -- A match at or above `auto_reuse` is reused.
  abbrev pub reuse_top :
      SimilarityThresholds (Float env)
      → Option (SimilarNodeResult (Float env))
      → Option ConceptDecision
  reuse_top t none = none
  reuse_top t (some top) =
      if ge_f64 env.floats top.score t.auto_reuse then some (use_existing top.id top.name) else none

  -- `similar_nodes.first().map(|n| n.score).unwrap_or(0.0)`
  abbrev pub top_score : Option (SimilarNodeResult (Float env)) → Float env
  top_score none = env.floats.hundredths 0
  top_score (some top) = top.score

  module _ (llm : LlmService) where
    unfoldable pub verify_with_llm :
        String
        → List (SimilarNodeResult (Float env))
        → String
        → String
        → Eff (Call (Float env)) ProcessingError VerificationResponse
    unfolding similar_line verification_prompt
    verify_with_llm concept_name similar_nodes domain_name node_label = do
      let similar_list = join "\n" (map similar_line similar_nodes)
      let user_prompt = lines (
          format ("Domain: " ∷ domain_name ∷ [])
          ∷ format (node_label ∷ " concept: \"" ∷ concept_name ∷ "\"" ∷ [])
          ∷ ""
          ∷ "Similar existing nodes:"
          ∷ similar_list
          ∷ ""
          ∷ "Should this concept reuse an existing node, be created as new, or generalize to an existing node?"
          ∷ [])
      let config : GenerationConfig = record { max_tokens = 512; temperature = 30 }
      response ← with_err from_llm (generate env llm verification_prompt user_prompt config)
      lift (
          map_err
            (λ e. invalid_data (
              format (
                "Failed to parse LLM verification response: " ∷ e ∷ ". Response was: " ∷ response
                ∷ [])))
            (env.decode_verification (extract_json response)))

    -- The rest of the decision, by the top match to reuse and by the test for a low score.
    abbrev pub decide_by :
        String
        → List (SimilarNodeResult (Float env))
        → String
        → String
        → Option ConceptDecision
        → Bool
        → Eff (Call (Float env)) ProcessingError ConceptDecision
    decide_by concept_name similar_nodes domain_name node_label (some decision) low = pure decision
    decide_by concept_name similar_nodes domain_name node_label none true = pure create_new
    decide_by concept_name similar_nodes domain_name node_label none false = do
      verification ← verify_with_llm concept_name similar_nodes domain_name node_label
      pure (decision_of verification similar_nodes)

    unfoldable pub decide_concept_action :
        String
        → List (SimilarNodeResult (Float env))
        → SimilarityThresholds (Float env)
        → String
        → String
        → Eff (Call (Float env)) ProcessingError ConceptDecision
    unfolding decision_of
    decide_concept_action concept_name similar_nodes thresholds domain_name node_label =
        decide_by concept_name similar_nodes domain_name node_label
          (reuse_top thresholds (head? similar_nodes))
          (lt_f64 env.floats (top_score (head? similar_nodes)) thresholds.auto_create)
