-- ===== src/Worker/Decisions/Consultation.antt =====
-- When a decision asks the language model.
use atlas_of_us.Prelude.{
  ◌+◌, String, ◌≡◌, refl, inl, inr, false, ◌||◌, none, List, ◌∷◌, arith, if◌then◌else◌, Bool-cases,
  length,
}
use atlas_of_us.Effects.Defs.{ok, pure, ◌>>=◌}
use atlas_of_us.Floats.{lt_f64, ge_f64}
use atlas_of_us.Worker.Services.{Services, Float, Call}
use atlas_of_us.Worker.Clients.{LlmService, generate}
use atlas_of_us.Worker.Similarity.{SimilarNodeResult}
use atlas_of_us.Worker.Decision.{
  use_existing, create_new, decide_by, decide_concept_action, SimilarityThresholds, verify_with_llm,
}

module _ (env : Services) (llm : LlmService) where
  calls-verify_with_llm :
      (c : String) (ns : List (SimilarNodeResult (Float env))) (d l : String)
      (h : List (Call (Float env)))
      → length (verify_with_llm env llm c ns d l h).1 ≡ length h + 1
  unfolding verify_with_llm generate ◌>>=◌
  calls-verify_with_llm c ns d l h = ground arith

  asked :
      (c : String) (ns : List (SimilarNodeResult (Float env))) (d l : String)
      (h : List (Call (Float env)))
      → length (decide_by env llm c ns d l none false h).1 ≡ length h + 1
  unfolding ◌>>=◌
  asked c ns d l h = ground (arith, calls-verify_with_llm c ns d l h)

-- A best match whose score is at or above the upper threshold is reused, and one below the lower
-- threshold leads to a new node, both without a call; otherwise exactly one call is made.
pub decide_concept_action-calls :
    (env : Services) (llm : LlmService) (concept : String) (top : SimilarNodeResult (Float env))
    (rest : List (SimilarNodeResult (Float env))) (thresholds : SimilarityThresholds (Float env))
    (domain label : String) (h : List (Call (Float env)))
    → let high = ge_f64 env.floats top.score thresholds.auto_reuse in
      let low = lt_f64 env.floats top.score thresholds.auto_create in
      let run = decide_concept_action env llm concept (top ∷ rest) thresholds domain label h in
      (run.0 ≡ (
        if high then ok (use_existing top.id top.name) else if low then ok create_new else run.0))
      × (length run.1 ≡ length h + (if high || low then 0 else 1))
unfolding decide_concept_action pure
decide_concept_action-calls env llm c top rest t d l h =
    elim (Bool-cases (ge_f64 env.floats top.score t.auto_reuse)) [
      | inl high ↦ rw high (refl, omega arith)
      | inr not_high ↦ elim (Bool-cases (lt_f64 env.floats top.score t.auto_create)) [
        | inl low ↦ rw (not_high, low) (refl, omega arith)
        | inr not_low ↦ rw (not_high, not_low) (refl, asked env llm c (top ∷ rest) d l h)
      ]
    ]
