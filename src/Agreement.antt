-- ===== src/Agreement.antt =====
-- The service and the worker decide alike: StepUtils of
-- apis/atlas_of_us_rest_api/src/domains/agent/steps/mod.rs against decide_concept_action of
-- apis/atlas_domain_worker/src/processors/common.rs.
use atlas_of_us.Prelude.{
  String, ◌≡◌, refl, inl, inr, Option, none, some, List, [], ◌∷◌, map, arith, Bool-cases,
}
use atlas_of_us.Effects.Defs.{ok, pure}
use atlas_of_us.Floats.{lt_f64, ge_f64, lt-ge_literals}
use atlas_of_us.Worker.Services.{Services, Float, Call}
use atlas_of_us.Worker.Clients.{LlmService}
use atlas_of_us.Worker.Similarity.{SimilarNodeResult}
use atlas_of_us.Worker.Decision.{
  ConceptDecision, use_existing, create_new, decide_concept_action, standard,
}
use atlas_of_us.Agent.Generation.Models.{Similar}
use atlas_of_us.Agent.Concepts.{
  VerifiedConcept, create_new_node, use_node, generalize_node, determine_action_by_score,
  concept_create_new, concept_use_existing,
}

-- A similar node as the service has it.
abbrev pub as_similar : {F : Type 0} → SimilarNodeResult F → Similar F
as_similar n = record { name = n.name; description = n.description; id = n.id; score = n.score }

-- The worker's decision as the service states it: the node to use, or none to create one.
abbrev pub node_used : ConceptDecision → Option String
node_used (use_existing id name) = some id
node_used _ = none

abbrev pub concept_node : VerifiedConcept → Option String
concept_node v = elim v.action [
  | create_new_node ↦ none
  | use_node id ↦ some id
  | generalize_node id name needs_creation ↦ none
]

module _ (env : Services) (llm : LlmService) (concept domain label : String)
    (h : List (Call (Float env))) where
  -- The worker decides without a call, and for that node.
  abbrev pub DecidesAlike : List (SimilarNodeResult (Float env)) → VerifiedConcept → Type 0
  DecidesAlike similar v =
      (d : ConceptDecision) × (decide_concept_action env llm concept similar (standard env) domain
          label h
        ≡ (ok d, h))
      × (node_used d ≡ concept_node v)

  creates :
      (similar : List (SimilarNodeResult (Float env)))
      → decide_concept_action env llm concept similar (standard env) domain label h
        ≡ (ok create_new, h)
      → (v : VerifiedConcept) → concept_create_new concept ≡ v
      → DecidesAlike similar v
  creates similar ran v same = (create_new, ran, rw (← same) refl)

-- What the service decides by the scores alone, the worker decides with its standard thresholds,
-- without a call and for the same node: the order in which they test the two thresholds does not
-- matter.
pub decide_concept_action-DecidesAlike :
    (env : Services) (llm : LlmService) (concept domain label : String)
    (h : List (Call (Float env))) (similar : List (SimilarNodeResult (Float env)))
    (v : VerifiedConcept)
    → determine_action_by_score env.floats concept (map as_similar similar) ≡ some v
    → DecidesAlike env llm concept domain label h similar v
unfolding determine_action_by_score decide_concept_action standard pure
decide_concept_action-DecidesAlike env llm concept domain label h [] v e =
    creates env llm concept domain label h []
      (rw (env.floats.hundredths_lt 0 70 (omega arith)) refl) v cc
decide_concept_action-DecidesAlike env llm concept domain label h (top ∷ rest) v e =
    elim (Bool-cases (ge_f64 env.floats top.score (env.floats.hundredths 95))) [
      | inl high ↦
          let not_low = lt-ge_literals env.floats top.score 70 95 (omega arith) high in
          let same : concept_use_existing concept top.id ≡ v = cc (rw (not_low, high) at e) in
          (use_existing top.id top.name, rw high refl, rw (← same) refl)
      | inr not_high ↦ elim (Bool-cases (lt_f64 env.floats top.score (env.floats.hundredths 70))) [
        | inl low ↦
            creates env llm concept domain label h (top ∷ rest) (rw (not_high, low) refl) v
              (let same : concept_create_new concept ≡ v = cc (rw low at e) in same)
        | inr not_low ↦ cc (rw (not_low, not_high) at e)
      ]
    ]
