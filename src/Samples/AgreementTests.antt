-- ===== src/Samples/AgreementTests.antt =====
-- The agreement of the service and the worker at a similar node of score 0.97.
use atlas_of_us.Prelude.{ℕ, ◌≡◌, refl, Option, none, some, [], ◌∷◌, map}
use atlas_of_us.Worker.Similarity.{SimilarNodeResult}
use atlas_of_us.Agent.Concepts.{determine_action_by_score, concept_use_existing}
use atlas_of_us.Agreement.{as_similar, DecidesAlike, decide_concept_action-DecidesAlike}
use atlas_of_us.Samples.Outside.{outside, llm}

abbrev close : SimilarNodeResult (Option ℕ)
close = record { name = "Chess Openings"; description = none; id = "n7"; score = some 97 }

score_decides :
    determine_action_by_score outside.floats "Openings" (map as_similar (close ∷ []))
    ≡ some (concept_use_existing "Openings" "n7")
unfolding determine_action_by_score
score_decides = refl

decide_concept_action-DecidesAlike_example :
    DecidesAlike outside llm "Openings" "Chess" "Knowledge" []
      (close ∷ [])
      (concept_use_existing "Openings" "n7")
decide_concept_action-DecidesAlike_example =
    decide_concept_action-DecidesAlike outside llm "Openings" "Chess" "Knowledge" [] (close ∷ [])
      (concept_use_existing "Openings" "n7") score_decides
