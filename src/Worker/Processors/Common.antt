-- ===== src/Worker/Processors/Common.antt =====
-- What the processors share: processors/common.rs, and the steps that each of them repeats.
use atlas_of_us.Prelude.{ℕ, String, Option, none, some, List, [], ◌∷◌, find}
use atlas_of_us.Text.{format, extract_json}
use atlas_of_us.Effects.Defs.{Result, ok, err, Eff, pure, lift, ◌>>=◌, with_err, map_err, unwrap_or}
use atlas_of_us.Worker.Job.{DomainLevelInfo, NodeGenerationJob, is_level}
use atlas_of_us.Worker.Services.{
  Services, Float, Call, Bolt, Row, require_level, generalize, GenerationConfig,
}
use atlas_of_us.Worker.Clients.{LlmService, generate, run}
use atlas_of_us.Worker.Errors.{ProcessingError, invalid_data, neo4j, from_llm}

pub record CreatedNode : Type 0 where
  pub element_id : String
  pub name : String

-- The row that a creating statement returns: `result.next().await` and its three outcomes.
unfoldable pub created_node_of :
    {F : Type 0} → List (Result String (Row F)) → Result ProcessingError CreatedNode
created_node_of [] = err (neo4j "No result returned")
created_node_of (err e ∷ _) = err (neo4j e)
created_node_of (ok row ∷ _) = ok (record {
  element_id = unwrap_or (row.get_text "element_id") "";
  name = unwrap_or (row.get_text "name") "";
})

abbrev pub description_context : Option String → String
description_context none = ""
description_context (some d) = format ("\nDomain description: " ∷ d ∷ [])

module _ (env : Services) where
  unfoldable pub create_level_requirement :
      String → String → String → Eff (Call (Float env)) ProcessingError (Unit {0})
  create_level_requirement level_element_id node_element_id relationship_type = with_err neo4j (
      run env (require_level relationship_type)
        (("level_id", Bolt.text level_element_id) ∷ ("node_id", Bolt.text node_element_id) ∷ []))

  unfoldable pub create_generalization :
      String → String → Eff (Call (Float env)) ProcessingError (Unit {0})
  create_generalization source_element_id target_element_id = with_err neo4j (
      run env generalize (
        ("source_id", Bolt.text source_element_id)
        ∷ ("target_id", Bolt.text target_element_id)
        ∷ []))

  abbrev pub require_of :
      String → String → Option DomainLevelInfo → Eff (Call (Float env)) ProcessingError (Unit {0})
  require_of element_id relationship_type none = pure tt
  require_of element_id relationship_type (some level_info) =
      create_level_requirement level_info.element_id element_id relationship_type

  -- Step 4 of each processor: link the level of that number, if the job has one.
  unfoldable pub assign_level :
      NodeGenerationJob → ℕ → String → String → Eff (Call (Float env)) ProcessingError (Unit {0})
  assign_level job level element_id relationship_type =
      require_of element_id relationship_type (find (is_level level) job.domain_levels)

  -- The body of each `generate_properties`: ask, strip the fence, decode.
  unfoldable pub ask_properties :
      {A : Type 0}
      → LlmService
      → String
      → String
      → GenerationConfig
      → String
      → (String → Result String A)
      → Eff (Call (Float env)) ProcessingError A
  ask_properties llm system_prompt user_prompt config failure decode = do
    response ← with_err from_llm (generate env llm system_prompt user_prompt config)
    lift (
        map_err (λ e. invalid_data (format (failure ∷ e ∷ ". Response: " ∷ response ∷ [])))
          (decode (extract_json response)))
