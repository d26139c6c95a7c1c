-- ===== src/Agent/Prompts/Milestones.antt =====
-- PromptTemplates on milestones (domains/agent/prompts/templates.rs).
use atlas_of_us.Agent.Prompts.Notes.{domain_description, generalization_note, similar_list}
use atlas_of_us.Agent.Generation.Models.{Similar}
use atlas_of_us.Floats.{Floats}
use atlas_of_us.Text.{format, lines}
use atlas_of_us.Prelude.{String, Option, List, [], ◌∷◌}

unfoldable pub milestone_concepts : String → String → String → String
milestone_concepts domain_name description context = lines (
    format (
      "For the domain \"" ∷ domain_name
      ∷ "\", identify concrete milestones/achievements across all mastery levels." ∷ [])
    ∷ domain_description description
    ∷ ""
    ∷ context
    ∷ ""
    ∷ "Milestones should be:"
    ∷ "- Binary (achieved or not achieved)"
    ∷ "- Concrete and measurable"
    ∷ "- Distributed across all 5 levels (novice to master)"
    ∷ "- Types: performance, achievement, participation, creation, recognition"
    ∷ ""
    ∷ "CRITICAL RULES:"
    ∷ "1. ATOMIC: Each milestone must be a SINGLE achievement. Never combine with \"and\"."
    ∷ "   BAD: \"Win Tournament and Reach 2000 ELO\" → GOOD: \"Win Tournament\", \"Reach 2000 ELO\""
    ∷ "   BAD: \"Complete Project and Deploy\" → GOOD: \"Complete Project\", \"Deploy to Production\""
    ∷ ""
    ∷ "2. DOMAIN-SPECIFIC: Milestones are achievements within this domain."
    ∷ format ("   Use clear, measurable descriptions specific to \"" ∷ domain_name ∷ "\"." ∷ [])
    ∷ ""
    ∷ "Output ONLY a JSON array of milestone names (Generate 0-3 milestones per level), no explanation:"
    ∷ "[\"Milestone 1\", \"Milestone 2\", \"Milestone 3\", ...]"
    ∷ [])

unfoldable pub verify_similar_milestone :
    (fl : Floats) → String → String → List (Similar fl.F64) → String
verify_similar_milestone fl concept domain_name similar_nodes = lines (
    format ("I'm creating milestone nodes for the domain \"" ∷ domain_name ∷ "\"." ∷ [])
    ∷ ""
    ∷ format ("For the milestone \"" ∷ concept ∷ "\", I found these similar existing nodes:" ∷ [])
    ∷ similar_list fl similar_nodes
    ∷ ""
    ∷ "Should I:"
    ∷ "1. \"use_existing\" - Use one of the existing nodes"
    ∷ "2. \"create_new\" - Create a brand new node"
    ∷ "3. \"create_and_generalize\" - Create a new domain-specific milestone that GENERALIZES_TO the existing one"
    ∷ ""
    ∷ "Output ONLY a JSON object:"
    ∷ "{"
    ∷ "    \"decision\": \"use_existing\" | \"create_new\" | \"create_and_generalize\","
    ∷ "    \"existing_node_name\": \"Name of existing node (null if create_new)\","
    ∷ "    \"reason\": \"Brief explanation\""
    ∷ "}"
    ∷ [])

unfoldable pub milestone_properties : String → String → Option String → String
milestone_properties domain_name concept generalizes_to = lines (
    format (
      "Generate full properties for the milestone \""
      ∷ concept
      ∷ "\" in the domain \""
      ∷ domain_name
      ∷ "\"."
      ∷ generalization_note generalizes_to
      ∷ [])
    ∷ ""
    ∷ "Output ONLY a JSON object with these fields:"
    ∷ "{"
    ∷ format ("    \"name\": \"" ∷ concept ∷ "\"," ∷ [])
    ∷ "    \"description\": \"Clear description of this achievement\","
    ∷ "    \"how_to_achieve\": \"Practical guidance on how to achieve this milestone\""
    ∷ "}"
    ∷ [])
