-- ===== src/Agent/Prompts/Skills.antt =====
-- PromptTemplates on skills (domains/agent/prompts/templates.rs).
use atlas_of_us.Agent.Prompts.Notes.{
  knowledge_context, domain_description, generalization_note, similar_list,
}
use atlas_of_us.Agent.Generation.Models.{Similar}
use atlas_of_us.Floats.{Floats}
use atlas_of_us.Text.{format, lines}
use atlas_of_us.Prelude.{String, Option, List, [], ◌∷◌}

unfoldable pub skill_concepts : String → String → List String → String
skill_concepts domain_name description existing_knowledge = lines (
    format (
      "For the domain \"" ∷ domain_name
      ∷ "\", identify the essential skills someone would need to develop." ∷ [])
    ∷ format (domain_description description ∷ knowledge_context existing_knowledge ∷ [])
    ∷ ""
    ∷ "Consider skills at all levels from novice to expert. Focus on:"
    ∷ "- Physical/technical skills"
    ∷ "- Cognitive/analytical skills"
    ∷ "- Social/communication skills"
    ∷ "- Decision-making skills"
    ∷ ""
    ∷ "CRITICAL RULES:"
    ∷ "1. ATOMIC: Each skill must be a SINGLE ability. Never combine with \"and\"."
    ∷ "   BAD: \"Debugging and Testing\" → GOOD: \"Debugging\", \"Testing\""
    ∷ "   BAD: \"Planning and Execution\" → GOOD: \"Planning\", \"Execution\""
    ∷ ""
    ∷ format (
        "2. DOMAIN-SPECIFIC NAMING: Prefix skills with the domain name \"" ∷ domain_name ∷ "\"."
        ∷ [])
    ∷ format (
        "   Example: \"" ∷ domain_name ∷ " Tactical Calculation\", \"" ∷ domain_name
        ∷ " Position Evaluation\"" ∷ [])
    ∷ "   NOT: \"Tactical Calculation\", \"Position Evaluation\""
    ∷ ""
    ∷ "   Only omit prefix for universal skills that work identically across domains:"
    ∷ "   - \"Problem Solving\", \"Time Management\", \"Decision Making\" (same practice everywhere)"
    ∷ ""
    ∷ "Output ONLY a JSON array of skill names no explanation:"
    ∷ "(Output all of the concepts which are SPECIFIC TO THIS DOMAIN. Concepts that could go in a more specialized domain can be omitted)"
    ∷ "(There is no specific number we are targeting here. Generate as much as is relavent to the domain)."
    ∷ "[\"Skill 1\", \"Skill 2\", \"Skill 3\", ...]"
    ∷ [])

unfoldable pub verify_similar_skill :
    (fl : Floats) → String → String → List (Similar fl.F64) → String
verify_similar_skill fl concept domain_name similar_nodes = lines (
    format ("I'm creating skill nodes for the domain \"" ∷ domain_name ∷ "\"." ∷ [])
    ∷ ""
    ∷ format ("For the skill \"" ∷ concept ∷ "\", I found these similar existing nodes:" ∷ [])
    ∷ similar_list fl similar_nodes
    ∷ ""
    ∷ "Decision guide:"
    ∷ "1. \"use_existing\" - The existing node represents essentially the same skill"
    ∷ "2. \"create_new\" - This is a distinct skill, no good match exists"
    ∷ "3. \"create_and_generalize\" - Create a domain-specific skill that links to a broader skill:"
    ∷ "   - Use when your skill is domain-specific but relates to a general ability"
    ∷ format (
        "   - Example: \"" ∷ domain_name
        ∷ " Tactical Calculation\" → GENERALIZES_TO → \"Tactical Calculation\"" ∷ [])
    ∷ "   - The domain-specific version has DIFFERENT practice methods than the general version"
    ∷ "   - If the general skill exists in the list above, use \"existing_node_name\""
    ∷ "   - If the general skill doesn't exist, suggest it in \"suggested_target\""
    ∷ ""
    ∷ "Output ONLY a JSON object:"
    ∷ "{"
    ∷ "    \"decision\": \"use_existing\" | \"create_new\" | \"create_and_generalize\","
    ∷ "    \"existing_node_name\": \"Name from list above (for use_existing, or if generalizing to a listed node)\","
    ∷ "    \"suggested_target\": \"Name of a new general skill to generalize to (only if not in list above, null otherwise)\","
    ∷ "    \"reason\": \"Brief explanation\""
    ∷ "}"
    ∷ [])

unfoldable pub skill_properties : String → String → Option String → String
skill_properties domain_name concept generalizes_to = lines (
    format (
      "Generate full properties for the skill \""
      ∷ concept
      ∷ "\" in the domain \""
      ∷ domain_name
      ∷ "\"."
      ∷ generalization_note generalizes_to
      ∷ [])
    ∷ ""
    ∷ "Output ONLY a JSON object with these fields:"
    ∷ "{"
    ∷ format ("    \"name\": \"" ∷ concept ∷ "\"," ∷ [])
    ∷ "    \"description\": \"Clear description of this skill and what it enables\","
    ∷ "    \"how_to_develop\": \"Practical guidance on developing this skill\","
    ∷ "    \"novice_level\": \"What novice performance looks like (Dreyfus model)\","
    ∷ "    \"advanced_beginner_level\": \"What advanced beginner performance looks like\","
    ∷ "    \"competent_level\": \"What competent performance looks like\","
    ∷ "    \"proficient_level\": \"What proficient performance looks like\","
    ∷ "    \"expert_level\": \"What expert performance looks like\""
    ∷ "}"
    ∷ [])

unfoldable pub generic_skill_properties : String → String
generic_skill_properties concept = lines (
    format ("Generate properties for a GENERIC skill \"" ∷ concept ∷ "\"." ∷ [])
    ∷ ""
    ∷ "This is a general-purpose skill that is NOT domain-specific. It should be applicable across multiple domains."
    ∷ ""
    ∷ "Output ONLY a JSON object with these fields:"
    ∷ "{"
    ∷ format ("    \"name\": \"" ∷ concept ∷ "\"," ∷ [])
    ∷ "    \"description\": \"Clear description of this general skill and what it enables\","
    ∷ "    \"how_to_develop\": \"General guidance on developing this skill\","
    ∷ "    \"novice_level\": \"What novice performance looks like (Dreyfus model)\","
    ∷ "    \"advanced_beginner_level\": \"What advanced beginner performance looks like\","
    ∷ "    \"competent_level\": \"What competent performance looks like\","
    ∷ "    \"proficient_level\": \"What proficient performance looks like\","
    ∷ "    \"expert_level\": \"What expert performance looks like\""
    ∷ "}"
    ∷ [])
