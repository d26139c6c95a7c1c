-- ===== src/Agent/Prompts/Knowledge.antt =====
-- PromptTemplates on knowledge (domains/agent/prompts/templates.rs).
use atlas_of_us.Agent.Prompts.Notes.{domain_description, generalization_note, similar_list}
use atlas_of_us.Agent.Generation.Models.{Similar}
use atlas_of_us.Floats.{Floats}
use atlas_of_us.Text.{format, lines}
use atlas_of_us.Prelude.{String, Option, List, [], ◌∷◌}

unfoldable pub knowledge_concepts : String → String → String
knowledge_concepts domain_name description = lines (
    format (
      "For the domain \"" ∷ domain_name
      ∷ "\", identify the essential knowledge concepts someone would need to master." ∷ [])
    ∷ domain_description description
    ∷ ""
    ∷ "Consider knowledge at all levels from novice to master. Focus on:"
    ∷ "- Foundational theoretical knowledge"
    ∷ "- Technical/specialized knowledge"
    ∷ "- Contextual knowledge"
    ∷ ""
    ∷ "CRITICAL RULES:"
    ∷ "1. ATOMIC: Each concept must be a SINGLE concept. Never combine with \"and\"."
    ∷ "   BAD: \"Variables and Data Types\" → GOOD: \"Variables\", \"Data Types\""
    ∷ "   BAD: \"Opening Principles and Strategies\" → GOOD: \"Opening Principles\", \"Opening Strategies\""
    ∷ ""
    ∷ format (
        "2. DOMAIN-SPECIFIC NAMING: Prefix concepts with the domain name \"" ∷ domain_name ∷ "\"."
        ∷ [])
    ∷ format (
        "   Example: \"" ∷ domain_name ∷ " Opening Principles\", \"" ∷ domain_name ∷ " Tactics\""
        ∷ [])
    ∷ "   NOT: \"Opening Principles\", \"Tactics\""
    ∷ ""
    ∷ "   Only omit prefix for universal concepts identical across all domains:"
    ∷ "   - \"Boolean Algebra\", \"Newton's Laws\" (exact same content everywhere)"
    ∷ ""
    ∷ "Output ONLY a JSON array of concept names no explanation:"
    ∷ "(Output all of the concepts which are SPECIFIC TO THIS DOMAIN. Concepts that could go in a more specialized domain can be omitted)"
    ∷ "(There is no specific number we are targeting here. Generate as much as is relavent to the domain)."
    ∷ "[\"Concept 1\", \"Concept 2\", \"Concept 3\", ...]"
    ∷ [])

unfoldable pub verify_similar_knowledge :
    (fl : Floats) → String → String → List (Similar fl.F64) → String
verify_similar_knowledge fl concept domain_name similar_nodes = lines (
    format ("I'm creating knowledge nodes for the domain \"" ∷ domain_name ∷ "\"." ∷ [])
    ∷ ""
    ∷ format ("For the concept \"" ∷ concept ∷ "\", I found these similar existing nodes:" ∷ [])
    ∷ similar_list fl similar_nodes
    ∷ ""
    ∷ "Decision guide:"
    ∷ "1. \"use_existing\" - The existing node represents essentially the same knowledge"
    ∷ "2. \"create_new\" - This is a distinct concept, no good match exists"
    ∷ "3. \"create_and_generalize\" - Create a domain-specific node that links to a broader concept:"
    ∷ "   - Use when your knowledge is domain-specific but relates to a general concept"
    ∷ format (
        "   - Example: \"" ∷ domain_name
        ∷ " Opening Principles\" → GENERALIZES_TO → \"Opening Principles\"" ∷ [])
    ∷ "   - The domain-specific version has DIFFERENT actual content than the general version"
    ∷ "   - If the general concept exists in the list above, use \"existing_node_name\""
    ∷ "   - If the general concept doesn't exist, suggest it in \"suggested_target\""
    ∷ ""
    ∷ "Output ONLY a JSON object:"
    ∷ "{"
    ∷ "    \"decision\": \"use_existing\" | \"create_new\" | \"create_and_generalize\","
    ∷ "    \"existing_node_name\": \"Name from list above (for use_existing, or if generalizing to a listed node)\","
    ∷ "    \"suggested_target\": \"Name of a new general concept to generalize to (only if not in list above, null otherwise)\","
    ∷ "    \"reason\": \"Brief explanation\""
    ∷ "}"
    ∷ [])

unfoldable pub knowledge_properties : String → String → Option String → String
knowledge_properties domain_name concept generalizes_to = lines (
    format (
      "Generate full properties for the knowledge concept \""
      ∷ concept
      ∷ "\" in the domain \""
      ∷ domain_name
      ∷ "\"."
      ∷ generalization_note generalizes_to
      ∷ [])
    ∷ ""
    ∷ "Output ONLY a JSON object with these fields:"
    ∷ "{"
    ∷ format ("    \"name\": \"" ∷ concept ∷ "\"," ∷ [])
    ∷ "    \"description\": \"Clear, concise description of what this knowledge encompasses\","
    ∷ "    \"how_to_learn\": \"Practical guidance on how to acquire this knowledge\","
    ∷ "    \"remember_level\": \"What to memorize/recall at Remember level (Bloom's)\","
    ∷ "    \"understand_level\": \"What to comprehend at Understand level\","
    ∷ "    \"apply_level\": \"How to apply this knowledge practically\","
    ∷ "    \"analyze_level\": \"How to break down and examine this knowledge\","
    ∷ "    \"evaluate_level\": \"How to judge and assess using this knowledge\","
    ∷ "    \"create_level\": \"How to synthesize and create with this knowledge\""
    ∷ "}"
    ∷ [])

unfoldable pub generic_knowledge_properties : String → String
generic_knowledge_properties concept = lines (
    format ("Generate properties for a GENERIC knowledge concept \"" ∷ concept ∷ "\"." ∷ [])
    ∷ ""
    ∷ "This is a general-purpose knowledge node that is NOT domain-specific. It should be applicable across multiple domains."
    ∷ ""
    ∷ "Output ONLY a JSON object with these fields:"
    ∷ "{"
    ∷ format ("    \"name\": \"" ∷ concept ∷ "\"," ∷ [])
    ∷ "    \"description\": \"Clear, concise description of what this general knowledge encompasses\","
    ∷ "    \"how_to_learn\": \"General guidance on how to acquire this knowledge\","
    ∷ "    \"remember_level\": \"What to memorize/recall at Remember level (Bloom's)\","
    ∷ "    \"understand_level\": \"What to comprehend at Understand level\","
    ∷ "    \"apply_level\": \"How to apply this knowledge practically\","
    ∷ "    \"analyze_level\": \"How to break down and examine this knowledge\","
    ∷ "    \"evaluate_level\": \"How to judge and assess using this knowledge\","
    ∷ "    \"create_level\": \"How to synthesize and create with this knowledge\""
    ∷ "}"
    ∷ [])
