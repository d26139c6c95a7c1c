-- ===== src/Agent/Prompts/Traits.antt =====
-- PromptTemplates on traits (domains/agent/prompts/templates.rs).
use atlas_of_us.Agent.Prompts.Notes.{domain_description, similar_list}
use atlas_of_us.Agent.Generation.Models.{Similar}
use atlas_of_us.Floats.{Floats}
use atlas_of_us.Text.{format, lines}
use atlas_of_us.Prelude.{String, List, [], ◌∷◌}

unfoldable pub trait_concepts : String → String → String
trait_concepts domain_name description = lines (
    format (
      "For the domain \"" ∷ domain_name ∷ "\", identify inherent traits that contribute to success."
      ∷ [])
    ∷ domain_description description
    ∷ ""
    ∷ "Traits are inherent characteristics (not teachable skills or learnable knowledge):"
    ∷ "- Physical traits (strength, endurance, flexibility)"
    ∷ "- Cognitive traits (spatial reasoning, pattern recognition)"
    ∷ "- Personality traits (risk tolerance, persistence, competitive drive)"
    ∷ "- Temperament traits (patience, emotional stability)"
    ∷ ""
    ∷ "CRITICAL RULES:"
    ∷ "1. ATOMIC: Each trait must be a SINGLE characteristic. Never combine with \"and\"."
    ∷ "   BAD: \"Patience and Perseverance\" → GOOD: \"Patience\", \"Perseverance\""
    ∷ "   BAD: \"Logical and Analytical Thinking\" → GOOD: \"Logical Thinking\", \"Analytical Thinking\""
    ∷ ""
    ∷ "2. GENERIC NAMING: Traits should NOT have domain prefixes."
    ∷ "   Traits are fundamental cognitive/personality characteristics that manifest across ALL domains."
    ∷ ""
    ∷ "   CORRECT: \"Pattern Recognition\", \"Logical Thinking\", \"Focus\", \"Mental Endurance\", \"Risk Tolerance\""
    ∷ format (
        "   WRONG: \"" ∷ domain_name ∷ " Pattern Recognition\", \"" ∷ domain_name ∷ " Focus\"" ∷ [])
    ∷ ""
    ∷ "   If you're tempted to add a domain prefix, it's probably a SKILL, not a trait."
    ∷ ""
    ∷ "Only include traits that are genuinely relevant to this domain."
    ∷ ""
    ∷ "Output ONLY a JSON array of trait names no explanation:"
    ∷ "(Output all of the concepts which are SPECIFIC TO THIS DOMAIN. Concepts that could go in a more specialized domain can be omitted)"
    ∷ "(There is no specific number we are targeting here. Generate as much as is relavent to the domain)."
    ∷ "[\"Trait 1\", \"Trait 2\", \"Trait 3\", ...]"
    ∷ [])

unfoldable pub verify_similar_trait :
    (fl : Floats) → String → String → List (Similar fl.F64) → String
verify_similar_trait fl concept domain_name similar_nodes = lines (
    format ("I'm identifying relevant traits for the domain \"" ∷ domain_name ∷ "\"." ∷ [])
    ∷ ""
    ∷ format ("For the trait \"" ∷ concept ∷ "\", I found these similar existing trait nodes:" ∷ [])
    ∷ similar_list fl similar_nodes
    ∷ ""
    ∷ "Traits should be generic (shared across domains), not domain-specific."
    ∷ ""
    ∷ "Should I:"
    ∷ "1. \"use_existing\" - Use one of the existing trait nodes"
    ∷ "2. \"create_new\" - Create a new generic trait (only if truly distinct)"
    ∷ ""
    ∷ "Output ONLY a JSON object:"
    ∷ "{"
    ∷ "    \"decision\": \"use_existing\" | \"create_new\","
    ∷ "    \"existing_node_name\": \"Name of existing node (null if create_new)\","
    ∷ "    \"reason\": \"Brief explanation\""
    ∷ "}"
    ∷ [])

unfoldable pub trait_properties : String → String
trait_properties concept = lines (
    format ("Generate full properties for the trait \"" ∷ concept ∷ "\"." ∷ [])
    ∷ ""
    ∷ "Note: Traits are generic (not domain-specific) and measured on a 0-100 scale."
    ∷ ""
    ∷ "Measurement bands to describe in measurement_criteria:"
    ∷ "- 0-25 (Low): Significant challenges or minimal natural ability"
    ∷ "- 26-50 (Moderate): Average or developing capability"
    ∷ "- 51-75 (High): Strong natural ability or well-developed capacity"
    ∷ "- 76-100 (Exceptional): Outstanding or rare capability"
    ∷ ""
    ∷ "Output ONLY a JSON object with these fields:"
    ∷ "{"
    ∷ format ("    \"name\": \"" ∷ concept ∷ "\"," ∷ [])
    ∷ "    \"description\": \"Clear description of this inherent trait\","
    ∷ "    \"measurement_criteria\": \"How this trait is assessed, with descriptions for Low (0-25), Moderate (26-50), High (51-75), and Exceptional (76-100) ranges\""
    ∷ "}"
    ∷ [])
