-- ===== src/Agent/Prompts/Notes.antt =====
-- The sections that the prompt templates share (domains/agent/prompts/templates.rs).
use atlas_of_us.Prelude.{String, Option, none, some, List, [], ◌∷◌, map, ◌==◌, if◌then◌else◌}
use atlas_of_us.Text.{format, join}
use atlas_of_us.Floats.{Floats}
use atlas_of_us.Effects.Defs.{unwrap_or}
use atlas_of_us.Agent.Generation.Models.{Similar}

unfoldable pub domain_description : String → String
domain_description description =
    if description == "" then "" else format ("\nDomain description: " ∷ description ∷ [])

unfoldable pub generalization_note : Option String → String
generalization_note none = ""
generalization_note (some general) =
    format ("\nNote: This is a domain-specific version that generalizes to '" ∷ general ∷ "'." ∷ [])

unfoldable pub knowledge_context : List String → String
knowledge_context [] = ""
knowledge_context (name ∷ names) =
    format ("\nExisting knowledge in this domain: " ∷ join ", " (name ∷ names) ∷ [])

unfoldable pub similar_item : (fl : Floats) → Similar fl.F64 → String
similar_item fl n = format (
    "- "
    ∷ n.name
    ∷ " (similarity: "
    ∷ fl.format_two n.score
    ∷ "): "
    ∷ unwrap_or n.description "No description"
    ∷ [])

unfoldable pub similar_list : (fl : Floats) → List (Similar fl.F64) → String
unfolding similar_item
similar_list fl similar_nodes = join "\n" (map (similar_item fl) similar_nodes)
