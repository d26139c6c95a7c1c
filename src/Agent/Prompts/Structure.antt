-- ===== src/Agent/Prompts/Structure.antt =====
-- PromptTemplates on the structure of a domain and its relationships
-- (domains/agent/prompts/templates.rs).
use atlas_of_us.Text.{format, lines}
use atlas_of_us.Prelude.{String, [], ◌∷◌, ◌==◌, if◌then◌else◌}

unfoldable pub provided_description : String → String
provided_description description =
    if description == "" then "" else format ("Description provided: " ∷ description ∷ [])

unfoldable pub domain_structure : String → String → String
domain_structure domain_name description = lines (
    format ("You are designing the structure for the domain \"" ∷ domain_name ∷ "\"." ∷ [])
    ∷ provided_description description
    ∷ ""
    ∷ "Generate a JSON object with the following structure:"
    ∷ "{"
    ∷ "    \"domain\": {"
    ∷ format ("        \"name\": \"" ∷ domain_name ∷ "\"," ∷ [])
    ∷ "        \"description\": \"A comprehensive description of the domain\""
    ∷ "    },"
    ∷ "    \"levels\": ["
    ∷ "        {"
    ∷ "            \"level\": 1,"
    ∷ format ("            \"name\": \"" ∷ domain_name ∷ " Novice\"," ∷ [])
    ∷ "            \"description\": \"Description of novice level\""
    ∷ "        },"
    ∷ "        {"
    ∷ "            \"level\": 2,"
    ∷ format ("            \"name\": \"" ∷ domain_name ∷ " Developing\"," ∷ [])
    ∷ "            \"description\": \"Description of developing level\""
    ∷ "        },"
    ∷ "        {"
    ∷ "            \"level\": 3,"
    ∷ format ("            \"name\": \"" ∷ domain_name ∷ " Competent\"," ∷ [])
    ∷ "            \"description\": \"Description of competent level\""
    ∷ "        },"
    ∷ "        {"
    ∷ "            \"level\": 4,"
    ∷ format ("            \"name\": \"" ∷ domain_name ∷ " Advanced\"," ∷ [])
    ∷ "            \"description\": \"Description of advanced level\""
    ∷ "        },"
    ∷ "        {"
    ∷ "            \"level\": 5,"
    ∷ format ("            \"name\": \"" ∷ domain_name ∷ " Master\"," ∷ [])
    ∷ "            \"description\": \"Description of master level\""
    ∷ "        }"
    ∷ "    ]"
    ∷ "}"
    ∷ ""
    ∷ "Output ONLY valid JSON, no explanation or markdown."
    ∷ [])

unfoldable pub prerequisite_analysis : String → String → String
prerequisite_analysis domain_name context = lines (
    format ("Analyze the prerequisite relationships for the domain \"" ∷ domain_name ∷ "\"." ∷ [])
    ∷ ""
    ∷ context
    ∷ ""
    ∷ "For each Knowledge, Skill, and Milestone, identify what prerequisites it requires:"
    ∷ "- Knowledge can require other Knowledge"
    ∷ "- Skills can require Knowledge, other Skills, or Traits"
    ∷ "- Milestones can require Knowledge, Skills, Traits, or other Milestones"
    ∷ ""
    ∷ "Output a JSON object mapping component names to their prerequisites:"
    ∷ "{"
    ∷ "    \"prerequisites\": ["
    ∷ "        {"
    ∷ "            \"component\": \"Component Name\","
    ∷ "            \"component_type\": \"Knowledge\" | \"Skill\" | \"Milestone\","
    ∷ "            \"requires\": ["
    ∷ "                {\"name\": \"Prerequisite Name\", \"type\": \"Knowledge\" | \"Skill\" | \"Trait\" | \"Milestone\"}"
    ∷ "            ]"
    ∷ "        }"
    ∷ "    ]"
    ∷ "}"
    ∷ [])

unfoldable pub level_assignment : String → String → String
level_assignment domain_name context = lines (
    format ("Assign components to domain levels for \"" ∷ domain_name ∷ "\"." ∷ [])
    ∷ ""
    ∷ context
    ∷ ""
    ∷ "For each component, determine:"
    ∷ "1. Which level (1-5) it should be required at"
    ∷ "2. The proficiency level required:"
    ∷ "   - For Knowledge: bloom_level = \"Remember\" | \"Understand\" | \"Apply\" | \"Analyze\" | \"Evaluate\" | \"Create\""
    ∷ "   - For Skills: dreyfus_level = \"Novice\" | \"Advanced Beginner\" | \"Competent\" | \"Proficient\" | \"Expert\""
    ∷ "   - For Traits: min_score = integer 0-100 (e.g., 40, 60, 75)"
    ∷ "   - For Milestones: no proficiency needed, just level assignment"
    ∷ ""
    ∷ "Level distribution guidelines:"
    ∷ "- Level 1 (Novice): Basic knowledge at Remember, skills at Novice, no trait requirements"
    ∷ "- Level 2 (Developing): Knowledge at Understand, skills at Advanced Beginner, traits ~40"
    ∷ "- Level 3 (Competent): Knowledge at Apply, skills at Competent, traits ~50-60"
    ∷ "- Level 4 (Advanced): Knowledge at Analyze, skills at Proficient, traits ~70-75"
    ∷ "- Level 5 (Master): Knowledge at Evaluate/Create, skills at Expert, traits ~85+"
    ∷ ""
    ∷ "Output a JSON object:"
    ∷ "{"
    ∷ "    \"level_assignments\": ["
    ∷ "        {"
    ∷ "            \"component\": \"Component Name\","
    ∷ "            \"component_type\": \"Knowledge\" | \"Skill\" | \"Trait\" | \"Milestone\","
    ∷ "            \"level\": 1-5,"
    ∷ "            \"proficiency\": \"bloom/dreyfus level string or min_score integer\""
    ∷ "        }"
    ∷ "    ]"
    ∷ "}"
    ∷ [])
