-- ===== src/Agent/Steps/Kinds.antt =====
-- In what the generators of knowledge and of skills differ, which are otherwise the same seven
-- passes (domains/agent/steps/knowledge_generator.rs and skill_generator.rs).
use atlas_of_us.Agent.Steps.Context.{add_knowledge, add_skill, description_of}
use atlas_of_us.Agent.Prompts.Skills.{
  skill_properties, generic_skill_properties, verify_similar_skill, skill_concepts,
}
use atlas_of_us.Agent.Prompts.Knowledge.{
  knowledge_properties, generic_knowledge_properties, verify_similar_knowledge, knowledge_concepts,
}
use atlas_of_us.Agent.Prompts.System.{knowledge_expert, skill_expert}
use atlas_of_us.Agent.Steps.Replies.{text_or, text_at, parse_object}
use atlas_of_us.Effects.Defs.{map_ok, Result}
use atlas_of_us.Agent.Generation.Models.{
  Abort, Similar, AgentType, knowledge_generator, skill_generator, AgentContext,
}
use atlas_of_us.Agent.Registry.Defs.{CreatedNode}
use atlas_of_us.Agent.Steps.Environment.{StepEnvironment}
use atlas_of_us.Prelude.{String, Bool, true, false, Option, none, some, List, [], ◌∷◌, map}

-- An agent's prompts, the properties that it asks for, and where it puts its nodes.
pub record GeneratorKind (env : StepEnvironment) : Type 1 where
  pub agent : AgentType
  pub label : String
  -- The word in its messages.
  pub noun : String
  -- Whether it sends the results of its verifications.
  pub reports : Bool
  pub system_prompt : String
  pub concepts_prompt : AgentContext → String
  pub verify_prompt : String → String → List (Similar env.floats.F64) → String
  pub generic_prompt : String → String
  pub properties_prompt : String → String → Option String → String
  pub Properties : Type 0
  pub parse_properties : String → String → Result Abort Properties
  pub name_of : Properties → String
  pub node_properties : Properties → List (String × env.json.Value)
  -- The error where the properties run out.
  pub missing : String
  pub add : CreatedNode → AgentContext → AgentContext

pub record KnowledgeProperties : Type 0 where
  pub name : String
  pub description : String
  pub how_to_learn : String
  pub remember_level : String
  pub understand_level : String
  pub apply_level : String
  pub analyze_level : String
  pub evaluate_level : String
  pub create_level : String

pub record SkillProperties : Type 0 where
  pub name : String
  pub description : String
  pub how_to_develop : String
  pub novice_level : String
  pub advanced_beginner_level : String
  pub competent_level : String
  pub proficient_level : String
  pub expert_level : String

module _ (env : StepEnvironment) where
  unfoldable pub parse_knowledge_properties : String → String → Result Abort KnowledgeProperties
  unfolding parse_object text_at
  parse_knowledge_properties response concept_name =
      map_ok
        (λ (parsed : env.json.Value). record {
          name = text_or env.json parsed "name" concept_name;
          description = text_or env.json parsed "description" "";
          how_to_learn = text_or env.json parsed "how_to_learn" "";
          remember_level = text_or env.json parsed "remember_level" "";
          understand_level = text_or env.json parsed "understand_level" "";
          apply_level = text_or env.json parsed "apply_level" "";
          analyze_level = text_or env.json parsed "analyze_level" "";
          evaluate_level = text_or env.json parsed "evaluate_level" "";
          create_level = text_or env.json parsed "create_level" "";
        })
        (parse_object env.json "No JSON object found" (some "Invalid JSON structure") response)

  -- Without the check that the braces do not cross.
  unfoldable pub parse_skill_properties : String → String → Result Abort SkillProperties
  unfolding parse_object text_at
  parse_skill_properties response concept_name =
      map_ok
        (λ (parsed : env.json.Value). record {
          name = text_or env.json parsed "name" concept_name;
          description = text_or env.json parsed "description" "";
          how_to_develop = text_or env.json parsed "how_to_develop" "";
          novice_level = text_or env.json parsed "novice_level" "";
          advanced_beginner_level = text_or env.json parsed "advanced_beginner_level" "";
          competent_level = text_or env.json parsed "competent_level" "";
          proficient_level = text_or env.json parsed "proficient_level" "";
          expert_level = text_or env.json parsed "expert_level" "";
        })
        (parse_object env.json "No JSON object found" none response)

  unfoldable pub knowledge_node : KnowledgeProperties → List (String × env.json.Value)
  knowledge_node p =
      ("name", env.json.text p.name)
      ∷ ("description", env.json.text p.description)
      ∷ ("how_to_learn", env.json.text p.how_to_learn)
      ∷ ("remember_level", env.json.text p.remember_level)
      ∷ ("understand_level", env.json.text p.understand_level)
      ∷ ("apply_level", env.json.text p.apply_level)
      ∷ ("analyze_level", env.json.text p.analyze_level)
      ∷ ("evaluate_level", env.json.text p.evaluate_level)
      ∷ ("create_level", env.json.text p.create_level)
      ∷ []

  unfoldable pub skill_node : SkillProperties → List (String × env.json.Value)
  skill_node p =
      ("name", env.json.text p.name)
      ∷ ("description", env.json.text p.description)
      ∷ ("how_to_develop", env.json.text p.how_to_develop)
      ∷ ("novice_level", env.json.text p.novice_level)
      ∷ ("advanced_beginner_level", env.json.text p.advanced_beginner_level)
      ∷ ("competent_level", env.json.text p.competent_level)
      ∷ ("proficient_level", env.json.text p.proficient_level)
      ∷ ("expert_level", env.json.text p.expert_level)
      ∷ []

  unfoldable pub knowledge_kind : GeneratorKind env
  unfolding parse_knowledge_properties knowledge_node
  knowledge_kind = record {
    agent = knowledge_generator;
    label = "Knowledge";
    noun = "knowledge";
    reports = true;
    system_prompt = knowledge_expert;
    concepts_prompt = λ c. knowledge_concepts c.domain_name (description_of c);
    verify_prompt = verify_similar_knowledge env.floats;
    generic_prompt = generic_knowledge_properties;
    properties_prompt = knowledge_properties;
    Properties = KnowledgeProperties;
    parse_properties = parse_knowledge_properties;
    name_of = λ p. p.name;
    node_properties = knowledge_node;
    missing = "Missing properties for concept";
    add = add_knowledge;
  }

  unfoldable pub skill_kind : GeneratorKind env
  unfolding parse_skill_properties skill_node
  skill_kind = record {
    agent = skill_generator;
    label = "Skill";
    noun = "skill";
    reports = false;
    system_prompt = skill_expert;
    concepts_prompt = λ c.
        skill_concepts c.domain_name (description_of c)
          (map CreatedNode.name c.domain_graph.knowledge);
    verify_prompt = verify_similar_skill env.floats;
    generic_prompt = generic_skill_properties;
    properties_prompt = skill_properties;
    Properties = SkillProperties;
    parse_properties = parse_skill_properties;
    name_of = λ p. p.name;
    node_properties = skill_node;
    missing = "Missing properties";
    add = add_skill;
  }
