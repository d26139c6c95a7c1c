-- ===== src/Worker/Services.antt =====
-- What the worker calls and does not implement: Neo4j through neo4rs, HTTP through reqwest, JSON
-- through serde_json, and environment variables. A call is recorded with all that is sent.
use atlas_of_us.Prelude.{ℕ, String, Option, List}
use atlas_of_us.Effects.Defs.{Result}
use atlas_of_us.Floats.{Floats}
use atlas_of_us.Worker.Job.{NodeGenerationJob}

-- The parameters of a Cypher statement.
pub data Bolt (F : Type 0) : Type 0 where
  text : String → Bolt F
  int : ℕ → Bolt F
  floats : List F → Bolt F

abbrev pub Params : Type 0 → Type 0
Params F = List (String × Bolt F)

-- `row.get::<String>(key)` and `row.get::<f64>(key)`; `none` is an error of the conversion.
pub record Row (F : Type 0) : Type 0 where
  pub get_text : String → Option String
  pub get_float : String → Option F

-- The statements of the worker, one constructor for each text in the source.
pub data Statement : Type 0 where
  similar_by_node similar_by_embedding : Option String → Statement
  create_knowledge create_skill create_trait create_milestone : Statement
  require_level : String → Statement
  generalize : Statement

-- services/llm.rs; the temperature in hundredths.
pub record GenerationConfig : Type 0 where
  pub max_tokens : ℕ
  pub temperature : ℕ

pub record ClaudeMessage : Type 0 where
  pub role : String
  pub content : String

pub record ClaudeRequest : Type 0 where
  pub model : String
  pub max_tokens : ℕ
  pub system : String
  pub messages : List ClaudeMessage
  pub temperature : Option ℕ

pub record ContentBlock : Type 0 where
  pub content_type : String
  pub text : Option String

pub record ClaudeResponse : Type 0 where
  pub content : List ContentBlock
  pub stop_reason : Option String

pub record ClaudeErrorDetail : Type 0 where
  pub message : String
  pub error_type : String

-- services/embedding.rs
pub record EmbeddingResponseItem (F : Type 0) : Type 0 where
  pub embedding : List (List F)

-- `response.text().await` is `body`, and `response.json()` reads it and decodes.
pub record HttpResponse : Type 0 where
  pub status : ℕ
  pub body : Result String String

pub data SendError : Type 0 where
  timed_out : SendError
  failed : String → SendError

-- processors/common.rs
pub record VerificationResponse : Type 0 where
  pub decision : String
  pub existing_node_name : Option String
  pub suggested_target : Option String
  pub reason : Option String

-- The properties that the processors ask the language model for.
pub record KnowledgeProperties : Type 0 where
  pub name : String
  pub description : String
  pub how_to_learn : String
  pub remember_level : String
  pub understand_level : String
  pub apply_level : String
  pub analyze_level : String
  pub evaluate_level : String
  pub create_level : String

pub record SkillProperties : Type 0 where
  pub name : String
  pub description : String
  pub how_to_develop : String
  pub novice_level : String
  pub advanced_beginner_level : String
  pub competent_level : String
  pub proficient_level : String
  pub expert_level : String

pub record TraitProperties : Type 0 where
  pub name : String
  pub description : String
  pub measurement_criteria : String

pub record MilestoneProperties : Type 0 where
  pub name : String
  pub description : String
  pub how_to_achieve : String

pub data Call (F : Type 0) : Type 0 where
  connect : String → String → String → Call F
  execute run : Statement → Params F → Call F
  post_embedding : String → String → Call F
  post_claude : String → ClaudeRequest → Call F

pub record Services : Type 1 where
  pub floats : Floats
  pub env_var : String → Option String
  pub connect : List (Call floats.F64) → String → String → String → Result String (Unit {0})
  -- The rows come one by one, and reading one may fail.
  pub execute :
      List (Call floats.F64)
      → String
      → Params floats.F64
      → Result String (List (Result String (Row floats.F64)))
  pub run : List (Call floats.F64) → String → Params floats.F64 → Result String (Unit {0})
  pub post_embedding : List (Call floats.F64) → String → String → Result String HttpResponse
  pub post_claude : List (Call floats.F64) → String → ClaudeRequest → Result SendError HttpResponse
  pub status_text : ℕ → String
  pub decode_embedding : String → Result String (List (EmbeddingResponseItem floats.F64))
  pub decode_claude : String → Result String ClaudeResponse
  pub decode_claude_error : String → Result String ClaudeErrorDetail
  pub decode_verification : String → Result String VerificationResponse
  pub decode_knowledge : String → Result String KnowledgeProperties
  pub decode_skill : String → Result String SkillProperties
  pub decode_trait : String → Result String TraitProperties
  pub decode_milestone : String → Result String MilestoneProperties
  pub decode_job : String → Result String NodeGenerationJob

abbrev pub Float : Services → Type 0
Float env = env.floats.F64
