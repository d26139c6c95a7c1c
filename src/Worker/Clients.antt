-- ===== src/Worker/Clients.antt =====
-- The clients of the embedding service and of the language model: services/embedding.rs and
-- services/llm.rs of the worker.
use atlas_of_us.Prelude.{
  ℕ, String, Bool, true, false, ◌&&◌, Option, none, some, List, [], ◌∷◌, ltb, leb, ◌==ₙ◌, ◌==◌,
  if◌then◌else◌,
}
use atlas_of_us.Text.{format}
use atlas_of_us.Effects.Defs.{Result, ok, err, Eff, lift, call, ◌>>=◌, with_err, ok_or}
use atlas_of_us.Worker.Services.{
  Services, Float, Call, Statement, Params, Row, HttpResponse, SendError, failed,
  EmbeddingResponseItem, ClaudeRequest, ContentBlock, GenerationConfig,
}
use atlas_of_us.Worker.Statements.{statement_text}

pub data EmbeddingError : Type 0 where
  not_configured connection_failed request_failed parse_error invalid_response :
      String → EmbeddingError

unfoldable pub show_embedding_error : EmbeddingError → String
show_embedding_error (not_configured m) = format ("Not configured: " ∷ m ∷ [])
show_embedding_error (connection_failed m) = format ("Connection failed: " ∷ m ∷ [])
show_embedding_error (request_failed m) = format ("Request failed: " ∷ m ∷ [])
show_embedding_error (parse_error m) = format ("Parse error: " ∷ m ∷ [])
show_embedding_error (invalid_response m) = format ("Invalid response: " ∷ m ∷ [])

pub data LlmError : Type 0 where
  connection_failed request_failed parse_error : String → LlmError
  timeout rate_limited : LlmError

unfoldable pub show_llm_error : LlmError → String
show_llm_error (LlmError.connection_failed m) = format ("Connection failed: " ∷ m ∷ [])
show_llm_error (LlmError.request_failed m) = format ("Request failed: " ∷ m ∷ [])
show_llm_error (LlmError.parse_error m) = format ("Parse error: " ∷ m ∷ [])
show_llm_error LlmError.timeout = "Request timed out"
show_llm_error LlmError.rate_limited = "Rate limited"

unfoldable pub llm_error_is_retryable : LlmError → Bool
llm_error_is_retryable (LlmError.connection_failed _) = true
llm_error_is_retryable LlmError.timeout = true
llm_error_is_retryable LlmError.rate_limited = true
llm_error_is_retryable _ = false

pub record LlmService : Type 0 where
  pub api_key : String
  pub model : String

-- `LlmService::new`
abbrev pub new_llm : String → LlmService
new_llm api_key = record { api_key = api_key; model = "claude-sonnet-4-20250514" }

-- `StatusCode::is_success`
abbrev pub is_success : ℕ → Bool
is_success status = leb 200 status && ltb status 300

-- The first content block of type "text" that has a text.
abbrev pub first_text : List ContentBlock → Option String
first_text [] = none
first_text (b ∷ bs) = elim (if b.content_type == "text" then b.text else none) [
  | none ↦ first_text bs
  | some t ↦ some t
]

module _ (env : Services) where
  -- The first vector of the first item; an empty list or item is an invalid response.
  abbrev first_vector :
      List (EmbeddingResponseItem (Float env)) → Result EmbeddingError (List (Float env))
  first_vector [] = err (EmbeddingError.invalid_response "Empty embedding response")
  first_vector (item ∷ items) = elim item.embedding [
    | [] ↦ err (EmbeddingError.invalid_response "Empty embedding response")
    | v ∷ vs ↦ ok v
  ]

  abbrev decode_body : {A : Type 0} → (String → Result String A) → HttpResponse → Result String A
  decode_body decode r = elim r.body [ ok b ↦ decode b | err e ↦ err e ]

  abbrev embedding_of : HttpResponse → Result EmbeddingError (List (Float env))
  embedding_of response =
      if is_success response.status
      then (elim (decode_body env.decode_embedding response) [
        | ok items ↦ first_vector items
        | err e ↦ err (EmbeddingError.parse_error e)
      ])
      else err (
          EmbeddingError.request_failed
            (format ("Status: " ∷ env.status_text response.status ∷ [])))

  unfoldable pub generate_embedding :
      String → Eff (Call (Float env)) EmbeddingError (List (Float env))
  generate_embedding text_to_embed = do
    endpoint ← lift (
        ok_or (env.env_var "EMBEDDING_ENDPOINT")
          (EmbeddingError.not_configured "EMBEDDING_ENDPOINT environment variable not set"))
    response ← with_err EmbeddingError.connection_failed (
        call (Call.post_embedding endpoint text_to_embed)
          (λ h. env.post_embedding h endpoint text_to_embed))
    lift (embedding_of response)

  abbrev send_error : SendError → LlmError
  send_error SendError.timed_out = LlmError.timeout
  send_error (failed e) = LlmError.connection_failed e

  -- `response.text().await.unwrap_or_default()`
  abbrev error_body : HttpResponse → String
  error_body response = elim response.body [ ok b ↦ b | err e ↦ "" ]

  abbrev failed_status : HttpResponse → LlmError
  failed_status response = elim (env.decode_claude_error (error_body response)) [
    | ok detail ↦ LlmError.request_failed (format (detail.error_type ∷ ": " ∷ detail.message ∷ []))
    | err _ ↦
        LlmError.request_failed
          (format ("Status " ∷ env.status_text response.status ∷ ": " ∷ error_body response ∷ []))
  ]

  abbrev text_of : HttpResponse → Result LlmError String
  text_of response =
      if response.status ==ₙ 429
      then err LlmError.rate_limited
      else if is_success response.status
      then (elim (decode_body env.decode_claude response) [
        | ok result ↦
            ok_or (first_text result.content) (LlmError.parse_error "No text content in response")
        | err e ↦ err (LlmError.parse_error e)
      ])
      else err (failed_status response)

  abbrev claude_request : LlmService → String → String → GenerationConfig → ClaudeRequest
  claude_request llm system_prompt user_prompt config = record {
    model = llm.model;
    max_tokens = config.max_tokens;
    system = system_prompt;
    messages = record { role = "user"; content = user_prompt } ∷ [];
    temperature = some config.temperature;
  }

  -- `LlmService::generate`
  unfoldable pub generate :
      LlmService → String → String → GenerationConfig → Eff (Call (Float env)) LlmError String
  generate llm system_prompt user_prompt config = do
    let request = claude_request llm system_prompt user_prompt config
    response ←
        with_err send_error
          (call (Call.post_claude llm.api_key request) (λ h. env.post_claude h llm.api_key request))
    lift (text_of response)

  -- `graph.execute(query).await` and `graph.run(query).await`
  unfoldable pub execute :
      Statement
      → Params (Float env)
      → Eff (Call (Float env)) String (List (Result String (Row (Float env))))
  execute s params = call (Call.execute s params) (λ h. env.execute h (statement_text s) params)

  unfoldable pub run : Statement → Params (Float env) → Eff (Call (Float env)) String (Unit {0})
  run s params = call (Call.run s params) (λ h. env.run h (statement_text s) params)
