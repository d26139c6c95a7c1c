-- ===== src/Samples/Outside.antt =====
-- A world of services for the worker: every call succeeds, a search finds one node of score 0.50,
-- and the only message that decodes is "job".
use atlas_of_us.Prelude.{ℕ, false, Option, none, some, List, [], ◌∷◌, ◌==◌, if◌then◌else◌}
use atlas_of_us.Effects.Defs.{ok, err}
use atlas_of_us.Worker.Job.{
  NodeGenerationJob, DomainLevelInfo, NodeGenerationResult, success, knowledge,
}
use atlas_of_us.Worker.Services.{Services, Row, HttpResponse}
use atlas_of_us.Worker.Clients.{LlmService, new_llm}
use atlas_of_us.Worker.Similarity.{SimilarNodeResult}
use atlas_of_us.Samples.Scores.{scores}

abbrev pub levels : List DomainLevelInfo
levels =
    record { level = 1; name = "Chess Novice"; element_id = "l1" }
    ∷ record { level = 3; name = "Chess Competent"; element_id = "l3" }
    ∷ []

abbrev pub job : NodeGenerationJob
job = record {
  job_id = "j1";
  generation_id = "g1";
  sequence_number = 0;
  total_nodes = 1;
  node_type = knowledge;
  node_name = "Openings";
  domain_name = "Chess";
  domain_description = none;
  domain_element_id = "d1";
  domain_levels = levels;
  suggested_level = none;
  created_at = "now";
  retry_count = 0;
}

abbrev row : Row (Option ℕ)
row = record { get_text = λ key. some key; get_float = λ key. some (some 50) }

abbrev answer : HttpResponse
answer = record { status = 200; body = ok "body" }

abbrev pub outside : Services
outside = record {
  floats = scores;
  env_var = λ name. some "http://embeddings";
  connect = λ h uri user password. ok tt;
  execute = λ h text params. ok (ok row ∷ []);
  run = λ h text params. ok tt;
  post_embedding = λ h url text. ok answer;
  post_claude = λ h key request. ok answer;
  status_text = λ status. "OK";
  decode_embedding = λ body. ok (record { embedding = (some 1 ∷ []) ∷ [] } ∷ []);
  decode_claude = λ body. ok (record {
    content = record { content_type = "text"; text = some "{}" } ∷ [];
    stop_reason = none;
  });
  decode_claude_error = λ body. err "no error";
  decode_verification = λ text. ok (record {
    decision = "use_existing";
    existing_node_name = some "Chess Openings";
    suggested_target = none;
    reason = none;
  });
  decode_knowledge = λ text. ok (record {
    name = "Openings";
    description = "";
    how_to_learn = "";
    remember_level = "";
    understand_level = "";
    apply_level = "";
    analyze_level = "";
    evaluate_level = "";
    create_level = "";
  });
  decode_skill = λ text. err "not asked";
  decode_trait = λ text. err "not asked";
  decode_milestone = λ text. err "not asked";
  decode_job = λ body. if body == "job" then ok job else err "expected value";
}

abbrev pub llm : LlmService
llm = new_llm "key"

abbrev pub result : NodeGenerationResult
result = success "j1" "element_id" false (some 3) 0

-- A similar node of a moderate score.
abbrev pub similar : SimilarNodeResult (Option ℕ)
similar = record { name = "Chess Openings"; description = none; id = "n7"; score = some 80 }
