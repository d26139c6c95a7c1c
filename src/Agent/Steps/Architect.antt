-- ===== src/Agent/Steps/Architect.antt =====
-- The domain architect (domains/agent/steps/domain_architect.rs).
use atlas_of_us.Agent.Registry.Defs.{created}
use atlas_of_us.Agent.Steps.Context.{add_domain_level, set_domain, description_of}
use atlas_of_us.Graph.Models.{show_service_error, pos}
use atlas_of_us.Agent.Generation.Models.{node_created, domain_architect}
use atlas_of_us.Agent.Steps.Generators.{progress}
use Prim.Native.Char.{Char}
use atlas_of_us.Effects.Defs.{err, ◌>>◌, ok, pure, ◌>>=◌, Result}
use atlas_of_us.Agent.Steps.Environment.{
  change_context, emit_event, serve_or, serve, ask_world, get_context, make_node, ImageGenJob, Step,
  StepEnvironment,
}
use atlas_of_us.Text.{decimal, chars, of_chars, same_char, format}
use atlas_of_us.Prelude.{
  ℕ, String, Bool, true, false, ◌||◌, none, List, [], ◌∷◌, if◌then◌else◌, length,
}

pub record LevelInfo : Type 0 where
  pub level : ℕ
  pub name : String
  pub description : String
  pub total_points_required : ℕ

unfoldable pub get_level_structure : String → List LevelInfo
get_level_structure domain_name =
    record {
      level = 1;
      name = format (domain_name ∷ " Novice" ∷ []);
      description = format ("Beginning your journey in " ∷ domain_name ∷ []);
      total_points_required = 100;
    }
    ∷ record {
      level = 2;
      name = format (domain_name ∷ " Developing" ∷ []);
      description = format ("Building foundational skills in " ∷ domain_name ∷ []);
      total_points_required = 200;
    }
    ∷ record {
      level = 3;
      name = format (domain_name ∷ " Competent" ∷ []);
      description = format ("Demonstrating solid competence in " ∷ domain_name ∷ []);
      total_points_required = 400;
    }
    ∷ record {
      level = 4;
      name = format (domain_name ∷ " Advanced" ∷ []);
      description = format ("Achieving advanced mastery in " ∷ domain_name ∷ []);
      total_points_required = 700;
    }
    ∷ record {
      level = 5;
      name = format (domain_name ∷ " Master" ∷ []);
      description = format ("Expert-level mastery of " ∷ domain_name ∷ []);
      total_points_required = 1000;
    }
    ∷ []

module _ (env : StepEnvironment) where
  -- `replace(' ', "_")` and the filter, on the characters of the name in lower case.
  unfoldable pub sanitize : List Char → List Char
  sanitize [] = []
  sanitize (c ∷ cs) =
      let rest = sanitize cs in
      let kept : Char = if same_char c " " then "_" else c in
      if env.is_alphanumeric kept || same_char kept "_" then kept ∷ rest else rest

  unfoldable pub avatar_job : String → String → ℕ → ImageGenJob
  unfolding sanitize
  avatar_job domain_name element_id now = record {
    domain_name = domain_name;
    element_id = element_id;
    prompt = format (
        "A beautiful, artistic icon representing the domain of '" ∷ domain_name
        ∷ "'. Clean, modern design suitable for an app avatar. Minimalist style with vibrant colors on a simple background. No text or words."
        ∷ []);
    s3_key = format (
        "domains/"
        ∷ of_chars (sanitize (chars (env.to_lowercase domain_name)))
        ∷ "/avatar.png"
        ∷ []);
    created_at = decimal now;
  }

  abbrev pub report_avatar : Result String (Unit {0}) → Step env (Unit {0})
  report_avatar (ok u) = progress env domain_architect ("Domain avatar queued for generation" ∷ [])
  report_avatar (err e) = pure tt

  abbrev pub queue_if : Bool → String → String → Step env (Unit {0})
  queue_if false domain_name element_id = pure tt
  queue_if true domain_name element_id = do
    now ← ask_world env env.seconds
    r ← serve env (env.queue_image_generation (avatar_job domain_name element_id now))
    report_avatar r

  unfoldable pub queue_avatar_generation : String → String → Step env (Unit {0})
  unfolding avatar_job
  queue_avatar_generation domain_name element_id = do
    configured ← ask_world env env.is_queue_configured
    queue_if configured domain_name element_id

  unfoldable pub create_domain_level : String → LevelInfo → Step env (Unit {0})
  create_domain_level domain_id info = do
    level_result ← make_node env "Domain_Level" (
        ("name", env.json.text info.name)
        ∷ ("description", env.json.text info.description)
        ∷ ("level", env.json.int (pos info.level))
        ∷ ("total_points_required", env.json.int (pos info.total_points_required))
        ∷ [])
    serve_or env (show_service_error env.floats) (
        env.create_relationship (record {
          source_id = domain_id;
          target_id = level_result.element_id;
          relationship_type = "HAS_DOMAIN_LEVEL";
          properties = none;
        }))
    emit_event env (node_created domain_architect info.name "Domain_Level" false)
    change_context env (add_domain_level (created info.name level_result.element_id "Domain_Level"))

  unfoldable pub create_domain_levels : String → List LevelInfo → Step env (Unit {0})
  unfolding create_domain_level
  create_domain_levels domain_id [] = pure tt
  create_domain_levels domain_id (info ∷ infos) = do
    create_domain_level domain_id info
    create_domain_levels domain_id infos

  unfoldable pub execute_architect : Step env (Unit {0})
  unfolding queue_avatar_generation create_domain_levels get_level_structure
  execute_architect = do
    context ← get_context env
    let domain_name = context.domain_name
    progress env domain_architect ("Creating domain node..." ∷ [])
    domain_result ← make_node env "Domain" (
        ("name", env.json.text domain_name)
        ∷ ("description", env.json.text (description_of context))
        ∷ [])
    emit_event env (node_created domain_architect domain_name "Domain" false)
    queue_avatar_generation domain_name domain_result.element_id
    change_context env (set_domain (created domain_name domain_result.element_id "Domain"))
    let levels = get_level_structure domain_name
    progress env domain_architect ("Creating " ∷ decimal (length levels) ∷ " domain levels..." ∷ [])
    create_domain_levels domain_result.element_id levels
