-- ===== src/Worker/Trace/Silent.antt =====
-- The code that creates no node.
use atlas_of_us.Floats.{lt_f64}
use atlas_of_us.Prelude.{
  ℕ, String, ◌≡◌, refl, Bool, true, false, Option, none, some, List, arith, head?, find,
}
use atlas_of_us.Effects.Defs.{Result, Eff, call}
use atlas_of_us.Effects.Counting.{
  Quiet, Quiet-call, quiet_rules, Quiet-pure, Quiet-bind, Quiet-lift, Quiet-with_err, Quiet-raise,
}
use atlas_of_us.Worker.Job.{DomainLevelInfo, NodeGenerationJob, is_level}
use atlas_of_us.Worker.Services.{
  ClaudeRequest, Services, Float, Call, Statement, Params, GenerationConfig,
}
use atlas_of_us.Worker.Clients.{LlmService, generate_embedding, generate, execute, run}
use atlas_of_us.Worker.Similarity.{
  search_by, FindSimilarNodesRequest, SimilarNodeResult, find_similar_nodes, find_similar_by_text,
  execute_similarity_query,
}
use atlas_of_us.Worker.Decision.{
  create_new, decide_by, ConceptDecision, SimilarityThresholds, verify_with_llm,
  decide_concept_action, reuse_top, top_score,
}
use atlas_of_us.Worker.Processors.Common.{
  require_of, create_level_requirement, create_generalization, assign_level, ask_properties,
}
use atlas_of_us.Worker.Trace.Counts.{creation, creations, is_create}

module _ (env : Services) where
  abbrev pub Silent : {E A : Type 0} → Eff (Call (Float env)) E A → Type 0
  Silent m = Quiet creations m

  Silent-call :
      {E A : Type 0} (c : Call (Float env)) (answer : List (Call (Float env)) → Result E A)
      → creation c ≡ 0
      → Silent (call c answer)
  Silent-call c answer e = Quiet-call c answer (λ h. omega arith)

  post_embedding-Silent :
      {E A : Type 0} (e t : String) (answer : List (Call (Float env)) → Result E A)
      → Silent (call (Call.post_embedding e t) answer)
  post_embedding-Silent e t answer = Silent-call (Call.post_embedding e t) answer refl

  post_claude-Silent :
      {E A : Type 0} (k : String) (r : ClaudeRequest)
      (answer : List (Call (Float env)) → Result E A)
      → Silent (call (Call.post_claude k r) answer)
  post_claude-Silent k r answer = Silent-call (Call.post_claude k r) answer refl

  pub run-Silent : (s : Statement) (ps : Params (Float env)) → Silent (run env s ps)
  unfolding run
  run-Silent s ps = Silent-call (Call.run s ps) _ refl

  pub generate_embedding-Silent : (t : String) → Silent (generate_embedding env t)
  unfolding generate_embedding
  generate_embedding-Silent t = search (quiet_rules, post_embedding-Silent)

  pub generate-Silent :
      (llm : LlmService) (s u : String) (c : GenerationConfig) → Silent (generate env llm s u c)
  unfolding generate
  generate-Silent llm s u c = search (quiet_rules, post_claude-Silent)

  execute_similarity_query-Silent :
      (s : Statement) (ps : Params (Float env))
      → is_create s ≡ false
      → Silent (execute_similarity_query env s ps)
  unfolding execute_similarity_query execute
  execute_similarity_query-Silent s ps e =
      Quiet-bind _ _ (Quiet-with_err _ _ (Silent-call (Call.execute s ps) _ (rw e)))
        (λ rows. Quiet-lift _)

  find_similar_nodes-Silent :
      (r : FindSimilarNodesRequest (Float env)) → Silent (find_similar_nodes env r)
  unfolding find_similar_nodes
  find_similar_nodes-Silent r = go r.node_id r.embedding r.text
    where
      go :
          (node_id : Option String) (e : Option (List (Float env))) (t : Option String)
          → Silent (search_by env r node_id e t)
      go (some node_id) e t = execute_similarity_query-Silent _ _ refl
      go none (some e) t = execute_similarity_query-Silent _ _ refl
      go none none (some t) =
          Quiet-bind _ _ (Quiet-with_err _ _ (generate_embedding-Silent t))
            (λ e. execute_similarity_query-Silent _ _ refl)
      go none none none = Quiet-raise _

  pub find_similar_by_text-Silent :
      (t : String) (l : Option String) (n : ℕ) → Silent (find_similar_by_text env t l n)
  unfolding find_similar_by_text
  find_similar_by_text-Silent t l n =
      find_similar_nodes-Silent
        (record { node_id = none; embedding = none; text = some t; label = l; limit = some n })

  verify_with_llm-Silent :
      (llm : LlmService) (c : String) (similar : List (SimilarNodeResult (Float env)))
      (d l : String)
      → Silent (verify_with_llm env llm c similar d l)
  unfolding verify_with_llm
  verify_with_llm-Silent llm c similar d l = search (quiet_rules, generate-Silent)

  pub decide_concept_action-Silent :
      (llm : LlmService) (c : String) (similar : List (SimilarNodeResult (Float env)))
      (t : SimilarityThresholds (Float env)) (d l : String)
      → Silent (decide_concept_action env llm c similar t d l)
  unfolding decide_concept_action
  decide_concept_action-Silent llm c similar t d l =
      go (reuse_top env t (head? similar))
        (lt_f64 env.floats (top_score env (head? similar)) t.auto_create)
    where
      go : (o : Option ConceptDecision) (b : Bool) → Silent (decide_by env llm c similar d l o b)
      go (some decision) b = Quiet-pure decision
      go none true = Quiet-pure create_new
      go none false = Quiet-bind _ _ (verify_with_llm-Silent llm c similar d l) (λ v. Quiet-pure _)

  create_level_requirement-Silent : (l n r : String) → Silent (create_level_requirement env l n r)
  unfolding create_level_requirement
  create_level_requirement-Silent l n r = search (quiet_rules, run-Silent)

  pub create_generalization-Silent : (s t : String) → Silent (create_generalization env s t)
  unfolding create_generalization
  create_generalization-Silent s t = search (quiet_rules, run-Silent)

  pub assign_level-Silent :
      (job : NodeGenerationJob) (level : ℕ) (n r : String) → Silent (assign_level env job level n r)
  unfolding assign_level
  assign_level-Silent job level n r = go (find (is_level level) job.domain_levels)
    where
      go : (o : Option DomainLevelInfo) → Silent (require_of env n r o)
      go none = Quiet-pure tt
      go (some info) = create_level_requirement-Silent info.element_id n r

  pub ask_properties-Silent :
      {A : Type 0} (llm : LlmService) (s u : String) (c : GenerationConfig) (m : String)
      (decode : String → Result String A)
      → Silent (ask_properties env llm s u c m decode)
  unfolding ask_properties
  ask_properties-Silent llm s u c m decode = search (quiet_rules, generate-Silent)
