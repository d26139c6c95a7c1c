-- ===== src/Worker/Trace/Linking.antt =====
-- The last call of a job that succeeds, where the domain has the level of its node.
use atlas_of_us.Prelude.{
  ℕ, String, ◌≡◌, refl, sym, ◌∙◌, Bool, false, Option, none, some, List, [], ◌∷◌, find,
}
use atlas_of_us.Effects.Defs.{raise, ok, Eff, pure, ◌>>=◌, ◌>>◌}
use atlas_of_us.Effects.Counting.{pure-ok, bind-ok}
use atlas_of_us.Worker.Job.{
  DomainLevelInfo, NodeGenerationJob, NodeGenerationResult, NodeType, knowledge, skill, trait,
  milestone, is_level, success, level_relationship,
}
use atlas_of_us.Worker.Services.{Services, Float, Call, Bolt, require_level}
use atlas_of_us.Worker.Clients.{LlmService, run}
use atlas_of_us.Worker.Errors.{ProcessingError}
use atlas_of_us.Worker.Decision.{determine_level}
use atlas_of_us.Worker.Processors.Common.{create_level_requirement, assign_level}
use atlas_of_us.Worker.Processors.Knowledge
use atlas_of_us.Worker.Processors.Skill
use atlas_of_us.Worker.Processors.Trait
use atlas_of_us.Worker.Processors.Milestone
use atlas_of_us.Worker.Handler.{process_as, process_job}

module _ (env : Services) where
  -- The call that links a node to a level.
  abbrev pub level_link : String → DomainLevelInfo → String → Call (Float env)
  level_link relationship_type level_info node_id =
      Call.run (require_level relationship_type)
        (("level_id", Bolt.text level_info.element_id) ∷ ("node_id", Bolt.text node_id) ∷ [])

  -- The level that the job's node is assigned to.
  abbrev pub level_of : NodeGenerationJob → ℕ
  level_of job = determine_level job.suggested_level job.node_name job.domain_levels

  -- The result of a job that succeeded, and where its history ends.
  pub record IsFinished (job : NodeGenerationJob) (relationship_type : String)
      (level_info : DomainLevelInfo) (r : NodeGenerationResult) (h : List (Call (Float env)))
      : Type 0 where
    pub node_id : String
    pub before : List (Call (Float env))
    pub result : r ≡ success job.job_id node_id r.was_reused (some (level_of job)) 0
    pub linked : h ≡ level_link relationship_type level_info node_id ∷ before

  module _ (job : NodeGenerationJob) (li : DomainLevelInfo)
      (found : find (is_level (level_of job)) job.domain_levels ≡ some li) where
    abbrev tail :
        String → String → Bool → Eff (Call (Float env)) ProcessingError NodeGenerationResult
    tail rel id reused = do
      assign_level env job (level_of job) id rel
      pure (success job.job_id id reused (some (level_of job)) 0)

    -- A computation that ends in such a tail.
    Ends : String → Eff (Call (Float env)) ProcessingError NodeGenerationResult → Type 0
    Ends rel m =
        (h : List (Call (Float env))) (r : NodeGenerationResult)
        → (m h).0 ≡ ok r
        → IsFinished job rel li r (m h).1

    assigned :
        (rel id : String) (h : List (Call (Float env)))
        → (assign_level env job (level_of job) id rel h).1 ≡ level_link rel li id ∷ h
    unfolding assign_level create_level_requirement run ◌>>=◌
    assigned rel id h = rw found refl

    tail-Ends : (rel id : String) (reused : Bool) → Ends rel (tail rel id reused)
    unfolding Ends pure
    tail-Ends rel id reused h r e =
        let (u, h', ran, moved, last, same) =
          bind-ok (assign_level env job (level_of job) id rel)
            (λ u. pure (success job.job_id id reused (some (level_of job)) 0)) h r e in
        let is_r = pure-ok _ r h' last in
        record {
          node_id = id;
          before = h;
          result = rw (← is_r) refl;
          linked = same ∙ sym moved ∙ assigned rel id h;
        }

    bind-Ends :
        {A : Type 0} (rel : String) (m : Eff (Call (Float env)) ProcessingError A)
        (f : A → Eff (Call (Float env)) ProcessingError NodeGenerationResult)
        → ((a : A) → Ends rel (f a))
        → Ends rel (m >>= f)
    unfolding Ends
    bind-Ends rel m f ends h r e =
        let (a, h', ran, moved, last, same) = bind-ok m f h r e in rw same (ends a h' r last)

    module _ (llm : LlmService) where
      process_as-Ends : (t : NodeType) → Ends (level_relationship t) (process_as env llm job t)
      unfolding Knowledge.process Skill.process Trait.process Milestone.process level_relationship
      process_as-Ends knowledge =
          bind-Ends _ _ _ (λ s. bind-Ends _ _ _ (λ d. bind-Ends _ _ _ (λ n. tail-Ends _ n.0 n.1)))
      process_as-Ends skill =
          bind-Ends _ _ _ (λ s. bind-Ends _ _ _ (λ d. bind-Ends _ _ _ (λ n. tail-Ends _ n.0 n.1)))
      process_as-Ends trait =
          bind-Ends _ _ _ (λ s. bind-Ends _ _ _ (λ d. bind-Ends _ _ _ (λ n. tail-Ends _ n.0 n.1)))
      process_as-Ends milestone =
          bind-Ends _ _ _ (λ s. bind-Ends _ _ _ (λ n. tail-Ends _ n.element_id false))

-- A job that succeeds, and whose level the domain has, ends by linking that level to the node of
-- its result, with the relationship of its node type; the result carries the job's id, that node
-- and level, and no error.
pub process_job-IsFinished :
    (env : Services) (llm : Option LlmService) (job : NodeGenerationJob)
    (level_info : DomainLevelInfo) (h : List (Call (Float env))) (r : NodeGenerationResult)
    → find
        (is_level (determine_level job.suggested_level job.node_name job.domain_levels))
        job.domain_levels
      ≡ some level_info
    → (process_job env llm job h).0 ≡ ok r
    → IsFinished env job
        (level_relationship job.node_type)
        level_info
        r
        (process_job env llm job h).1
unfolding process_job Ends
process_job-IsFinished env none job li h r found e = unfold raise in cc
process_job-IsFinished env (some llm) job li h r found e =
    process_as-Ends env job li found llm job.node_type h r e
