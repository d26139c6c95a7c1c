-- ===== src/Worker/Trace/Creation.antt =====
-- A job creates one node, or none where it reuses one.
use atlas_of_us.Worker.Job.{knowledge, skill, trait, milestone}
use atlas_of_us.Worker.Handler.{process_as, process_job}
use atlas_of_us.Worker.Decision.{create_new, create_and_generalize, use_existing, ConceptDecision}
use atlas_of_us.Worker.Job.{NodeGenerationResult, NodeType, NodeGenerationJob}
use atlas_of_us.Prelude.{
  none, some, sym, ◌+◌, ap, Option, false, ℕ, String, ◌≡◌, refl, Bool, true, List, arith,
  if◌then◌else◌,
}
use atlas_of_us.Effects.Defs.{raise, ok, Result, Eff, lift, with_err, ◌>>=◌}
use atlas_of_us.Effects.Counting.{
  then-pure-ok, pure-ok, Quiet-pure, Adds-pure, Quiet-bind, Adds, Adds-call, Adds-with_err,
  Adds-after-Quiet, Adds-before-Quiet, Quiet-lift, Quiet-with_err,
}
use atlas_of_us.Worker.Services.{
  MilestoneProperties, SkillProperties, TraitProperties, Row, Services, Float, Call, Statement,
  Params, KnowledgeProperties,
}
use atlas_of_us.Worker.Clients.{generate_embedding, LlmService, execute}
use atlas_of_us.Worker.Errors.{neo4j, from_embedding, ProcessingError}
use atlas_of_us.Worker.Processors.Knowledge
use atlas_of_us.Worker.Processors.Skill
use atlas_of_us.Worker.Processors.Trait
use atlas_of_us.Worker.Processors.Milestone
use atlas_of_us.Worker.Trace.Counts.{creations, is_create}
use atlas_of_us.Worker.Trace.Silent.{
  create_generalization-Silent, assign_level-Silent, decide_concept_action-Silent,
  ask_properties-Silent, find_similar_by_text-Silent, generate_embedding-Silent,
}

module _ (env : Services) where
  abbrev Creates : {E A : Type 0} → (A → ℕ) → Eff (Call (Float env)) E A → Type 0
  Creates n m = Adds creations n m

  abbrev one : {A : Type 0} → A → ℕ
  one a = 1

  -- One node, unless the result says that an existing one was reused.
  abbrev pub fresh : Bool → ℕ
  fresh was_reused = if was_reused then 0 else 1

  execute-Creates :
      (s : Statement) (ps : Params (Float env))
      → is_create s ≡ true
      → Creates one (execute env s ps)
  unfolding execute
  execute-Creates s ps e = Adds-call one (Call.execute s ps) _ (λ h a. rw e (omega arith))

  -- An embedding, a creating statement, and a reading of its row.
  creating-Creates :
      {A : Type 0} (t : String) (s : Statement) (ps : List (Float env) → Params (Float env))
      (read : List (Result String (Row (Float env))) → Result ProcessingError A)
      → is_create s ≡ true
      → Creates one (do
        embedding ← with_err from_embedding (generate_embedding env t)
        rows ← with_err neo4j (execute env s (ps embedding))
        lift (read rows))
  creating-Creates t s ps read e =
      Adds-after-Quiet one _ _ (Quiet-with_err _ _ (generate_embedding-Silent env t)) (λ v.
        Adds-before-Quiet one one _ _ (Adds-with_err one _ _ (execute-Creates s (ps v) e))
          (λ rows. Quiet-lift _) (λ rows h b q. refl))

  module _ (llm : LlmService) where
    create_knowledge-Creates :
        (props : KnowledgeProperties) → Creates one (Knowledge.create_node env llm props)
    unfolding Knowledge.create_node
    create_knowledge-Creates props = creating-Creates props.name _ _ _ refl

    create_skill-Creates : (props : SkillProperties) → Creates one (Skill.create_node env llm props)
    unfolding Skill.create_node
    create_skill-Creates props = creating-Creates props.name _ _ _ refl

    create_trait-Creates : (props : TraitProperties) → Creates one (Trait.create_node env llm props)
    unfolding Trait.create_node
    create_trait-Creates props = creating-Creates props.name _ _ _ refl

    create_milestone-Creates :
        (props : MilestoneProperties) → Creates one (Milestone.create_node env llm props)
    unfolding Milestone.create_node
    create_milestone-Creates props = creating-Creates props.name _ _ _ refl

    -- The number of a node that was just created.
    created_fresh : (x b : String × Bool) → x.1 ≡ false → x ≡ b → fresh b.1 ≡ 1
    created_fresh x b e q = rw (← q, e)

    carry_out_knowledge-Creates :
        (job : NodeGenerationJob) (d : ConceptDecision)
        → Creates (λ node. fresh node.1) (Knowledge.carry_out env llm job d)
    unfolding Knowledge.carry_out Knowledge.generate_properties
    carry_out_knowledge-Creates job (use_existing e n) = Adds-pure _ _ refl
    carry_out_knowledge-Creates job create_new =
        Adds-after-Quiet _ _ _ (ask_properties-Silent env llm _ _ _ _ _) (λ props.
          Adds-before-Quiet one _ _ _ (create_knowledge-Creates props) (λ n. Quiet-pure _)
            (λ n h b e. created_fresh _ b refl (pure-ok _ b h e)))
    carry_out_knowledge-Creates job (create_and_generalize i n) =
        Adds-after-Quiet _ _ _ (ask_properties-Silent env llm _ _ _ _ _) (λ props.
          Adds-before-Quiet one _ _ _ (create_knowledge-Creates props)
            (λ n. Quiet-bind _ _ (create_generalization-Silent env _ _) (λ u. Quiet-pure _))
            (λ n h b e. created_fresh _ b refl (then-pure-ok _ _ b h e)))

    carry_out_skill-Creates :
        (job : NodeGenerationJob) (d : ConceptDecision)
        → Creates (λ node. fresh node.1) (Skill.carry_out env llm job d)
    unfolding Skill.carry_out Skill.generate_properties
    carry_out_skill-Creates job (use_existing e n) = Adds-pure _ _ refl
    carry_out_skill-Creates job create_new =
        Adds-after-Quiet _ _ _ (ask_properties-Silent env llm _ _ _ _ _) (λ props.
          Adds-before-Quiet one _ _ _ (create_skill-Creates props) (λ n. Quiet-pure _)
            (λ n h b e. created_fresh _ b refl (pure-ok _ b h e)))
    carry_out_skill-Creates job (create_and_generalize i n) =
        Adds-after-Quiet _ _ _ (ask_properties-Silent env llm _ _ _ _ _) (λ props.
          Adds-before-Quiet one _ _ _ (create_skill-Creates props)
            (λ n. Quiet-bind _ _ (create_generalization-Silent env _ _) (λ u. Quiet-pure _))
            (λ n h b e. created_fresh _ b refl (then-pure-ok _ _ b h e)))

    carry_out_trait-Creates :
        (job : NodeGenerationJob) (d : ConceptDecision)
        → Creates (λ node. fresh node.1) (Trait.carry_out env llm job d)
    unfolding Trait.carry_out Trait.generate_properties
    carry_out_trait-Creates job (use_existing e n) = Adds-pure _ _ refl
    carry_out_trait-Creates job create_new =
        Adds-after-Quiet _ _ _ (ask_properties-Silent env llm _ _ _ _ _) (λ props.
          Adds-before-Quiet one _ _ _ (create_trait-Creates props) (λ n. Quiet-pure _)
            (λ n h b e. created_fresh _ b refl (pure-ok _ b h e)))
    carry_out_trait-Creates job (create_and_generalize i n) =
        Adds-after-Quiet _ _ _ (ask_properties-Silent env llm _ _ _ _ _) (λ props.
          Adds-before-Quiet one _ _ _ (create_trait-Creates props) (λ n. Quiet-pure _)
            (λ n h b e. created_fresh _ b refl (pure-ok _ b h e)))

    process_knowledge-Creates :
        (job : NodeGenerationJob)
        → Creates (λ r. fresh r.was_reused) (Knowledge.process env llm job)
    unfolding Knowledge.process
    process_knowledge-Creates job =
        Adds-after-Quiet _ _ _ (Quiet-with_err _ _ (find_similar_by_text-Silent env _ _ _))
          (λ similar.
            Adds-after-Quiet _ _ _ (decide_concept_action-Silent env llm _ similar _ _ _) (λ d.
              Adds-before-Quiet (λ node. fresh node.1) _ _ _ (carry_out_knowledge-Creates job d)
                (λ node. Quiet-bind _ _ (assign_level-Silent env job _ _ _) (λ u. Quiet-pure _))
                (λ node h b e. ap (λ r. fresh r.was_reused) (sym (then-pure-ok _ _ b h e)))))

    process_skill-Creates :
        (job : NodeGenerationJob) → Creates (λ r. fresh r.was_reused) (Skill.process env llm job)
    unfolding Skill.process
    process_skill-Creates job =
        Adds-after-Quiet _ _ _ (Quiet-with_err _ _ (find_similar_by_text-Silent env _ _ _))
          (λ similar.
            Adds-after-Quiet _ _ _ (decide_concept_action-Silent env llm _ similar _ _ _) (λ d.
              Adds-before-Quiet (λ node. fresh node.1) _ _ _ (carry_out_skill-Creates job d)
                (λ node. Quiet-bind _ _ (assign_level-Silent env job _ _ _) (λ u. Quiet-pure _))
                (λ node h b e. ap (λ r. fresh r.was_reused) (sym (then-pure-ok _ _ b h e)))))

    process_trait-Creates :
        (job : NodeGenerationJob) → Creates (λ r. fresh r.was_reused) (Trait.process env llm job)
    unfolding Trait.process
    process_trait-Creates job =
        Adds-after-Quiet _ _ _ (Quiet-with_err _ _ (find_similar_by_text-Silent env _ _ _))
          (λ similar.
            Adds-after-Quiet _ _ _ (decide_concept_action-Silent env llm _ similar _ _ _) (λ d.
              Adds-before-Quiet (λ node. fresh node.1) _ _ _ (carry_out_trait-Creates job d)
                (λ node. Quiet-bind _ _ (assign_level-Silent env job _ _ _) (λ u. Quiet-pure _))
                (λ node h b e. ap (λ r. fresh r.was_reused) (sym (then-pure-ok _ _ b h e)))))

    process_milestone-Creates :
        (job : NodeGenerationJob)
        → Creates (λ r. fresh r.was_reused) (Milestone.process env llm job)
    unfolding Milestone.process Milestone.generate_properties
    process_milestone-Creates job =
        Adds-after-Quiet _ _ _ (ask_properties-Silent env llm _ _ _ _ _) (λ props.
          Adds-before-Quiet one _ _ _ (create_milestone-Creates props)
            (λ n. Quiet-bind _ _ (assign_level-Silent env job _ _ _) (λ u. Quiet-pure _))
            (λ n h b e. ap (λ r. fresh r.was_reused) (sym (then-pure-ok _ _ b h e))))

    process_with-Creates :
        (t : NodeType) (job : NodeGenerationJob)
        → Creates (λ r. fresh r.was_reused) (process_as env llm job t)
    process_with-Creates knowledge job = process_knowledge-Creates job
    process_with-Creates skill job = process_skill-Creates job
    process_with-Creates trait job = process_trait-Creates job
    process_with-Creates milestone job = process_milestone-Creates job

-- A job of any type that succeeds has asked the database for exactly one new node, or for none
-- where its result says that an existing node was reused; whatever the services answer.
pub process_job-creations :
    (env : Services) (llm : Option LlmService) (job : NodeGenerationJob)
    (h : List (Call (Float env))) (r : NodeGenerationResult)
    → (process_job env llm job h).0 ≡ ok r
    → creations (process_job env llm job h).1 ≡ creations h + (if r.was_reused then 0 else 1)
unfolding process_job raise
process_job-creations env none job h r e = cc
process_job-creations env (some llm) job h r e =
    (process_with-Creates env llm job.node_type job).at h r e
