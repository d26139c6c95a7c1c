-- ===== src/Agent/Steps/Within.antt =====
-- What a step leaves alone, one rule for each way to build a step.
use mathlib.Core.List.{append-nil}
use atlas_of_us.Agent.Generation.Protocol.{marks-append, mark_of, marks}
use atlas_of_us.Agent.Registry.Defs.{CreatedNode, DomainGraphRegistry}
use atlas_of_us.Effects.Defs.{err, ok, continue, Result, Exec, lift, pure, raise, ◌>>=◌}
use atlas_of_us.Agent.Steps.Environment.{
  State, Step, StepState, ask_model, ask_world, change_context, emit_event, get_context, make_node,
  relate, run_batch, run_each, search_similar, serve, serve_or, settle, StepEnvironment,
}
use atlas_of_us.Agent.Generation.Models.{
  panicked, fault, SseEvent, Abort, AgentContext, AgentType, domain_architect, knowledge_generator,
  skill_generator, trait_generator, milestone_generator, level_distributor, prerequisite_mapper,
}
use atlas_of_us.Prelude.{
  ℕ, String, ◌≡◌, refl, ◌∙◌, ◌≢◌, Bool, true, false, Option, none, List, [], ◌∷◌, if◌then◌else◌,
}

-- The nodes that the orchestrator counts as those of an agent: the architect's are the domain and
-- its levels.
abbrev pub owned : AgentType → DomainGraphRegistry → Option CreatedNode × List CreatedNode
owned domain_architect r = (r.domain, r.domain_levels)
owned knowledge_generator r = (none, r.knowledge)
owned skill_generator r = (none, r.skills)
owned trait_generator r = (none, r.traits)
owned milestone_generator r = (none, r.milestones)
owned level_distributor r = (none, [])
owned prerequisite_mapper r = (none, [])

module _ {F W : Type 0} (t : AgentType) where
  -- From one state to a later one of a step of agent `t`: the nodes of the other agents are the
  -- same, and no event on the course of the generation was sent.
  pub record Within (s s' : StepState F W) : Type 0 where
    pub others :
        (u : AgentType) → u ≢ t → owned u s'.context.domain_graph ≡ owned u s.context.domain_graph
    pub silent : marks s'.events ≡ marks s.events

  Within-refl : (s : StepState F W) → Within s s
  Within-refl s = record { others = λ u ne. refl; silent = refl }

  Within-trans : (s s' s'' : StepState F W) → Within s s' → Within s' s'' → Within s s''
  Within-trans s s' s'' a b = record {
    others = λ u ne. b.others u ne ∙ a.others u ne;
    silent = b.silent ∙ a.silent;
  }

-- What `m` does, whether it returns, fails or panics.
pub record Stays {F W A : Type 0} (t : AgentType) (m : Exec (StepState F W) Abort A) : Type 0 where
  pub at : (s : StepState F W) → Within t s (m s).1

module _ {F W A : Type 0} {t : AgentType} where
  pub Stays-pure : (a : A) → Stays {F = F} {W = W} t (pure a)
  unfolding pure
  Stays-pure a = record { at = λ s. Within-refl t s }

  pub Stays-raise : (e : Abort) → Stays {F = F} {W = W} {A = A} t (raise e)
  unfolding raise
  Stays-raise e = record { at = λ s. Within-refl t s }

  pub Stays-lift : (r : Result Abort A) → Stays {F = F} {W = W} t (lift r)
  unfolding lift
  Stays-lift r = record { at = λ s. Within-refl t s }

  pub Stays-if :
      (b : Bool) (m n : Exec (StepState F W) Abort A)
      → Stays t m
      → Stays t n
      → Stays t (if b then m else n)
  Stays-if true m n sm sn = sm
  Stays-if false m n sm sn = sn

module _ {F W A B : Type 0} {t : AgentType} where
  pub Stays-bind :
      (m : Exec (StepState F W) Abort A) (f : A → Exec (StepState F W) Abort B)
      → Stays t m
      → ((a : A) → Stays t (f a))
      → Stays t (m >>= f)
  unfolding ◌>>=◌
  Stays-bind m f sm sf = record { at = λ s. go s (m s).0 (m s).1 (sm.at s) }
    where
      go :
          (s : StepState F W) (r : Result Abort A) (s' : StepState F W)
          → Within t s s'
          → Within t s (continue r f s').1
      go s (ok a) s' w = Within-trans t s s' _ w ((sf a).at s')
      go s (err e) s' w = w

module _ (env : StepEnvironment) {t : AgentType} where
  pub Stays-emit :
      (event : SseEvent env.floats.F64) → mark_of event ≡ [] → Stays t (emit_event env event)
  unfolding emit_event marks
  Stays-emit event quiet = record {
    at = λ s. record {
      others = λ u ne. refl;
      silent = marks-append s.events (event ∷ []) ∙ rw quiet (append-nil (marks s.events));
    };
  }

  pub Stays-change :
      (f : AgentContext → AgentContext)
      → ((u : AgentType) (c : AgentContext)
          → u ≢ t
          → owned u (f c).domain_graph ≡ owned u c.domain_graph)
      → Stays t (change_context env f)
  unfolding change_context
  Stays-change f keeps = record {
    at = λ s. record { others = λ u ne. keeps u s.context ne; silent = refl };
  }

  pub Stays-get : Stays t (get_context env)
  unfolding get_context
  Stays-get = record { at = λ s. Within-refl t s }

module _ (env : StepEnvironment) {t : AgentType} {A : Type 0} where
  pub Stays-ask : (f : env.World → A) → Stays t (ask_world env f)
  unfolding ask_world
  Stays-ask f = record { at = λ s. Within-refl t s }

module _ (env : StepEnvironment) {t : AgentType} {E A : Type 0} where
  pub Stays-serve : (f : env.World → Result E A × env.World) → Stays t (serve env f)
  unfolding serve
  Stays-serve f = record { at = λ s. record { others = λ u ne. refl; silent = refl } }

  pub Stays-serve_or :
      (show : E → String) (f : env.World → Result E A × env.World) → Stays t (serve_or env show f)
  unfolding serve_or
  Stays-serve_or show f = Stays-bind _ _ (Stays-serve f) (λ r. Stays-lift _)

module _ (env : StepEnvironment) {t : AgentType} where
  pub ask_model-Stays :
      (system prompt : String) (tokens tenths : ℕ)
      → Stays t (ask_model env system prompt tokens tenths)
  unfolding ask_model
  ask_model-Stays system prompt tokens tenths =
      Stays-bind _ _ (Stays-serve env _) (λ r. Stays-lift _)

  pub search_similar-Stays :
      (concept label : String) (limit : ℕ) → Stays t (search_similar env concept label limit)
  unfolding search_similar
  search_similar-Stays concept label limit = Stays-bind _ _ (Stays-serve env _) (λ r. Stays-lift _)

  pub make_node-Stays :
      (label : String) (properties : List (String × env.json.Value))
      → Stays t (make_node env label properties)
  unfolding make_node
  make_node-Stays label properties = Stays-bind _ _ (Stays-serve env _) (λ r. Stays-lift _)

  pub relate-Stays :
      (source target type : String) (properties : Option (List (String × env.json.Value)))
      → Stays t (relate env source target type properties)
  unfolding relate
  relate-Stays source target type properties =
      Stays-bind _ _ (Stays-serve env _) (λ r. Stays-pure _)

module _ (env : StepEnvironment) {t : AgentType} {A : Type 0} where
  settle-Stays : (m : Step env A) → Stays t m → Stays t (settle env m)
  unfolding settle
  settle-Stays m sm = record { at = λ s. go s (m s).0 (m s).1 (sm.at s) }
    where
      go :
          (s : State env) (r : Result Abort A) (s' : State env)
          → Within t s s'
          → Within t s (settle env (λ _. (r, s')) s).1
      go s (ok a) s' w = w
      go s (err (fault e)) s' w = w
      go s (err panicked) s' w = w

  run_each-Stays :
      {X : Type 0} (f : X → Step env A) (xs : List X)
      → ((x : X) → Stays t (f x))
      → Stays t (run_each env f xs)
  unfolding run_each
  run_each-Stays f [] sf = Stays-pure _
  run_each-Stays f (x ∷ xs) sf =
      Stays-bind _ _ (settle-Stays (f x) (sf x))
        (λ r. Stays-bind _ _ (run_each-Stays f xs sf) (λ rs. Stays-pure _))

  pub run_batch-Stays :
      {X : Type 0} (f : X → Step env A) (xs : List X)
      → ((x : X) → Stays t (f x))
      → Stays t (run_batch env f xs)
  unfolding run_batch
  run_batch-Stays f xs sf = Stays-bind _ _ (run_each-Stays f xs sf) (λ rs. Stays-lift _)

pub ruleset stays_rules = (
  Stays-pure, Stays-raise, Stays-lift, Stays-if, Stays-bind, Stays-get, Stays-ask, Stays-serve,
  Stays-serve_or, ask_model-Stays, search_similar-Stays, make_node-Stays, relate-Stays,
  run_batch-Stays,
)
