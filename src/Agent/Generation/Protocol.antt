-- ===== src/Agent/Generation/Protocol.antt =====
-- The order of the events that a client of a domain generation sees.
use mathlib.Core.List.{append_assoc}
use atlas_of_us.Prelude.{
  none, Option, ℕ, suc, ◌+◌, ◌%◌, ◌^◌, String, ◌≡◌, refl, sym, ap, ◌∙◌, some, List, [], ◌∷◌, ◌++◌,
}
use atlas_of_us.Effects.Defs.{Result, ok, err}
use atlas_of_us.Agent.Registry.Defs.{DomainGraphRegistry}
use atlas_of_us.Agent.Generation.Models.{
  no_statistics, new_context, AgentType, all_agents, order, AgentContext, DomainStatistics,
  SseEvent, Abort, fault, panicked, started, domain_exists, agent_started, agent_completed,
  agent_failed, completed, failed, step_progress, similarity_check, verification_result,
  node_created,
}
use atlas_of_us.Agent.Generation.Orchestrator.{
  agents, check_domain_exists, generate_unless, finish, generate_domain, run_agents, Generation,
  StepRun, Run, Score, failure_events, after_step, count_agent_nodes,
}

-- What an event says of the course of the generation; the events of steps say nothing.
pub data Mark : Type 0 where
  begun refused ended broken : Mark
  agent_begun : AgentType → ℕ → Mark
  agent_done agent_broken : AgentType → Mark

module _ {F : Type 0} where
  abbrev pub mark_of : SseEvent F → List Mark
  mark_of (started _ _) = begun ∷ []
  mark_of (domain_exists _ _) = refused ∷ []
  mark_of (agent_started t n _) = agent_begun t n ∷ []
  mark_of (agent_completed t _ _) = agent_done t ∷ []
  mark_of (agent_failed t _) = agent_broken t ∷ []
  mark_of (completed _ _) = ended ∷ []
  mark_of (failed _ _ _) = broken ∷ []
  mark_of (step_progress _ _) = []
  mark_of (similarity_check _ _ _ _) = []
  mark_of (verification_result _ _ _ _) = []
  mark_of (node_created _ _ _ _) = []

  unfoldable pub marks : List (SseEvent F) → List Mark
  marks [] = []
  marks (e ∷ es) = mark_of e ++ marks es

  pub marks-append : (es fs : List (SseEvent F)) → marks (es ++ fs) ≡ marks es ++ marks fs
  unfolding marks
  marks-append [] fs = refl
  marks-append (e ∷ es) fs =
      ap (λ l. mark_of e ++ l) (marks-append es fs)
      ∙ sym (append_assoc (mark_of e) (marks es) (marks fs))

-- Each of these agents begins, under its number, and is done before the next begins.
unfoldable pub done_marks : List AgentType → List Mark
done_marks [] = []
done_marks (t ∷ ts) = agent_begun t (order t) ∷ agent_done t ∷ done_marks ts

-- The steps send no events on the course of the generation.
abbrev pub StepsReport : Generation → Type 0
StepsReport g =
    (t : AgentType) (context : AgentContext) (w : g.World)
    → marks (g.execute t context w).events ≡ []

-- What a client sees of a failure: an error is reported, a panic is not.
abbrev pub broken_marks : AgentType → Abort → List Mark
broken_marks t (fault e) = agent_broken t ∷ broken ∷ []
broken_marks t panicked = []

-- The course of a generation by its outcome.
pub data Course {A : Type 0} : Result Abort A → List Mark → Type 0 where
  -- The search for a similar domain failed: nothing is sent.
  not_searched : (e : String) → Course (err (fault e)) []
  -- A similar domain exists.
  not_begun : (e : String) → Course (err (fault e)) (refused ∷ [])
  -- The agents of `done` were done, the one after them failed, and none after it began.
  broke :
      (f : Abort) (done : List AgentType) (t : AgentType) (rest : List AgentType)
      → done ++ t ∷ rest ≡ all_agents
      → Course (err f) (begun ∷ (done_marks done ++ agent_begun t (order t) ∷ broken_marks t f))
  -- All agents were done, in their order.
  went : (a : A) → Course (ok a) (begun ∷ (done_marks all_agents ++ ended ∷ []))

-- The same of the loop over the agents.
data Loop {A : Type 0} (ts : List AgentType) : Result Abort A → List Mark → Type 0 where
  loop_broke :
      (f : Abort) (done : List AgentType) (t : AgentType) (rest : List AgentType)
      → done ++ t ∷ rest ≡ ts
      → Loop ts (err f) (done_marks done ++ agent_begun t (order t) ∷ broken_marks t f)
  loop_went : (a : A) → Loop ts (ok a) (done_marks ts)

abbrev Numbered : ℕ → List AgentType → Type 0
Numbered idx [] = Unit
Numbered idx (t ∷ ts) = ((idx + 1) % 2 ^ 8 ≡ order t) × Numbered (suc idx) ts

all_numbered : Numbered 0 agents
unfolding agents order
all_numbered = (refl, (refl, (refl, (refl, (refl, (refl, (refl, tt)))))))

module _ (g : Generation) (report : StepsReport g) where
  failure_events-marks :
      (t : AgentType) (f : Abort) (partial : DomainGraphRegistry)
      → marks (failure_events g t f partial) ≡ broken_marks t f
  unfolding marks
  failure_events-marks t (fault e) partial = refl
  failure_events-marks t panicked partial = refl

  after_step-Loop :
      (t : AgentType) (ts : List AgentType) (run : StepRun (Score g) g.World)
      (rest : Run g (AgentContext × DomainStatistics))
      → marks run.events ≡ []
      → Loop ts rest.0 (marks rest.1)
      → Loop
          (t ∷ ts)
          (after_step g t (order t) run rest).0
          (marks (after_step g t (order t) run rest).1)
  unfolding marks done_marks
  after_step-Loop t ts run (r, events, w) silent loop = go run.outcome refl
    where
      extend :
          (x : Result Abort (AgentContext × DomainStatistics)) (ms : List Mark)
          → Loop ts x ms
          → Loop (t ∷ ts) x (agent_begun t (order t) ∷ agent_done t ∷ ms)
      extend (err f) ms (loop_broke _ done u rest q) =
          loop_broke f (t ∷ done) u rest (ap (λ l. t ∷ l) q)
      extend (ok a) ms (loop_went _) = loop_went a

      go :
          (o : Result Abort (Unit {0}))
          → run.outcome ≡ o
          → Loop
              (t ∷ ts)
              (after_step g t (order t) run (r, events, w)).0
              (marks (after_step g t (order t) run (r, events, w)).1)
      go (ok u) q =
          rw
            (
              q,
              marks-append run.events (
                  agent_completed t (count_agent_nodes t run.context).0
                    (count_agent_nodes t run.context).1
                  ∷ events),
              silent,
            )
            (extend r (marks events) loop)
      go (err f) q =
          rw
            (
              q,
              marks-append run.events (failure_events g t f run.context.domain_graph),
              silent,
              failure_events-marks t f run.context.domain_graph,
            )
            (loop_broke f [] t ts refl)

  run_agents-Loop :
      (idx : ℕ) (ts : List AgentType) (c : AgentContext) (s : DomainStatistics) (w : g.World)
      → Numbered idx ts
      → Loop ts (run_agents g idx ts c s w).0 (marks (run_agents g idx ts c s w).1)
  unfolding run_agents marks done_marks
  run_agents-Loop idx [] c s w n = loop_went (c, s)
  run_agents-Loop idx (t ∷ ts) c s w (n, ns) = rw n (
      after_step-Loop t ts (g.execute t c w) _ (report t c w)
        (run_agents-Loop (suc idx) ts _ _ _ ns))

  finish-Course :
      (name : String) (run : Run g (AgentContext × DomainStatistics))
      → Loop all_agents run.0 (marks run.1)
      → Course (finish g name run).0 (begun ∷ marks (finish g name run).1)
  unfolding marks
  finish-Course name (r, events, w) loop = go r (marks events) refl loop
    where
      go :
          (x : Result Abort (AgentContext × DomainStatistics)) (ms : List Mark)
          → marks events ≡ ms
          → Loop all_agents x ms
          → Course (finish g name (x, events, w)).0 (begun ∷ marks (finish g name (x, events, w)).1)
      go x ms q (loop_broke e done t rest k) = rw q (broke e done t rest k)
      go x ms q (loop_went a) = rw (marks-append events _, q) (went _)

-- Where the steps only send events of their own, the events of a generation fit its outcome: none
-- where the search for a similar domain failed; one where there is such a domain; the start, the
-- agents before the failing one in their order and under their numbers, and, unless that agent
-- panicked, its failure and the failure of the whole; or, exactly where the generation succeeds,
-- the start, all seven agents, and the completion.
pub generate_domain-Course :
    (g : Generation) (name : String) (description : Option String) (w : g.World)
    → StepsReport g
    → Course
        (generate_domain g name description w).0
        (marks (generate_domain g name description w).1)
unfolding generate_domain marks agents all_agents
generate_domain-Course g name description w report =
    go (check_domain_exists g name w).0 (check_domain_exists g name w).1
  where
    go :
        (existing : Result String (Option String)) (w' : g.World)
        → Course
            (generate_unless g name description existing w').0
            (marks (generate_unless g name description existing w').1)
    go (err e) w' = not_searched e
    go (ok (some existing)) w' = not_begun _
    go (ok none) w' = finish-Course g report name _ (
        run_agents-Loop g report 0 agents (new_context name description) no_statistics w'
          all_numbered)
