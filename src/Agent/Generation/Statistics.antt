-- ===== src/Agent/Generation/Statistics.antt =====
-- The statistics of a domain generation.
use atlas_of_us.Prelude.{
  none, some, Option, ℕ, suc, ◌<◌, String, ◌≡◌, refl, sym, ap, ◌∙◌, List, [], ◌∷◌, arith, length,
  filter,
}
use atlas_of_us.Effects.Defs.{unwrap_or, Result, ok, err}
use atlas_of_us.Agent.Registry.Defs.{count_reused, CreatedNode, DomainGraphRegistry, is_created}
use atlas_of_us.Agent.Generation.Models.{
  no_statistics, new_context, DomainGenerationResult, AgentType, domain_architect,
  knowledge_generator, skill_generator, trait_generator, milestone_generator, level_distributor,
  prerequisite_mapper, order, Abort, AgentContext, DomainStatistics,
}
use atlas_of_us.Agent.Generation.Orchestrator.{
  agents, check_domain_exists, finish, generate_unless, generate_domain, Generation, StepRun, Run,
  Score, after_step, run_agents, update_stats,
}

-- The nodes that an agent adds to.
abbrev pub nodes_of : AgentType → DomainGraphRegistry → List CreatedNode
nodes_of domain_architect r = r.domain_levels
nodes_of knowledge_generator r = r.knowledge
nodes_of skill_generator r = r.skills
nodes_of trait_generator r = r.traits
nodes_of milestone_generator r = r.milestones
nodes_of level_distributor r = []
nodes_of prerequisite_mapper r = []

-- No step writes the nodes of an agent before it.
abbrev pub LaterAgentsKeep : Generation → Type 0
LaterAgentsKeep g =
    (u t : AgentType) (context : AgentContext) (w : g.World)
    → order u < order t
    → nodes_of u (g.execute t context w).context.domain_graph ≡ nodes_of u context.domain_graph

-- The statistics count the nodes of the registry.
pub record Counts (r : DomainGraphRegistry) (s : DomainStatistics) : Type 0 where
  pub levels : s.domain_levels_created ≡ length r.domain_levels
  pub knowledge : s.knowledge_created ≡ length (filter is_created r.knowledge)
  pub skills : s.skills_created ≡ length (filter is_created r.skills)
  pub traits : s.traits_created ≡ length (filter is_created r.traits)
  pub milestones : s.milestones_created ≡ length (filter is_created r.milestones)

module _ (g : Generation) where
  abbrev Ended : Type 0
  Ended = AgentContext × DomainStatistics

  after_step-ok :
      (t : AgentType) (n : ℕ) (run : StepRun (Score g) g.World) (rest : Run g Ended) (x : Ended)
      → (after_step g t n run rest).0 ≡ ok x
      → rest.0 ≡ ok x
  after_step-ok t n run rest x e = go run.outcome refl
    where
      go : (o : Result Abort (Unit {0})) → run.outcome ≡ o → rest.0 ≡ ok x
      go (ok u) q = rw q at e
      go (err y) q = cc (rw q at e)

  next-ok :
      (idx : ℕ) (t : AgentType) (ts : List AgentType) (c : AgentContext) (s : DomainStatistics)
      (w : g.World) (x : Ended)
      → (run_agents g idx (t ∷ ts) c s w).0 ≡ ok x
      → (run_agents g
          (suc idx)
          ts
          (g.execute t c w).context
          (update_stats s t (g.execute t c w).context)
          (g.execute t c w).world).0
        ≡ ok x
  unfolding run_agents
  next-ok idx t ts c s w x e = after_step-ok t _ (g.execute t c w) _ x e

  abbrev Above : AgentType → List AgentType → Type 0
  Above u [] = Unit
  Above u (t ∷ ts) = (order u < order t) × Above u ts

  kept :
      LaterAgentsKeep g
      → (u : AgentType) (idx : ℕ) (ts : List AgentType) (c : AgentContext) (s : DomainStatistics)
        (w : g.World) (x : Ended)
      → Above u ts
      → (run_agents g idx ts c s w).0 ≡ ok x
      → nodes_of u c.domain_graph ≡ nodes_of u x.0.domain_graph
  unfolding run_agents
  kept keep u idx [] c s w x a e =
      let same : (c, s) ≡ x = cc in ap (λ y. nodes_of u y.0.domain_graph) same
  kept keep u idx (t ∷ ts) c s w x (a, above) e =
      sym (keep u t c w a) ∙ kept keep u (suc idx) ts _ _ _ x above (next-ok idx t ts c s w x e)

  last-ok :
      (idx : ℕ) (c : AgentContext) (s : DomainStatistics) (w : g.World) (x : Ended)
      → (run_agents g idx [] c s w).0 ≡ ok x
      → s ≡ x.1
  unfolding run_agents
  last-ok idx c s w x e = let same : (c, s) ≡ x = cc in ap (λ y. y.1) same

  run_agents-Counts :
      LaterAgentsKeep g
      → (c : AgentContext) (s : DomainStatistics) (w : g.World) (x : Ended)
      → (run_agents g 0 agents c s w).0 ≡ ok x
      → Counts x.0.domain_graph x.1
  unfolding agents update_stats order
  run_agents-Counts keep c s w x e =
      let e1 = next-ok _ _ _ _ _ _ x e in
      let e2 = next-ok _ _ _ _ _ _ x e1 in
      let e3 = next-ok _ _ _ _ _ _ x e2 in
      let e4 = next-ok _ _ _ _ _ _ x e3 in
      let e5 = next-ok _ _ _ _ _ _ x e4 in
      let e6 = next-ok _ _ _ _ _ _ x e5 in
      let e7 = next-ok _ _ _ _ _ _ x e6 in
      let same = sym (last-ok _ _ _ _ x e7) in
      record {
        levels =
            ap (λ t. t.domain_levels_created) same
            ∙ ap length (
                kept keep domain_architect _ _ _ _ _ x
                  (
                    omega arith,
                    (omega arith, (omega arith, (omega arith, (omega arith, (omega arith, tt))))),
                  )
                  e1);
        knowledge =
            ap (λ t. t.knowledge_created) same
            ∙ ap (λ ns. length (filter is_created ns))
                (kept keep knowledge_generator _ _ _ _ _ x
                  (omega arith, (omega arith, (omega arith, (omega arith, (omega arith, tt))))) e2);
        skills =
            ap (λ t. t.skills_created) same
            ∙ ap (λ ns. length (filter is_created ns))
                (kept keep skill_generator _ _ _ _ _ x
                  (omega arith, (omega arith, (omega arith, (omega arith, tt)))) e3);
        traits =
            ap (λ t. t.traits_created) same
            ∙ ap (λ ns. length (filter is_created ns))
                (kept keep trait_generator _ _ _ _ _ x
                  (omega arith, (omega arith, (omega arith, tt))) e4);
        milestones =
            ap (λ t. t.milestones_created) same
            ∙ ap (λ ns. length (filter is_created ns))
                (kept keep milestone_generator _ _ _ _ _ x (omega arith, (omega arith, tt)) e5);
      }

  -- The statistics count the nodes of the registry, and those reused.
  abbrev pub IsCounted : DomainGenerationResult → Type 0
  IsCounted r =
      Counts r.domain_graph r.statistics × (r.statistics.nodes_reused ≡ count_reused r.domain_graph)

  finish-IsCounted :
      (name : String) (run : Run g Ended) (r : DomainGenerationResult)
      → ((x : Ended) → run.0 ≡ ok x → Counts x.0.domain_graph x.1)
      → (finish g name run).0 ≡ ok r
      → IsCounted r
  finish-IsCounted name (err y, events, w) r counted e = cc
  finish-IsCounted name (ok (c, s), events, w) r counted e =
      let final : DomainGenerationResult = record {
        domain_name = name;
        domain_element_id = unwrap_or c.domain_element_id "";
        domain_graph = c.domain_graph;
        statistics = record s {
          generation_time_ms = g.elapsed w;
          nodes_reused = count_reused c.domain_graph;
        };
      } in
      let same : final ≡ r = cc in
      let k = counted (c, s) refl in
      rw (← same) (
        record {
          levels = k.levels;
          knowledge = k.knowledge;
          skills = k.skills;
          traits = k.traits;
          milestones = k.milestones;
        },
        refl,
      )

  generate_unless-IsCounted :
      LaterAgentsKeep g
      → (name : String) (description : Option String) (existing : Result String (Option String))
        (w : g.World) (r : DomainGenerationResult)
      → (generate_unless g name description existing w).0 ≡ ok r
      → IsCounted r
  generate_unless-IsCounted keep name description (err y) w r e = cc
  generate_unless-IsCounted keep name description (ok (some existing)) w r e = cc
  generate_unless-IsCounted keep name description (ok none) w r e =
      finish-IsCounted name (run_agents g 0 agents (new_context name description) no_statistics w) r
        (λ x q. run_agents-Counts keep _ _ _ x q) e

-- Where no step writes the nodes of an agent before it, a generation that succeeds reports in its
-- statistics the number of levels, of created nodes of each kind, and of reused nodes in the
-- registry that it returns.
pub generate_domain-IsCounted :
    (g : Generation) (name : String) (description : Option String) (w : g.World)
    (r : DomainGenerationResult)
    → LaterAgentsKeep g
    → (generate_domain g name description w).0 ≡ ok r
    → IsCounted g r
unfolding generate_domain
generate_domain-IsCounted g name description w r keep e =
    generate_unless-IsCounted g keep name description (check_domain_exists g name w).0
      (check_domain_exists g name w).1 r e
