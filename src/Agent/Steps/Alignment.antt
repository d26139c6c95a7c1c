-- ===== src/Agent/Steps/Alignment.antt =====
-- The nodes of passes 5 and 6 of the generators of knowledge and skills belong to their concepts.
use atlas_of_us.Agent.Steps.Batches.{run_batch-length}
use atlas_of_us.Graph.Requests.{CreateNodeResult}
use mathlib.Core.Path.{subst}
use atlas_of_us.Agent.Steps.Creation.{
  is_new, generate_one, create_for, generate_all, pass5_generate_properties, pass6_create_nodes,
  create_next, needs_node,
}
use atlas_of_us.Agent.Registry.Defs.{created, reused, CreatedNode}
use atlas_of_us.Agent.Steps.Kinds.{GeneratorKind}
use atlas_of_us.Agent.Generation.Models.{AgentContext, Abort}
use atlas_of_us.Effects.Counting.{pure-ok}
use atlas_of_us.Effects.Defs.{continue, ◌>>=◌, pure, err, ok, Result}
use atlas_of_us.Agent.Steps.Environment.{make_node, State, Step, StepEnvironment}
use atlas_of_us.Agent.Concepts.{
  create_new_node, generalize_node, ConceptAction, VerifiedConcept, use_node,
}
use atlas_of_us.Prelude.{
  suc, String, ◌≡◌, refl, sym, ap, ◌∙◌, Bool, true, List, [], ◌∷◌, arith, if◌then◌else◌, length,
  filter, In, here, there,
}

module _ (env : StepEnvironment) (k : GeneratorKind env) where
  -- The nodes of the concepts in their order, from a first state to a last: a concept to be reused
  -- has a node under its name with the id that was decided; for every other a node is asked for,
  -- with the next properties, and its node has their name and the id of the answer.
  pub data Produces
      : List VerifiedConcept
        → List k.Properties
        → State env
        → List CreatedNode
        → State env
        → Type 0 where
    all_made : (s : State env) → Produces [] [] s [] s
    kept :
        (c : VerifiedConcept) (id : String) {cs : List VerifiedConcept} {ps : List k.Properties}
        {ns : List CreatedNode} {s s' : State env}
        → c.action ≡ use_node id
        → Produces cs ps s ns s'
        → Produces (c ∷ cs) ps s (reused c.name id k.label ∷ ns) s'
    made :
        (c : VerifiedConcept) (p : k.Properties) (result : CreateNodeResult)
        {cs : List VerifiedConcept} {ps : List k.Properties} {ns : List CreatedNode}
        {s s1 s' : State env}
        → needs_node c ≡ true
        → make_node env k.label (k.node_properties p) s ≡ (ok result, s1)
        → Produces cs ps s1 ns s'
        → Produces (c ∷ cs) (p ∷ ps) s (created (k.name_of p) result.element_id k.label ∷ ns) s'

  -- The outcome of pass 6: all nodes, or the failure of a request for a node with some of the
  -- properties.
  pub data Creation (cs : List VerifiedConcept) (ps : List k.Properties) (s : State env)
      : Result Abort (List CreatedNode) → State env → Type 0 where
    complete :
        (ns : List CreatedNode) (s' : State env)
        → Produces cs ps s ns s'
        → Creation cs ps s (ok ns) s'
    refused :
        (f : Abort) (p : k.Properties) (s1 s' : State env)
        → In p ps
        → make_node env k.label (k.node_properties p) s1 ≡ (err f, s')
        → Creation cs ps s (err f) s'

  abbrev Ends :
      List VerifiedConcept
      → List k.Properties
      → State env
      → Result Abort (List CreatedNode) × State env
      → Type 0
  Ends cs ps s run = Creation cs ps s run.0 run.1

  pass6-keep :
      (c : VerifiedConcept) (id : String) (cs : List VerifiedConcept) (ps : List k.Properties)
      (rest : Step env (List CreatedNode)) (s : State env)
      → c.action ≡ use_node id
      → Ends cs ps s (rest s)
      → Ends (c ∷ cs) ps s ((rest >>= λ ns. pure (reused c.name id k.label ∷ ns)) s)
  unfolding ◌>>=◌ pure
  pass6-keep c id cs ps rest s q made_rest = go (rest s).0 (rest s).1 made_rest
    where
      go :
          (r : Result Abort (List CreatedNode)) (s' : State env)
          → Creation cs ps s r s'
          → Ends (c ∷ cs) ps s (continue r (λ ns. pure (reused c.name id k.label ∷ ns)) s')
      go (ok _) _ (complete ns s' done) = complete _ s' (kept c id q done)
      go (err _) _ (refused f p s1 s' given failed) = refused f p s1 s' given failed

  -- What follows a node that was made.
  pass6-made :
      (c : VerifiedConcept) (p : k.Properties) (result : CreateNodeResult)
      (cs : List VerifiedConcept) (ps : List k.Properties) (rest : Step env (List CreatedNode))
      (s s1 : State env)
      → needs_node c ≡ true
      → make_node env k.label (k.node_properties p) s ≡ (ok result, s1)
      → Ends cs ps s1 (rest s1)
      → Ends
          (c ∷ cs)
          (p ∷ ps)
          s
          ((rest >>= λ ns. pure (created (k.name_of p) result.element_id k.label ∷ ns)) s1)
  unfolding ◌>>=◌ pure
  pass6-made c p result cs ps rest s s1 q ran later = go (rest s1).0 (rest s1).1 later
    where
      go :
          (r : Result Abort (List CreatedNode)) (s' : State env)
          → Creation cs ps s1 r s'
          → Ends
              (c ∷ cs)
              (p ∷ ps)
              s
              (continue r (λ ns. pure (created (k.name_of p) result.element_id k.label ∷ ns)) s')
      go (ok _) _ (complete ns s' produced) = complete _ s' (made c p result q ran produced)
      go (err _) _ (refused f p' s2 s' given failed) = refused f p' s2 s' (there given) failed

  pass6-next :
      (c : VerifiedConcept) (cs : List VerifiedConcept) (ps : List k.Properties)
      (rest : List k.Properties → Step env (List CreatedNode)) (s : State env)
      → needs_node c ≡ true
      → length ps ≡ suc (length (filter needs_node cs))
      → ((ps' : List k.Properties) (s' : State env)
          → length ps' ≡ length (filter needs_node cs)
          → Ends cs ps' s' (rest ps' s'))
      → Ends (c ∷ cs) ps s (create_next env k ps rest s)
  pass6-next c cs [] rest s q n later = absurd (omega arith)
  pass6-next c cs (p ∷ ps) rest s q n later =
      let asked = make_node env k.label (k.node_properties p) s in
      unfold ◌>>=◌ in go asked.0 asked.1 refl
    where
      go :
          (r : Result Abort CreateNodeResult) (s1 : State env)
          → make_node env k.label (k.node_properties p) s ≡ (r, s1)
          → Ends (c ∷ cs) (p ∷ ps) s (
              continue r
                (λ result.
                  rest ps >>= λ ns. pure (created (k.name_of p) result.element_id k.label ∷ ns))
                s1)
      go (ok result) s1 ran =
          pass6-made c p result cs ps (rest ps) s s1 q ran (later ps s1 (omega arith))
      go (err f) s1 ran = refused f p s s1 here ran

  abbrev Made :
      VerifiedConcept
      → List VerifiedConcept
      → List k.Properties
      → State env
      → ConceptAction
      → Type 0
  Made c cs ps s a =
      Ends (c ∷ cs) ps s (create_for env k a c.name ps (pass6_create_nodes env k cs) s)

  -- How many concepts need nodes, where the first does or does not.
  counted :
      (c : VerifiedConcept) (cs : List VerifiedConcept) {b : Bool}
      → needs_node c ≡ b
      → length (filter needs_node (c ∷ cs))
        ≡ (if b then suc (length (filter needs_node cs)) else length (filter needs_node cs))
  unfolding filter
  counted c cs e = ground (arith, e)

  pass6-Creation :
      (cs : List VerifiedConcept) (ps : List k.Properties) (s : State env)
      → length ps ≡ length (filter needs_node cs)
      → Ends cs ps s (pass6_create_nodes env k cs ps s)
  unfolding pass6_create_nodes filter pure
  pass6-Creation [] [] s n = complete [] s (all_made s)
  pass6-Creation [] (p ∷ ps) s n = absurd (omega arith)
  pass6-Creation (c ∷ cs) ps s n = go c.action refl n (λ ps' s' n'. pass6-Creation cs ps' s' n')
    where
      go :
          (a : ConceptAction)
          → c.action ≡ a
          → length ps ≡ length (filter needs_node (c ∷ cs))
          → ((ps' : List k.Properties) (s' : State env)
              → length ps' ≡ length (filter needs_node cs)
              → Ends cs ps' s' (pass6_create_nodes env k cs ps' s'))
          → Made c cs ps s c.action
      go (use_node id) q h later =
          subst (Made c cs ps s) (sym q)
            (pass6-keep c id cs ps _ s q (later ps s (h ∙ counted c cs (ap is_new q))))
      go create_new_node q h later =
          subst (Made c cs ps s) (sym q)
            (pass6-next c cs ps _ s (ap is_new q) (h ∙ counted c cs (ap is_new q)) later)
      go (generalize_node id name flag) q h later =
          subst (Made c cs ps s) (sym q)
            (pass6-next c cs ps _ s (ap is_new q) (h ∙ counted c cs (ap is_new q)) later)

  -- Where pass 5 returned the properties for some concepts, pass 6 never runs out of them, at any
  -- later time: it returns one node for each concept, in their order, or it fails with the failure
  -- of a request for a node with some of these properties. A concept to be reused has a node under
  -- its own name with the id that was decided, and no request is made for it. For every other a
  -- node is requested with the next properties, and its node has the name that these give and the
  -- id that was answered.
  pub pass6_create_nodes-pass5 :
      (context : AgentContext) (cs : List VerifiedConcept) (ps : List k.Properties)
      (s s' : State env)
      → (pass5_generate_properties env k context cs s).0 ≡ ok ps
      → Creation cs ps s'
          (pass6_create_nodes env k cs ps s').0
          (pass6_create_nodes env k cs ps s').1
  pass6_create_nodes-pass5 context cs ps s s' e =
      pass6-Creation cs ps s'
        (pass5-length (filter needs_node cs) (unfold pass5_generate_properties in e))
    where
      pass5-length :
          (ds : List VerifiedConcept)
          → (generate_all env k context ds s).0 ≡ ok ps
          → length ps ≡ length ds
      pass5-length [] q =
          let same : [] ≡ ps = pure-ok {S = State env} {E = Abort} [] ps s q in rw (← same)
      pass5-length (d ∷ ds) q = run_batch-length env (generate_one env k context) (d ∷ ds) s ps q
