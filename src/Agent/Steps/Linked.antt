-- ===== src/Agent/Steps/Linked.antt =====
-- When the generators of knowledge and skills can link a concept to its target.
use atlas_of_us.Effects.Counting.{bind-ok}
use atlas_of_us.Text.{format}
use atlas_of_us.Agent.Generation.Models.{fault}
use atlas_of_us.Agent.Steps.Creation.{
  has_created_name, link_concept, target_name_of, target_of,
  pass7_create_generalization_relationships,
}
use atlas_of_us.Effects.Defs.{ok_or, ok, lift}
use atlas_of_us.Agent.Registry.Defs.{CreatedNode}
use atlas_of_us.Agent.Steps.Kinds.{GeneratorKind}
use atlas_of_us.Agent.Steps.Environment.{State, StepEnvironment}
use atlas_of_us.Agent.Concepts.{
  ConceptAction, VerifiedConcept, create_new_node, use_node, generalize_node,
}
use atlas_of_us.Prelude.{
  String, ◌≡◌, refl, true, Option, none, some, List, [], ◌∷◌, ◌==◌, find, In, here, there,
  find_sound,
}

module _ (env : StepEnvironment) (k : GeneratorKind env) where
  -- The node of a concept to generalize is there under the concept's own name.
  abbrev pub IsNamed : List CreatedNode → VerifiedConcept → Type 0
  IsNamed nodes c = (n : CreatedNode) × In n nodes × (n.name == c.name ≡ true)

  link_concept-IsNamed :
      (c : VerifiedConcept) (a : ConceptAction) (nodes : List CreatedNode) (s : State env)
      (target : String)
      → target_of a ≡ some target
      → (link_concept env k a c.name nodes s).0 ≡ ok tt
      → IsNamed nodes c
  unfolding lift
  link_concept-IsNamed c create_new_node nodes s target q e = cc
  link_concept-IsNamed c (use_node _) nodes s target q e = cc
  link_concept-IsNamed c (generalize_node id name flag) nodes s target q e =
      let (n, _, found, _, _, _) = bind-ok _ _ s tt e in
      go (find (has_created_name c.name) nodes) refl n found
    where
      go :
          (o : Option CreatedNode)
          → find (has_created_name c.name) nodes ≡ o
          → (n : CreatedNode)
          → (lift {S = State env} (ok_or o (fault (format ("Node not found: " ∷ c.name ∷ [])))) s).0
            ≡ ok n
          → IsNamed nodes c
      go (some m) f n r = let (stands, hit) = find_sound _ nodes f in (m, stands, hit)
      go none f n r = cc

  -- Pass 7 returns only where every concept to be generalized has a node of exactly its own name
  -- among those that it is given, whose names come from the properties of pass 5.
  pub pass7-IsNamed :
      (verified : List VerifiedConcept) (nodes : List CreatedNode) (s : State env)
      → (pass7_create_generalization_relationships env k verified nodes s).0 ≡ ok tt
      → (c : VerifiedConcept) (target : String) → In c verified
      → target_name_of c ≡ some target
      → IsNamed nodes c
  unfolding pass7_create_generalization_relationships
  pass7-IsNamed [] nodes s e c target m q = elim m [ ]
  pass7-IsNamed (d ∷ ds) nodes s e c target here q =
      let (u, _, first, _, _, _) = bind-ok _ _ s tt e in
      link_concept-IsNamed d d.action nodes s target q first
  pass7-IsNamed (d ∷ ds) nodes s e c target (there m) q =
      let (_, s1, _, _, rest, _) = bind-ok _ _ s tt e in pass7-IsNamed ds nodes s1 rest c target m q
