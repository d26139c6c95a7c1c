-- ===== src/Worker/Decisions/Targets.antt =====
-- Which nodes a decision can name.
use atlas_of_us.Floats.{lt_f64, ge_f64}
use atlas_of_us.Prelude.{
  Bool-cases, String, ◌≡◌, refl, ap, inl, inr, Bool, true, false, Option, none, some, List, [], ◌∷◌,
  ◌==◌, Option-cases, head?, find, In, here, find_sound,
}
use atlas_of_us.Effects.Defs.{Result, ok, err, pure, ◌>>=◌, continue, or_else}
use atlas_of_us.Worker.Services.{Services, Float, Call, VerificationResponse}
use atlas_of_us.Worker.Clients.{LlmService}
use atlas_of_us.Worker.Similarity.{SimilarNodeResult}
use atlas_of_us.Worker.Errors.{ProcessingError}
use atlas_of_us.Worker.Decision.{
  top_score, reuse_top, SimilarityThresholds, decide_concept_action, decision_by, generalize_to,
  reuse_of, ConceptDecision, use_existing, create_new, create_and_generalize, decision_of,
  decide_by, is_named, is_named_by, verify_with_llm,
}

module _ {F : Type 0} where
  -- The id and the name are those of one of the similar nodes.
  abbrev pub Listed : List (SimilarNodeResult F) → String → String → Type 0
  Listed ns id name = (n : SimilarNodeResult F) × (In n ns) × (n.id ≡ id) × (n.name ≡ name)

  -- A decision names a similar node, or none.
  abbrev pub IsGrounded : List (SimilarNodeResult F) → ConceptDecision → Type 0
  IsGrounded ns (use_existing id name) = Listed ns id name
  IsGrounded ns create_new = Unit
  IsGrounded ns (create_and_generalize id name) = Listed ns id name

  head-In :
      (ns : List (SimilarNodeResult F)) {n : SimilarNodeResult F} → head? ns ≡ some n → In n ns
  head-In [] e = cc
  head-In (m ∷ ns) {n} e = let same : m ≡ n = cc in rw same here

  Listed-of :
      (ns : List (SimilarNodeResult F)) (n : SimilarNodeResult F) → In n ns → Listed ns n.id n.name
  Listed-of ns n i = (n, i, refl, refl)

  reuse-IsGrounded :
      (ns : List (SimilarNodeResult F)) (p : SimilarNodeResult F → Bool)
      → IsGrounded ns (reuse_of (or_else (find p ns) (head? ns)))
  reuse-IsGrounded ns p = elim (Option-cases (find p ns)) [
    | inr (n, e) ↦ rw e (Listed-of ns n (find_sound p ns e).0)
    | inl e ↦ rw e (first ns)
  ]
    where
      first : (ms : List (SimilarNodeResult F)) → IsGrounded ms (reuse_of (head? ms))
      first [] = tt
      first (m ∷ ms) = (m, here, refl, refl)

  generalize-IsGrounded :
      (ns : List (SimilarNodeResult F)) (p : SimilarNodeResult F → Bool)
      → IsGrounded ns (generalize_to (find p ns))
  generalize-IsGrounded ns p = elim (Option-cases (find p ns)) [
    | inr (n, e) ↦ rw e (Listed-of ns n (find_sound p ns e).0)
    | inl e ↦ rw e tt
  ]

  decision_of-IsGrounded :
      (v : VerificationResponse) (ns : List (SimilarNodeResult F))
      → IsGrounded ns (decision_of v ns)
  unfolding decision_of
  decision_of-IsGrounded v ns =
      go (v.decision == "use_existing") (v.decision == "create_and_generalize")
        (or_else v.existing_node_name v.suggested_target)
    where
      go : (a b : Bool) (o : Option String) → IsGrounded ns (decision_by v ns a b o)
      go true b o = reuse-IsGrounded ns (is_named_by v.existing_node_name)
      go false true none = tt
      go false true (some t) = generalize-IsGrounded ns (is_named t)
      go false false o = tt

module _ (env : Services) (llm : LlmService) where
  decide_by-IsGrounded :
      (c : String) (ns : List (SimilarNodeResult (Float env))) (d l : String)
      (o : Option ConceptDecision) (low : Bool)
      → ((x : ConceptDecision) → o ≡ some x → IsGrounded ns x)
      → (h : List (Call (Float env))) (x : ConceptDecision)
      → (decide_by env llm c ns d l o low h).0 ≡ ok x
      → IsGrounded ns x
  unfolding ◌>>=◌
  decide_by-IsGrounded c ns d l (some y) low g h x e = let same : y ≡ x = cc in g x (ap some same)
  decide_by-IsGrounded c ns d l none true g h x e = let same : create_new ≡ x = cc in rw (← same) tt
  decide_by-IsGrounded c ns d l none false g h x e =
      go (verify_with_llm env llm c ns d l h).0 (verify_with_llm env llm c ns d l h).1 e
    where
      go :
          (r : Result ProcessingError VerificationResponse) (h' : List (Call (Float env)))
          → (continue r (λ v. pure (decision_of v ns)) h').0 ≡ ok x
          → IsGrounded ns x
      go (ok v) h' q =
          let same : decision_of v ns ≡ x = cc in rw (← same) (decision_of-IsGrounded v ns)
      go (err y) h' q = cc

-- Whatever the language model answers, a decision to reuse a node or to generalize to one names
-- the id and the name of one of the similar nodes that the search returned.
pub decide_concept_action-IsGrounded :
    (env : Services) (llm : LlmService) (concept : String)
    (similar_nodes : List (SimilarNodeResult (Float env)))
    (thresholds : SimilarityThresholds (Float env)) (domain label : String)
    (h : List (Call (Float env))) (d : ConceptDecision)
    → (decide_concept_action env llm concept similar_nodes thresholds domain label h).0 ≡ ok d
    → IsGrounded similar_nodes d
unfolding decide_concept_action
decide_concept_action-IsGrounded env llm c ns t d l h x e =
    decide_by-IsGrounded env llm c ns d l (reuse_top env t (head? ns))
      (lt_f64 env.floats (top_score env (head? ns)) t.auto_create) (top_of ns) h x e
  where
    top_of :
        (ms : List (SimilarNodeResult (Float env))) (y : ConceptDecision)
        → reuse_top env t (head? ms) ≡ some y
        → IsGrounded ms y
    top_of [] y q = cc
    top_of (m ∷ ms) y q = elim (Bool-cases (ge_f64 env.floats m.score t.auto_reuse)) [
      | inl high ↦
          let same : use_existing m.id m.name ≡ y = cc (rw high at q) in
          rw (← same) (m, here, refl, refl)
      | inr low ↦ cc (rw low at q)
    ]
