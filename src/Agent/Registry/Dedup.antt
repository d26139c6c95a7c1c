-- ===== src/Agent/Registry/Dedup.antt =====
-- What `deduplicate` keeps and what it drops.
use atlas_of_us.Prelude.{
  find-append_cong, refl, ap, false, ◌==◌, true, String, ◌≡◌, none, List, [], ◌∷◌, arith, find,
  eq_iff, if◌then◌else◌, Bool-cases, inl, inr,
}
use atlas_of_us.Agent.Registry.Defs.{
  option_nodes, deduplicate, find_by_id, CreatedNode, DomainGraphRegistry, has_id, contains,
  retain_unseen,
}

find-retain_unseen :
    (seen : List String) (ns : List CreatedNode) (x : String)
    → find (has_id x) (retain_unseen seen ns)
      ≡ (if contains seen x then none else find (has_id x) ns)
unfolding find retain_unseen
find-retain_unseen seen [] x = ground arith
find-retain_unseen seen (n ∷ ns) x = ground (
  arith,
  eq_iff n.element_id x,
  find-retain_unseen seen ns x,
  find-retain_unseen (n.element_id ∷ seen) ns x,
)

-- No two nodes have one element id.
abbrev pub HasDistinctIds : List CreatedNode → Type 0
HasDistinctIds [] = Unit
HasDistinctIds (n ∷ ns) = (find (has_id n.element_id) ns ≡ none) × HasDistinctIds ns

retain_unseen-HasDistinctIds :
    (seen : List String) (ns : List CreatedNode) → HasDistinctIds (retain_unseen seen ns)
unfolding retain_unseen
retain_unseen-HasDistinctIds seen [] = tt
retain_unseen-HasDistinctIds seen (n ∷ ns) = elim (Bool-cases (contains seen n.element_id)) [
  | inl old ↦ rw old (retain_unseen-HasDistinctIds seen ns)
  | inr new ↦ rw new (
    ground (
      arith,
      find-retain_unseen (n.element_id ∷ seen) ns n.element_id,
      eq_iff n.element_id n.element_id,
    ),
    retain_unseen-HasDistinctIds (n.element_id ∷ seen) ns,
  )
]

pub record IsDeduplicated (r : DomainGraphRegistry) : Type 0 where
  pub domain_levels : HasDistinctIds r.domain_levels
  pub knowledge : HasDistinctIds r.knowledge
  pub skills : HasDistinctIds r.skills
  pub traits : HasDistinctIds r.traits
  pub milestones : HasDistinctIds r.milestones

-- Dropping later duplicates changes no lookup by id.
find-retain_nil :
    (ns : List CreatedNode) (x : String)
    → find (has_id x) (retain_unseen [] ns) ≡ find (has_id x) ns
find-retain_nil ns x = find-retain_unseen [] ns x

-- A list of distinct nodes, none of them seen, is kept whole.
retain_unseen_of_HasDistinctIds :
    (seen : List String) (ns : List CreatedNode)
    → HasDistinctIds ns
    → ((x : String) → contains seen x ≡ true → find (has_id x) ns ≡ none)
    → retain_unseen seen ns ≡ ns
unfolding retain_unseen find
retain_unseen_of_HasDistinctIds seen [] d fresh = refl
retain_unseen_of_HasDistinctIds seen (n ∷ ns) (first, d) fresh =
    let new : contains seen n.element_id ≡ false =
      ground (arith, fresh n.element_id, eq_iff n.element_id n.element_id) in
    rw new (ap (λ l. n ∷ l) (retain_unseen_of_HasDistinctIds (n.element_id ∷ seen) ns d later))
  where
    later : (x : String) → contains (n.element_id ∷ seen) x ≡ true → find (has_id x) ns ≡ none
    later x h = elim (Bool-cases (n.element_id == x)) [
      | inl same ↦ let e : n.element_id ≡ x = (eq_iff n.element_id x).0 same in rw (← e) first
      | inr other ↦ let old : contains seen x ≡ true = rw other at h in rw other at (fresh x old)
    ]

retain_unseen_idem :
    (ns : List CreatedNode) → retain_unseen [] (retain_unseen [] ns) ≡ retain_unseen [] ns
retain_unseen_idem ns =
    retain_unseen_of_HasDistinctIds [] (retain_unseen [] ns) (retain_unseen-HasDistinctIds [] ns)
      (λ x h. cc)

-- `deduplicate` leaves no two nodes of one list with the same element id, whatever it is given;
-- a second call changes nothing; and it leaves the domain node and the three relationship lists
-- as they were.
pub deduplicate-IsDeduplicated :
    (r : DomainGraphRegistry)
    → IsDeduplicated (deduplicate r)
      × (deduplicate (deduplicate r) ≡ deduplicate r)
      × ((deduplicate r).domain ≡ r.domain)
      × ((deduplicate r).level_requirements ≡ r.level_requirements)
      × ((deduplicate r).generalizations ≡ r.generalizations)
      × ((deduplicate r).prerequisites ≡ r.prerequisites)
unfolding deduplicate
deduplicate-IsDeduplicated r = (distinct, simp retain_unseen_idem, refl, refl, refl, refl)
  where
    distinct : IsDeduplicated (deduplicate r)
    distinct = record {
      domain_levels = retain_unseen-HasDistinctIds [] r.domain_levels;
      knowledge = retain_unseen-HasDistinctIds [] r.knowledge;
      skills = retain_unseen-HasDistinctIds [] r.skills;
      traits = retain_unseen-HasDistinctIds [] r.traits;
      milestones = retain_unseen-HasDistinctIds [] r.milestones;
    }

-- Deduplicating changes no lookup by element id: the node that a lookup finds is the first of its
-- id, and that one is kept.
pub find_by_id-deduplicate :
    (r : DomainGraphRegistry) (element_id : String)
    → find_by_id (deduplicate r) element_id ≡ find_by_id r element_id
unfolding find_by_id deduplicate
find_by_id-deduplicate r x =
    find-append_cong (has_id x) (option_nodes r.domain) (option_nodes r.domain) _ _ refl (
      find-append_cong (has_id x) (retain_unseen [] r.domain_levels) r.domain_levels _ _
        (find-retain_nil r.domain_levels x)
        (find-append_cong (has_id x) (retain_unseen [] r.knowledge) r.knowledge _ _
          (find-retain_nil r.knowledge x)
          (find-append_cong (has_id x) (retain_unseen [] r.skills) r.skills _ _
            (find-retain_nil r.skills x)
            (find-append_cong (has_id x) (retain_unseen [] r.traits) r.traits _ _
              (find-retain_nil r.traits x) (find-retain_nil r.milestones x)))))
