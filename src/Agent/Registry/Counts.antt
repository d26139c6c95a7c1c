-- ===== src/Agent/Registry/Counts.antt =====
-- Counting and looking up nodes in the registry.
use atlas_of_us.Prelude.{
  ℕ, ◌+◌, String, ◌≡◌, Bool, some, List, ◌++◌, arith, eq_iff, length, filter, In, length-append,
  length-filter-not, filter-append, find_sound,
}
use atlas_of_us.Agent.Registry.Defs.{
  CreatedNode, DomainGraphRegistry, has_id, is_reused, option_nodes, all_nodes, count_created,
  count_reused, find_by_id,
}

module _ (p : CreatedNode → Bool) where
  count : List CreatedNode → ℕ
  count ns = length (filter p ns)

  count-append : (xs ys : List CreatedNode) → count (xs ++ ys) ≡ count xs + count ys
  unfolding count
  count-append xs ys = rw filter-append (length-append (filter p xs) (filter p ys))

-- A node that a lookup by id finds is in the registry and has that id.
pub find_by_id_sound :
    (r : DomainGraphRegistry) (element_id : String) {n : CreatedNode}
    → find_by_id r element_id ≡ some n
    → In n (all_nodes r) × (n.element_id ≡ element_id)
unfolding find_by_id
find_by_id_sound r x {n} e =
    let (m, q) = find_sound (has_id x) (all_nodes r) e in (m, (eq_iff n.element_id x).0 q)

-- The reused nodes are those of the six places that hold nodes, so a reused node is counted once
-- for each list that it stands in.
pub count_reused_parts :
    (r : DomainGraphRegistry)
    → count_reused r
      ≡ length (filter is_reused (option_nodes r.domain))
        + length (filter is_reused r.domain_levels)
        + length (filter is_reused r.knowledge)
        + length (filter is_reused r.skills)
        + length (filter is_reused r.traits)
        + length (filter is_reused r.milestones)
unfolding count_reused count
count_reused_parts r = omega (
  arith,
  count-append is_reused (option_nodes r.domain)
      (r.domain_levels ++ (r.knowledge ++ (r.skills ++ (r.traits ++ r.milestones)))),
  count-append is_reused r.domain_levels (r.knowledge ++ (r.skills ++ (r.traits ++ r.milestones))),
  count-append is_reused r.knowledge (r.skills ++ (r.traits ++ r.milestones)),
  count-append is_reused r.skills (r.traits ++ r.milestones),
  count-append is_reused r.traits r.milestones,
)

-- The created and the reused nodes are together the domain, the levels, the knowledge, the skills,
-- the traits and the milestones of the registry, each counted once for each place where it stands.
pub count_created-count_reused :
    (r : DomainGraphRegistry)
    → count_created r + count_reused r
      ≡ length (option_nodes r.domain)
        + length r.domain_levels
        + length r.knowledge
        + length r.skills
        + length r.traits
        + length r.milestones
unfolding count_created count_reused
count_created-count_reused r = omega (
  arith,
  length-filter-not is_reused (all_nodes r),
  length-append (option_nodes r.domain)
      (r.domain_levels ++ (r.knowledge ++ (r.skills ++ (r.traits ++ r.milestones)))),
  length-append r.domain_levels (r.knowledge ++ (r.skills ++ (r.traits ++ r.milestones))),
  length-append r.knowledge (r.skills ++ (r.traits ++ r.milestones)),
  length-append r.skills (r.traits ++ r.milestones),
  length-append r.traits r.milestones,
)
