-- ===== src/Samples/RegistryTests.antt =====
-- The registry's theorems at concrete inputs.
use atlas_of_us.Agent.Registry.Counts.{count_created-count_reused}
use atlas_of_us.Agent.Registry.Dedup.{
  deduplicate-IsDeduplicated, find_by_id-deduplicate, IsDeduplicated,
}
use atlas_of_us.Prelude.{length, ◌+◌, ◌≡◌, refl, some, [], ◌∷◌, filter}
use atlas_of_us.Agent.Registry.Defs.{
  option_nodes, deduplicate, find_by_id, created, reused, DomainGraphRegistry, empty, count_created,
  count_reused,
}

abbrev sample : DomainGraphRegistry
sample = record empty {
  domain = some (created "Chess" "d1" "Domain");
  knowledge =
      created "Tactics" "k1" "Knowledge"
      ∷ reused "Openings" "k2" "Knowledge"
      ∷ reused "Chess Openings" "k2" "Knowledge"
      ∷ [];
}

sample_counts : (count_created sample ≡ 2) × (count_reused sample ≡ 2)
unfolding count_created count_reused filter
sample_counts = (refl, refl)

count_created-count_reused_example :
    count_created sample + count_reused sample
    ≡ length (option_nodes sample.domain)
      + length sample.domain_levels
      + length sample.knowledge
      + length sample.skills
      + length sample.traits
      + length sample.milestones
count_created-count_reused_example = count_created-count_reused sample

deduplicate-IsDeduplicated_example :
    IsDeduplicated (deduplicate sample)
    × (deduplicate (deduplicate sample) ≡ deduplicate sample)
    × ((deduplicate sample).domain ≡ sample.domain)
    × ((deduplicate sample).level_requirements ≡ sample.level_requirements)
    × ((deduplicate sample).generalizations ≡ sample.generalizations)
    × ((deduplicate sample).prerequisites ≡ sample.prerequisites)
deduplicate-IsDeduplicated_example = deduplicate-IsDeduplicated sample

find_by_id-deduplicate_example : find_by_id (deduplicate sample) "k2" ≡ find_by_id sample "k2"
find_by_id-deduplicate_example = find_by_id-deduplicate sample "k2"

deduplicate_drops : count_reused (deduplicate sample) ≡ 1
unfolding count_reused deduplicate filter
deduplicate_drops = refl
