-- ===== src/Agent/Steps/Placement.antt =====
-- Where the level distributor places a component among the levels that the architect created.
use Prim.Native.String
use mathlib.Core.Path.{subst}
use atlas_of_us.Graph.Models.{ℤ, pos, negsuc}
use Prim.Native.Char.{Char}
use atlas_of_us.Agent.Registry.Defs.{created, CreatedNode}
use atlas_of_us.Agent.Steps.Architect.{get_level_structure, LevelInfo}
use atlas_of_us.Agent.Steps.Assignment.{find_level, level_word, has_word, contains_chars}
use atlas_of_us.Text.{starts_with, format, chars, strip_prefix}
use atlas_of_us.Prelude.{
  ℕ, zero, suc, ◌≤◌, ◌<◌, String, ◌≡◌, refl, ap, ◌∙◌, Bool, true, false, some, List, [], ◌∷◌, ◌++◌,
  arith, get_elem?, find,
}

chars-append : (s t : String) → chars (String.◌++◌ s t) ≡ chars s ++ chars t
chars-append String.[] t = ap chars (String.append.nil t)
chars-append (String.◌∷◌ c s) t =
    ap chars (String.append.cons c s t) ∙ ap (λ l. c ∷ l) (chars-append s t)

strip_prefix-append : (ps cs : List Char) → strip_prefix ps (ps ++ cs) ≡ some cs
unfolding strip_prefix
strip_prefix-append [] cs = refl
strip_prefix-append (p ∷ ps) cs = ground (arith, strip_prefix-append ps cs)

contains_chars-starts_with :
    (ps cs : List Char) → starts_with ps cs ≡ true → contains_chars ps cs ≡ true
unfolding contains_chars
contains_chars-starts_with ps [] e = e
contains_chars-starts_with ps (c ∷ cs) e = rw e

contains_chars-append : (ps xs ys : List Char) → contains_chars ps (xs ++ (ps ++ ys)) ≡ true
unfolding contains_chars
contains_chars-append ps [] ys =
    contains_chars-starts_with ps (ps ++ ys)
      (unfold starts_with in (rw (strip_prefix-append ps ys)))
contains_chars-append ps (x ∷ xs) ys = ground (arith, contains_chars-append ps xs ys)

-- The nodes of the levels of a domain, with their ids by number.
abbrev pub level_node : (ℕ → String) → LevelInfo → CreatedNode
level_node ids info = created info.name (ids info.level) "Domain_Level"

abbrev pub level_nodes : (ℕ → String) → List LevelInfo → List CreatedNode
level_nodes ids [] = []
level_nodes ids (info ∷ infos) = level_node ids info ∷ level_nodes ids infos

-- The word of a level is in its own name.
own_word :
    (ids : ℕ → String) (domain word : String) (info : LevelInfo)
    → info.name ≡ format (domain ∷ format (" " ∷ word ∷ []) ∷ [])
    → has_word word (level_node ids info) ≡ true
own_word ids domain word info e =
    ap (λ s. contains_chars (chars (format (" " ∷ word ∷ []))) (chars s)) e
    ∙ ap (contains_chars (chars (format (" " ∷ word ∷ [])))) (
        chars-append domain (format (format (" " ∷ word ∷ []) ∷ []))
        ∙ ap (λ l. chars domain ++ l) (chars-append (format (" " ∷ word ∷ [])) ""))
    ∙ contains_chars-append (chars (format (" " ∷ word ∷ []))) (chars domain) []

find-level_nodes :
    (p : CreatedNode → Bool) (ids : ℕ → String) (infos : List LevelInfo) (i : ℕ) (info : LevelInfo)
    → get_elem? infos i ≡ some info
    → p (level_node ids info) ≡ true
    → ((j : ℕ) (earlier : LevelInfo)
        → j < i
        → get_elem? infos j ≡ some earlier
        → p (level_node ids earlier) ≡ false)
    → find p (level_nodes ids infos) ≡ some (level_node ids info)
unfolding find
find-level_nodes p ids [] i info e hit misses = cc
find-level_nodes p ids (x ∷ xs) zero info e hit misses = let same : x ≡ info = cc in rw (same, hit)
find-level_nodes p ids (x ∷ xs) (suc i) info e hit misses = rw (misses 0 x (omega arith) refl) (
    find-level_nodes p ids xs i info e hit
      (λ j earlier lt q. misses (suc j) earlier (omega (arith, lt)) q))

pub some-injective {ℓ} : {A : Type ℓ} (a b : A) → some a ≡ some b → a ≡ b
some-injective a b e = cc

-- The name of each level of a domain has the word of its number.
abbrev HasOwnWord : (ℕ → String) → LevelInfo → Type 0
HasOwnWord ids info = has_word (level_word (pos info.level)) (level_node ids info) ≡ true

named-HasOwnWord :
    (ids : ℕ → String) (domain word : String) (made info : LevelInfo)
    → some made ≡ some info
    → level_word (pos made.level) ≡ word
    → made.name ≡ format (domain ∷ format (" " ∷ word ∷ []) ∷ [])
    → HasOwnWord ids info
named-HasOwnWord ids domain word made info e w n =
    subst (HasOwnWord ids) (some-injective made info e) (rw w (own_word ids domain word made n))

get_level_structure-HasOwnWord :
    (ids : ℕ → String) (domain : String) (i : ℕ) (info : LevelInfo)
    → get_elem? (get_level_structure domain) i ≡ some info
    → HasOwnWord ids info
unfolding get_level_structure level_word
get_level_structure-HasOwnWord ids domain zero info e =
    named-HasOwnWord ids domain "Novice" _ info e refl refl
get_level_structure-HasOwnWord ids domain (suc zero) info e =
    named-HasOwnWord ids domain "Developing" _ info e refl refl
get_level_structure-HasOwnWord ids domain (suc (suc zero)) info e =
    named-HasOwnWord ids domain "Competent" _ info e refl refl
get_level_structure-HasOwnWord ids domain (suc (suc (suc zero))) info e =
    named-HasOwnWord ids domain "Advanced" _ info e refl refl
get_level_structure-HasOwnWord ids domain (suc (suc (suc (suc zero)))) info e =
    named-HasOwnWord ids domain "Master" _ info e refl refl
get_level_structure-HasOwnWord ids domain (suc (suc (suc (suc (suc i))))) info e = cc

-- Among the levels that the architect creates for a domain, a component assigned to the number of a
-- level is placed at that level, if no level before it has the later one's word in its name, as it
-- has where the name of the domain has that word after a space.
pub find_level-get_level_structure :
    (ids : ℕ → String) (domain : String) (i : ℕ) (info : LevelInfo)
    → get_elem? (get_level_structure domain) i ≡ some info
    → ((j : ℕ) (earlier : LevelInfo)
        → j < i
        → get_elem? (get_level_structure domain) j ≡ some earlier
        → has_word (level_word (pos info.level)) (level_node ids earlier) ≡ false)
    → find_level (level_nodes ids (get_level_structure domain)) (pos info.level)
      ≡ some (level_node ids info)
unfolding find_level
find_level-get_level_structure ids domain i info e misses = rw (
    find-level_nodes (has_word (level_word (pos info.level))) ids (get_level_structure domain) i
      info e (get_level_structure-HasOwnWord ids domain i info e) misses)

-- The numbers that the prompt offers.
abbrev pub IsLevel : ℤ → Type 0
IsLevel (pos n) = (1 ≤ n) × (n ≤ 5)
IsLevel (negsuc n) = ⊥

level_word-none : (z : ℤ) → ¬ IsLevel z → level_word z ≡ ""
unfolding level_word
level_word-none (negsuc n) out = refl
level_word-none (pos n) out = ground (arith, out)

-- A component assigned to any number that is no level is placed at the first level of the domain,
-- the one for novices.
pub find_level-out_of_range :
    (ids : ℕ → String) (domain : String) (level : ℤ)
    → ¬ IsLevel level
    → find_level (level_nodes ids (get_level_structure domain)) level
      ≡ some (created (format (domain ∷ " Novice" ∷ [])) (ids 1) "Domain_Level")
unfolding find_level find get_level_structure
find_level-out_of_range ids domain level out = rw (
  level_word-none level out,
  ap (contains_chars (chars " ")) (chars-append domain (format (" Novice" ∷ [])))
      ∙ contains_chars-append (chars " ") (chars domain) (chars "Novice"),
)
