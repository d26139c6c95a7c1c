-- ===== src/Text.antt =====
-- `str` operations of Rust that the program uses, on texts as lists of characters.

use atlas_of_us.Prelude.{
  ℕ, zero, suc, String, Bool, true, false, ◌&&◌, ◌||◌, Option, none, some, List, [], ◌∷◌, leb,
  ◌==ₙ◌, ltb, ◌%◌, get_elem?, if◌then◌else◌, length,
}
use Prim.Native.Nat.{◌/◌}
use Prim.Native.Char.{Char, code}
use Prim.Native.String
use mathlib.Core.List.{reverse}

-- `format!`, as the concatenation of its pieces.
abbrev pub format : List String → String
format [] = ""
format (s ∷ ss) = String.◌++◌ s (format ss)

-- A raw text of several lines.
abbrev pub lines : List String → String
lines [] = ""
lines (s ∷ []) = s
lines (s ∷ ss) = String.◌++◌ s (String.◌++◌ "\n" (lines ss))

-- `[String]::join`
abbrev pub join : String → List String → String
join sep [] = ""
join sep (s ∷ []) = s
join sep (s ∷ ss) = String.◌++◌ s (String.◌++◌ sep (join sep ss))

abbrev pub digits : List String
digits = "0" ∷ "1" ∷ "2" ∷ "3" ∷ "4" ∷ "5" ∷ "6" ∷ "7" ∷ "8" ∷ "9" ∷ []

abbrev pub digit : ℕ → String
digit n = elim (get_elem? digits n) [ none ↦ "" | some d ↦ d ]

-- `{}` of a `usize`. The fuel is the number itself, which has more units than digits.
abbrev pub decimal_rounds : ℕ → ℕ → String
decimal_rounds zero n = digit n
decimal_rounds (suc fuel) n =
    let front = decimal_rounds fuel (n / 10) in
    if ltb n 10 then digit n else String.◌++◌ front (digit (n % 10))

abbrev pub decimal : ℕ → String
decimal n = decimal_rounds n n

abbrev pub chars : String → List Char
chars String.[] = []
chars (String.◌∷◌ c s) = c ∷ chars s

abbrev pub of_chars : List Char → String
of_chars [] = ""
of_chars (c ∷ cs) = String.◌∷◌ c (of_chars cs)

abbrev pub same_char : Char → Char → Bool
same_char c d = code c ==ₙ code d

-- `char::is_whitespace`: the characters with the Unicode property White_Space.
unfoldable pub is_whitespace : Char → Bool
is_whitespace c =
    let n = code c in
    leb 9 n && leb n 13
    || n ==ₙ 32
    || n ==ₙ 0x85
    || n ==ₙ 0xa0
    || n ==ₙ 0x1680
    || leb 0x2000 n && leb n 0x200a
    || n ==ₙ 0x2028
    || n ==ₙ 0x2029
    || n ==ₙ 0x202f
    || n ==ₙ 0x205f
    || n ==ₙ 0x3000

module _ {ℓ} {A : Type ℓ} where
  unfoldable pub drop_while : (A → Bool) → List A → List A
  drop_while p [] = []
  drop_while p (x ∷ xs) = if p x then drop_while p xs else x ∷ xs

-- `trim` on the characters.
unfoldable pub trim_chars : List Char → List Char
unfolding drop_while
trim_chars cs = reverse (drop_while is_whitespace (reverse (drop_while is_whitespace cs)))

-- `strip_prefix`
unfoldable pub strip_prefix : List Char → List Char → Option (List Char)
strip_prefix [] cs = some cs
strip_prefix (p ∷ ps) [] = none
strip_prefix (p ∷ ps) (c ∷ cs) = if same_char p c then strip_prefix ps cs else none

abbrev pub is_some {ℓ} : {A : Type ℓ} → Option A → Bool
is_some none = false
is_some (some _) = true

unfoldable pub starts_with : List Char → List Char → Bool
unfolding strip_prefix
starts_with ps cs = is_some (strip_prefix ps cs)

-- `trim_start_matches` with a text pattern strips it as often as it stands there. The fuel is the
-- number of characters: each round takes at least one.
unfoldable pub trim_start_rounds : ℕ → List Char → List Char → List Char
unfolding strip_prefix
trim_start_rounds zero ps cs = cs
trim_start_rounds (suc fuel) ps cs = elim (strip_prefix ps cs) [
  | none ↦ cs
  | some rest ↦ trim_start_rounds fuel ps rest
]

unfoldable pub trim_start_matches : List Char → List Char → List Char
unfolding trim_start_rounds
trim_start_matches ps cs = trim_start_rounds (length cs) ps cs

unfoldable pub trim_end_matches : List Char → List Char → List Char
unfolding trim_start_matches
trim_end_matches ps cs = reverse (trim_start_matches (reverse ps) (reverse cs))

abbrev pub json_fence : List Char
json_fence = chars "```json"

abbrev pub fence : List Char
fence = chars "```"

-- `extract_json` on the characters.
unfoldable pub extract_chars : List Char → List Char
unfolding trim_chars starts_with trim_start_matches trim_end_matches
extract_chars response =
    let trimmed = trim_chars response in
    if starts_with json_fence trimmed
    then trim_chars (trim_end_matches fence (trim_start_matches json_fence trimmed))
    else if starts_with fence trimmed
    then trim_chars (trim_end_matches fence (trim_start_matches fence trimmed))
    else trimmed

-- `extract_json` of processors/common.rs of the worker and of domains/agent/handlers.rs.
unfoldable pub extract_json : String → String
unfolding extract_chars
extract_json response = of_chars (extract_chars (chars response))
