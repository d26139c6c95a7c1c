-- ===== src/Agent/Steps/Slices.antt =====
-- How the steps cut a JSON text out of a reply. Positions count characters where the code counts
-- bytes: the brackets that it looks for are ASCII characters, so the same slices result.
use atlas_of_us.Agent.Generation.Models.{panicked, Abort}
use atlas_of_us.Effects.Defs.{map_ok, err, ok, Result}
use atlas_of_us.Text.{same_char}
use Prim.Native.Char.{code, Char}
use atlas_of_us.Prelude.{
  ℕ, suc, ◌+◌, ◌-◌, Option, none, some, List, [], ◌∷◌, ltb, ◌==ₙ◌, if◌then◌else◌, take, drop,
}

-- `find(c)`
unfoldable pub find_char : Char → List Char → Option ℕ
find_char c [] = none
find_char c (d ∷ ds) =
    if same_char c d then some 0 else elim (find_char c ds) [ none ↦ none | some i ↦ some (suc i) ]

-- `rfind(c)`
unfoldable pub rfind_char : Char → List Char → Option ℕ
rfind_char c [] = none
rfind_char c (d ∷ ds) = elim (rfind_char c ds) [
  | some i ↦ some (suc i)
  | none ↦ if same_char c d then some 0 else none
]

-- `&text[start..=last]` of positions in the text, which panics where `last + 1 < start`.
unfoldable pub slice_inclusive : ℕ → ℕ → List Char → Result Abort (List Char)
slice_inclusive start last cs =
    if ltb (last + 1) start then err panicked else ok (take (last + 1 - start) (drop start cs))

-- The length of a character in UTF-8, and `len` of a text.
unfoldable pub utf8_length : Char → ℕ
utf8_length c =
    if ltb (code c) 0x80
    then 1
    else if ltb (code c) 0x800
    then 2
    else if ltb (code c) 0x10000
    then 3
    else 4

unfoldable pub byte_length : List Char → ℕ
unfolding utf8_length
byte_length [] = 0
byte_length (c ∷ cs) = utf8_length c + byte_length cs

-- `&text[..n]`, which panics where `n` is no boundary of characters, or beyond the end.
unfoldable pub prefix_bytes : ℕ → List Char → Result Abort (List Char)
unfolding utf8_length
prefix_bytes n [] = if n ==ₙ 0 then ok [] else err panicked
prefix_bytes n (c ∷ cs) =
    let rest = map_ok (λ p. c ∷ p) (prefix_bytes (n - utf8_length c) cs) in
    if n ==ₙ 0 then ok [] else if ltb n (utf8_length c) then err panicked else rest
