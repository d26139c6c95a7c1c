-- ===== src/Agent/Steps/Panics.antt =====
-- When reading a reply of the language model panics.
use atlas_of_us.Text.{chars, trim_chars, format, of_chars}
use atlas_of_us.Agent.Steps.Slices.{
  prefix_bytes, byte_length, rfind_char, find_char, slice_inclusive,
}
use atlas_of_us.Agent.Generation.Models.{fault, panicked, Abort}
use Prim.Native.Char.{Char}
use atlas_of_us.Agent.Steps.Environment.{Json}
use atlas_of_us.Agent.Steps.Replies.{
  preview, parse_concept_list, parse_object, position_or_preview, span,
}
use atlas_of_us.Effects.Defs.{ok, ok_or, and_then, err, map_err, Result}
use atlas_of_us.Prelude.{
  ℕ, ◌+◌, ◌<◌, String, ◌≡◌, refl, ◌≢◌, ◌↔◌, ◌⊎◌, inl, inr, Option, none, some, List, [], ◌∷◌, arith,
}

-- What is no error of the text itself is no panic either.
map_err-ne-panicked :
    {E A : Type 0} (show : E → String) (r : Result E A)
    → map_err (λ e. fault (show e)) r ≢ err panicked
map_err-ne-panicked show (ok a) q = cc q
map_err-ne-panicked show (err e) q = cc q

decoded-panics :
    {T E A : Type 0} (r : Result Abort T) (decode : T → Result E A) (show : T → E → String)
    → and_then r (λ t. map_err (λ e. fault (show t e)) (decode t)) ≡ err panicked
    → r ≡ err panicked
decoded-panics (ok t) decode show q = absurd (map_err-ne-panicked (show t) (decode t) q)
decoded-panics (err f) decode show q = cc

span-panics :
    (crossed : Option String) (start last : ℕ) (cs : List Char)
    → span crossed start last cs ≡ err panicked
    → (crossed ≡ none) × (last + 1 < start)
unfolding span slice_inclusive
span-panics none start last cs q = (refl, ground arith)
span-panics (some e) start last cs q = ground arith

span_crossed :
    (start last : ℕ) (cs : List Char) → last + 1 < start → span none start last cs ≡ err panicked
unfolding span slice_inclusive
span_crossed start last cs h = ground arith

-- The last closing brace stands before the first opening one, and not directly, and the reader does
-- not check this.
abbrev pub Crosses : Option String → List Char → Type 0
Crosses crossed cs =
    (start : ℕ) × (last : ℕ) × (find_char "{" cs ≡ some start)
    × (rfind_char "}" cs ≡ some last)
    × (crossed ≡ none)
    × (last + 1 < start)

module _ (json : Json) (no_brace : String) (crossed : Option String) (cs : List Char) where
  -- `parse_object` after the search for the braces.
  abbrev Located : Option ℕ → Option ℕ → Type 0
  Located o p =
      and_then (ok_or o (fault no_brace)) (λ start.
        and_then (ok_or p (fault "No closing brace found")) (λ last.
          and_then (span crossed start last cs) (λ json_str.
            map_err (λ e. fault (format ("Failed to parse JSON: " ∷ e ∷ [])))
              (json.from_str (of_chars json_str)))))
      ≡ err panicked

  Located-Crosses :
      (o p : Option ℕ)
      → Located o p
      → (start : ℕ) × (last : ℕ) × (o ≡ some start)
        × (p ≡ some last)
        × (crossed ≡ none)
        × (last + 1 < start)
  Located-Crosses none p q = cc
  Located-Crosses (some start) none q = cc
  Located-Crosses (some start) (some last) q =
      let (unchecked, apart) = span-panics crossed start last cs (
        decoded-panics (span crossed start last cs) (λ t. json.from_str (of_chars t))
          (λ t e. format ("Failed to parse JSON: " ∷ e ∷ [])) q) in
      (start, last, refl, refl, unchecked, apart)

-- Reading an object out of a reply panics exactly where the reader does not check that the braces
-- do not cross, and the last closing brace stands, with something between, before the first
-- opening one.
pub parse_object_panics_iff :
    (json : Json) (no_brace : String) (crossed : Option String) (response : String)
    → (parse_object json no_brace crossed response ≡ err panicked)
      ↔ Crosses crossed (trim_chars (chars response))
unfolding parse_object
parse_object_panics_iff json no_brace crossed response = (
  λ q. Located-Crosses json no_brace crossed (trim_chars (chars response)) _ _ q,
  λ c.
      let (start, last, opens, closes, unchecked, apart) = c in
      rw (opens, closes, unchecked, span_crossed start last (trim_chars (chars response)) apart),
)

-- An error with a preview is a panic only where the preview is.
stopped :
    {A B : Type 0} (r : Result Abort (List Char)) (show : List Char → String)
    (f : A → Result Abort B)
    → and_then (and_then {B = A} r (λ p. err (fault (show p)))) f ≡ err panicked
    → r ≡ err panicked
stopped (ok p) show f q = cc
stopped (err e) show f q = cc

module _ (json : Json) (cs : List Char) where
  -- `parse_concept_list` after the search for the brackets.
  abbrev Bracketed : Option ℕ → Option ℕ → Result Abort (List String)
  Bracketed o p =
      and_then (position_or_preview "No JSON array found in response. Preview: " cs o) (λ start.
        and_then (position_or_preview "No closing bracket found. Preview: " cs p) (λ last.
          and_then (span (some "Invalid JSON array structure") start last cs) (λ json_str.
            map_err
              (λ e. fault (
                format
                  ("Failed to parse JSON array: " ∷ e ∷ ". Content: " ∷ of_chars json_str ∷ [])))
              (json.texts_from_str (of_chars json_str)))))

  bracketed-panics :
      (o p : Option ℕ)
      → Bracketed o p ≡ err panicked
      → ((o ≡ none) ⊎ (p ≡ none)) × (preview cs ≡ err panicked)
  unfolding position_or_preview
  bracketed-panics none p q = (
    inl refl,
    stopped (preview cs)
        (λ t. format ("No JSON array found in response. Preview: " ∷ of_chars t ∷ [])) _ q,
  )
  bracketed-panics (some start) none q = (
    inr refl,
    stopped (preview cs) (λ t. format ("No closing bracket found. Preview: " ∷ of_chars t ∷ [])) _
        q,
  )
  bracketed-panics (some start) (some last) q =
      let (checked, _) = span-panics (some "Invalid JSON array structure") start last cs (
        decoded-panics (span (some "Invalid JSON array structure") start last cs)
          (λ t. json.texts_from_str (of_chars t))
          (λ t e. format ("Failed to parse JSON array: " ∷ e ∷ ". Content: " ∷ of_chars t ∷ []))
          q) in
      cc checked

-- Reading a list of concepts panics only where the reply, trimmed, has no opening or no closing
-- bracket and cannot be cut for the preview in the error: it is longer than 200 bytes, and its
-- byte 200 is inside a character.
pub parse_concept_list-panics :
    (json : Json) (response : String)
    → parse_concept_list json response ≡ err panicked
    → ((find_char "[" (trim_chars (chars response)) ≡ none)
        ⊎ (rfind_char "]" (trim_chars (chars response)) ≡ none))
      × (200 < byte_length (trim_chars (chars response)))
      × (prefix_bytes 200 (trim_chars (chars response)) ≡ err panicked)
unfolding parse_concept_list
parse_concept_list-panics json response q =
    let cs = trim_chars (chars response) in
    let (missing, uncut) = bracketed-panics json cs (find_char "[" cs) (rfind_char "]" cs) q in
    (missing, (cut cs uncut).0, (cut cs uncut).1)
  where
    cut :
        (cs : List Char)
        → preview cs ≡ err panicked
        → (200 < byte_length cs) × (prefix_bytes 200 cs ≡ err panicked)
    cut cs h = unfold preview in (ground arith, ground arith)
