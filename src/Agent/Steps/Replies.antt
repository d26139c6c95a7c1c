-- ===== src/Agent/Steps/Replies.antt =====
-- How the steps read the replies of the language model: StepUtils of domains/agent/steps/mod.rs,
-- and what the parsers of the steps share.
use atlas_of_us.Agent.Concepts.{
  concept_generalize, concept_create_new, concept_use_existing, VerifiedConcept,
}
use atlas_of_us.Text.{of_chars, format, chars, trim_chars}
use atlas_of_us.Agent.Generation.Models.{fault, Abort}
use atlas_of_us.Effects.Defs.{or_else, map_err, ok_or, and_then, map_ok, err, ok, Result, unwrap_or}
use Prim.Native.Char.{Char}
use atlas_of_us.Agent.Steps.Environment.{Json}
use atlas_of_us.Agent.Steps.Slices.{
  rfind_char, find_char, prefix_bytes, byte_length, slice_inclusive,
}
use atlas_of_us.Prelude.{
  ℕ, String, false, ◌||◌, Option, none, some, List, [], ◌∷◌, ltb, leb, ◌==◌, if◌then◌else◌,
}

-- `if trimmed.len() > 200 { &trimmed[..200] } else { trimmed }`
unfoldable pub preview : List Char → Result Abort (List Char)
unfolding byte_length prefix_bytes
preview trimmed = if ltb 200 (byte_length trimmed) then prefix_bytes 200 trimmed else ok trimmed

-- The position of a bracket, or the error with a preview of the reply.
unfoldable pub position_or_preview : String → List Char → Option ℕ → Result Abort ℕ
unfolding preview
position_or_preview message trimmed (some i) = ok i
position_or_preview message trimmed none =
    and_then (preview trimmed) (λ p. err (fault (format (message ∷ of_chars p ∷ []))))

-- The text from the first opening to the last closing bracket, with the check that they do not
-- cross, where `crossed` is its error, or without.
unfoldable pub span : Option String → ℕ → ℕ → List Char → Result Abort (List Char)
unfolding slice_inclusive
span none start last trimmed = slice_inclusive start last trimmed
span (some crossed) start last trimmed =
    if leb last start then err (fault crossed) else slice_inclusive start last trimmed

module _ (json : Json) where
  unfoldable pub parse_concept_list : String → Result Abort (List String)
  unfolding position_or_preview span find_char rfind_char trim_chars
  parse_concept_list response =
      let trimmed = trim_chars (chars response) in
      and_then
        (position_or_preview "No JSON array found in response. Preview: " trimmed
          (find_char "[" trimmed))
        λ start.
          and_then
            (position_or_preview "No closing bracket found. Preview: " trimmed
              (rfind_char "]" trimmed))
            λ last.
              and_then (span (some "Invalid JSON array structure") start last trimmed) λ json_str.
                map_err
                  (λ e. fault (
                    format (
                      "Failed to parse JSON array: " ∷ e ∷ ". Content: " ∷ of_chars json_str ∷ [])))
                  (json.texts_from_str (of_chars json_str))

  -- How each parser of an object begins, with its errors where there is no opening brace and, if it
  -- checks that, where the braces cross.
  unfoldable pub parse_object : String → Option String → String → Result Abort json.Value
  unfolding span find_char rfind_char trim_chars
  parse_object no_brace crossed response =
      let trimmed = trim_chars (chars response) in
      and_then (ok_or (find_char "{" trimmed) (fault no_brace)) λ start.
        and_then (ok_or (rfind_char "}" trimmed) (fault "No closing brace found")) λ last.
          and_then (span crossed start last trimmed) λ json_str.
            map_err (λ e. fault (format ("Failed to parse JSON: " ∷ e ∷ [])))
              (json.from_str (of_chars json_str))

  -- `value.get(key).and_then(|v| v.as_str())`
  unfoldable pub text_at : json.Value → String → Option String
  text_at value key = elim (json.get value key) [ none ↦ none | some v ↦ json.as_str v ]

  unfoldable pub array_at : json.Value → String → Option (List json.Value)
  array_at value key = elim (json.get value key) [ none ↦ none | some v ↦ json.as_array v ]

  -- `text_at(…).unwrap_or(default)`
  abbrev pub text_or : json.Value → String → String → String
  text_or value key default = unwrap_or (text_at value key) default

  -- `filter(|s| !s.is_empty() && *s != "null")`
  abbrev pub not_null : Option String → Option String
  not_null none = none
  not_null (some s) = if s == "" || s == "null" then none else some s

  -- The three decisions of a reply.
  unfoldable pub decide :
      String → String → Option String → Option String → Result Abort VerifiedConcept
  decide concept decision existing_node suggested_target =
      if decision == "use_existing"
      then map_ok (concept_use_existing concept)
          (ok_or existing_node (fault "Missing existing_node_name for use_existing"))
      else if decision == "create_new"
      then ok (concept_create_new concept)
      else if decision == "create_and_generalize"
      then map_ok (λ target_name. concept_generalize concept "" target_name false)
          (ok_or (or_else suggested_target existing_node) (
            fault
              "Missing target for create_and_generalize (need existing_node_name or suggested_target)"))
      else err (fault (format ("Unknown decision: " ∷ decision ∷ [])))

  unfoldable pub parse_verification_response : String → String → Result Abort VerifiedConcept
  unfolding parse_object text_at decide
  parse_verification_response response concept =
      and_then
        (parse_object "No JSON object found in response" (some "Invalid JSON object structure")
          response)
        λ parsed.
          and_then (ok_or (text_at parsed "decision") (fault "Missing 'decision' field"))
            λ decision.
              decide concept decision (not_null (text_at parsed "existing_node_name"))
                (not_null (text_at parsed "suggested_target"))
