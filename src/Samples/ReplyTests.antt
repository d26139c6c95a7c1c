-- ===== src/Samples/ReplyTests.antt =====
-- The theorems on the replies of the language model and on levels at concrete texts.
use atlas_of_us.Agent.Steps.Panics.{parse_concept_list-panics, parse_object_panics_iff, Crosses}
use atlas_of_us.Agent.Registry.Defs.{created}
use atlas_of_us.Effects.Defs.{err, ok}
use atlas_of_us.Text.{format, chars, is_whitespace, starts_with, trim_chars}
use atlas_of_us.Agent.Steps.Placement.{
  find_level-out_of_range, some-injective, find_level-get_level_structure, level_node, level_nodes,
}
use atlas_of_us.Agent.Steps.Slices.{prefix_bytes, byte_length, rfind_char, find_char}
use atlas_of_us.Agent.Steps.Replies.{parse_concept_list, parse_object}
use atlas_of_us.Agent.Steps.Environment.{Json}
use atlas_of_us.Agent.Steps.Assignment.{has_word, contains_chars, level_word, find_level}
use atlas_of_us.Agent.Steps.Architect.{LevelInfo, get_level_structure}
use atlas_of_us.Graph.Models.{pos}
use atlas_of_us.Agent.Generation.Models.{panicked}
use atlas_of_us.Prelude.{
  ℕ, zero, suc, ◌<◌, String, ◌≡◌, refl, ◌↔◌, ◌⊎◌, false, none, some, [], ◌∷◌, arith, get_elem?,
  find,
}

abbrev developing : LevelInfo
developing = record {
  level = 2;
  name = "Chess Developing";
  description = "Building foundational skills in Chess";
  total_points_required = 200;
}

abbrev ids : ℕ → String
ids n = "l"

chess_word_free :
    (j : ℕ) (earlier : LevelInfo)
    → j < 1
    → get_elem? (get_level_structure "Chess") j ≡ some earlier
    → has_word (level_word (pos 2)) (level_node ids earlier) ≡ false
unfolding get_level_structure level_word contains_chars starts_with
chess_word_free zero earlier h e = rw (← some-injective _ earlier e)
chess_word_free (suc j) earlier h e = absurd (omega arith)

chess_developing : get_elem? (get_level_structure "Chess") 1 ≡ some developing
unfolding get_level_structure
chess_developing = refl

find_level-get_level_structure_example :
    find_level (level_nodes ids (get_level_structure "Chess")) (pos 2)
    ≡ some (level_node ids developing)
find_level-get_level_structure_example =
    find_level-get_level_structure ids "Chess" 1 developing chess_developing chess_word_free

-- The name of the domain has the word of its second level.
web_misplaced :
    find_level (level_nodes ids (get_level_structure "Web Developing")) (pos 2)
    ≡ some (created "Web Developing Novice" "l" "Domain_Level")
unfolding find_level find get_level_structure starts_with
web_misplaced = refl

find_level-out_of_range_example :
    find_level (level_nodes ids (get_level_structure "Chess")) (pos 7)
    ≡ some (created (format ("Chess" ∷ " Novice" ∷ [])) (ids 1) "Domain_Level")
find_level-out_of_range_example =
    find_level-out_of_range ids "Chess" (pos 7) (λ h. absurd (omega (arith, h)))

abbrev plain_json : Json
plain_json = record {
  Value = String;
  from_str = λ s. ok s;
  texts_from_str = λ s. err "no list";
  get = λ v key. none;
  as_str = λ v. none;
  as_array = λ v. none;
  as_i64 = λ v. none;
  text = λ s. s;
  int = λ z. "0";
}

parse_object_panics_iff_example :
    (parse_object plain_json "No JSON object found" none "} {" ≡ err panicked)
    ↔ Crosses none (trim_chars (chars "} {"))
parse_object_panics_iff_example =
    parse_object_panics_iff plain_json "No JSON object found" none "} {"

crossed_panics : parse_object plain_json "No JSON object found" none "} {" ≡ err panicked
unfolding parse_object is_whitespace
crossed_panics = refl

-- Of 201 bytes, the last two one character.
abbrev long_reply : String
long_reply =
    "aaaaaaaaaaaaaaaaaaaaaaaaaaaaaaaaaaaaaaaaaaaaaaaaaaaaaaaaaaaaaaaaaaaaaaaaaaaaaaaaaaaaaaaaaaaaaaaaaaaaaaaaaaaaaaaaaaaaaaaaaaaaaaaaaaaaaaaaaaaaaaaaaaaaaaaaaaaaaaaaaaaaaaaaaaaaaaaaaaaaaaaaaaaaaaaaaaaaaaaé"

long_reply_panics : parse_concept_list plain_json long_reply ≡ err panicked
unfolding parse_concept_list is_whitespace
long_reply_panics = refl

parse_concept_list-panics_example :
    ((find_char "[" (trim_chars (chars long_reply)) ≡ none)
      ⊎ (rfind_char "]" (trim_chars (chars long_reply)) ≡ none))
    × (200 < byte_length (trim_chars (chars long_reply)))
    × (prefix_bytes 200 (trim_chars (chars long_reply)) ≡ err panicked)
parse_concept_list-panics_example =
    parse_concept_list-panics plain_json long_reply long_reply_panics
