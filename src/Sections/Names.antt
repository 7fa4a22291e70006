-- ===== src/Sections/Names.antt =====
-- Section names, tags and the rendered prompt. `toUpperCase` is a parameter: the Unicode case
-- tables are not part of the program.
pub mod Laws
use prompt_maker_studio.Base.{
  ℕ, Bool, true, false, ◌&&◌, ◌==◌, if◌then◌else◌, List, [], ◌∷◌, ◌++◌, map, Option, none, some,
  Text, text, text_eq, is_space, is_empty, join, any, all,
}
use prompt_maker_studio.Sections.Chars.{is_name_start, is_section_char, PromptField}

-- A finished word, if there is one: the empty pieces of the split are filtered out.
abbrev pub flush : Text → List Text
flush [] = []
flush (c ∷ cur) = (c ∷ cur) ∷ []

-- `split(/\s+/).filter(Boolean)`, with the word read so far.
unfoldable pub words_from : Text → Text → List Text
words_from cur [] = flush cur
words_from cur (c ∷ s) =
    let next = words_from [] s in
    let longer = words_from (cur ++ c ∷ []) s in if is_space c then flush cur ++ next else longer

unfoldable pub normalize_section_name : Text → Text
unfolding words_from
normalize_section_name name = join (text " ") (words_from [] name)

-- `replace(/ /g, '_')`
unfoldable pub underscores : Text → Text
underscores s = map (λ c. if c == 32 then 95 else c) s

-- /^[A-Za-z_][A-Za-z0-9_ -]*$/
unfoldable pub is_valid_name : Text → Bool
is_valid_name [] = false
is_valid_name (c ∷ s) = is_name_start c && all is_section_char s

-- The three messages of `sectionNameError`.
pub data NameError : Type 0 where
  missing : NameError
  malformed : NameError
  taken : Text → NameError

module _ (to_upper : Text → Text) where
  unfoldable pub section_tag : Text → Text
  unfolding underscores
  section_tag name = to_upper (underscores (normalize_section_name name))

  unfoldable pub render_section : PromptField → Text
  render_section f =
      text "<"
      ++ (section_tag f.name
          ++ (text ">\n" ++ (f.content ++ (text "\n</" ++ (section_tag f.name ++ text ">")))))

  unfoldable pub render_sections : List PromptField → Text
  unfolding render_section
  render_sections sections = join (text "\n\n") (map render_section sections)

  unfoldable pub section_name_error : Text → List Text → Option NameError
  section_name_error name others =
      let normalized = normalize_section_name name in
      if is_empty normalized
      then some missing
      else if is_valid_name normalized
      then (if any (λ other. text_eq (section_tag other) (section_tag normalized)) others
          then some (taken (section_tag normalized))
          else none)
      else some malformed

unfoldable pub render_plain_sections : List PromptField → Text
render_plain_sections sections = join (text "\n\n") (map (λ s. s.content) sections)
