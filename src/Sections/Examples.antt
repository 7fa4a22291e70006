-- ===== src/Sections/Examples.antt =====
-- Tests of the section helpers, and their theorems at concrete texts.
use prompt_maker_studio.Base.{
  leb, ◌==◌, if◌then◌else◌, concat, Text, text, includes, is_space, first_uses, ◌+◌, ◌-◌, ◌≡◌, refl,
  true, false, not, ◌&&◌, none, some, List, [], ◌∷◌, map,
}
use prompt_maker_studio.Scan.{match_all}
use prompt_maker_studio.Sections.Chars.{PromptField}
use prompt_maker_studio.Sections.Names.{
  normalize_section_name, section_tag, section_name_error, render_sections, missing, malformed,
  taken,
}
use prompt_maker_studio.Sections.Variables.{
  Values, variables_in, variable_at, variable_token, insert_variable, fill_variables,
  split_variables, part_text, plain, variable, to_variable_name, is_variable_name,
}
use prompt_maker_studio.Sections.Variables.Fill.{
  fill_part, split_variables-concat, fill_variables-split,
}
use prompt_maker_studio.Sections.Variables.Collect.{uses_in, variables_in-first_uses}
use prompt_maker_studio.Sections.Tags.{unbalanced_tags, tag_at}
use prompt_maker_studio.Sections.Tags.Laws.{occurrences, includes-unbalanced_tags}
use prompt_maker_studio.Sections.Title.{suggest_title, title_line}

-- ASCII case mapping, for the parameters that stand for `toUpperCase` and `toLowerCase`.
abbrev ascii_upper : Text → Text
ascii_upper = map (λ c. if leb 97 c && leb c 122 then c - 32 else c)

abbrev ascii_lower : Text → Text
ascii_lower = map (λ c. if leb 65 c && leb c 90 then c + 32 else c)

abbrev note : Text
note = text "Hi {{ name }}, about {{topic}} and {{name}}"

abbrev values : Values
values = (text "name", text "Ann") ∷ (text "topic", []) ∷ []

split_test :
    split_variables note
    ≡ plain (text "Hi ")
      ∷ variable (text "{{ name }}") (text "name")
      ∷ plain (text ", about ")
      ∷ variable (text "{{topic}}") (text "topic")
      ∷ plain (text " and ")
      ∷ variable (text "{{name}}") (text "name")
      ∷ []
unfolding split_variables match_all variable_at prompt_maker_studio.Sections.Variables.identifier
    is_space prompt_maker_studio.Sections.Chars.is_name_start
    prompt_maker_studio.Sections.Chars.is_name_char
split_test = refl

fill_test : fill_variables note values ≡ text "Hi Ann, about {{topic}} and Ann"
unfolding fill_variables prompt_maker_studio.Scan.replace_from match_all variable_at
    prompt_maker_studio.Sections.Variables.identifier is_space
    prompt_maker_studio.Sections.Chars.is_name_start prompt_maker_studio.Sections.Chars.is_name_char
    prompt_maker_studio.Sections.Variables.fill_token
    prompt_maker_studio.Sections.Variables.value_for
fill_test = refl

tag_test : section_tag ascii_upper (text "  Output \n format ") ≡ text "OUTPUT_FORMAT"
unfolding section_tag normalize_section_name is_space
tag_test = refl

name_error_test :
    (section_name_error ascii_upper (text " ") [] ≡ some missing)
    × (section_name_error ascii_upper (text "1st") [] ≡ some malformed)
    × (section_name_error ascii_upper (text "task") (text "Task" ∷ []) ≡ some (taken (text "TASK")))
    × (section_name_error ascii_upper (text "Role") (text "Task" ∷ []) ≡ none)
unfolding section_name_error normalize_section_name is_space
    prompt_maker_studio.Sections.Names.is_valid_name
    prompt_maker_studio.Sections.Chars.is_name_start
    prompt_maker_studio.Sections.Chars.is_section_char section_tag
name_error_test = (refl, refl, refl, refl)

tags_test : unbalanced_tags (text "<a><b></b></c></a><a>") ≡ text "a" ∷ text "c" ∷ []
unfolding unbalanced_tags match_all tag_at prompt_maker_studio.Sections.Variables.identifier
    prompt_maker_studio.Sections.Chars.is_name_start prompt_maker_studio.Sections.Chars.is_name_char
tags_test = refl

title_test : suggest_title (text "# Write: a plan\nfor me") 10 ≡ text "Write: a"
unfolding suggest_title title_line prompt_maker_studio.Sections.Title.close_stops
    prompt_maker_studio.Sections.Title.collapse_spaces prompt_maker_studio.Scan.replace_from
    match_all prompt_maker_studio.Sections.Title.first_line is_space variable_at
    prompt_maker_studio.Sections.Title.is_bullet prompt_maker_studio.Sections.Title.is_stop
    prompt_maker_studio.Sections.Title.drop_end_while prompt_maker_studio.Sections.Title.cut_at
    prompt_maker_studio.Sections.Title.last_space prompt_maker_studio.Sections.Title.is_tail_mark
title_test = refl

split_variables-concat_example : concat (map part_text (split_variables note)) ≡ note
split_variables-concat_example = split_variables-concat note

fill_variables-split_example :
    fill_variables note values ≡ concat (map (fill_part values) (split_variables note))
fill_variables-split_example = fill_variables-split note values

abbrev fields : List PromptField
fields =
    record { name = text "Task"; content = note }
    ∷ record { name = text "Tone"; content = text "{{tone}} for {{name}}" }
    ∷ []

variables_in-first_uses_example : variables_in fields ≡ first_uses (concat (map uses_in fields))
variables_in-first_uses_example = variables_in-first_uses fields

includes-unbalanced_tags_example :
    includes (unbalanced_tags (text "<a></b></a>")) (text "b")
    ≡ not (
        occurrences false (text "b") (match_all tag_at (text "<a></b></a>"))
        == occurrences true (text "b") (match_all tag_at (text "<a></b></a>")))
includes-unbalanced_tags_example = includes-unbalanced_tags (text "<a></b></a>") (text "b")
