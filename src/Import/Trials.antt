-- ===== src/Import/Trials.antt =====
-- The theorems on the validation, the placeholders and the sections of an import, at concrete values.
use prompt_maker_studio.Base.{
  Text, List, All, concat, text, is_space, IsDistinct, ◌≤◌, ◌≡◌, refl, ◌↔◌, true, false, none, some,
  [], ◌∷◌, map, arith,
}
use prompt_maker_studio.Sections.Chars.{PromptField}
use prompt_maker_studio.Sections.Variables.{split_variables}
use prompt_maker_studio.Import.Json.{Json, string, array, object, to_items, to_members, ok}
use prompt_maker_studio.Import.Validate.{
  ImportPrompt, validate_import_prompts, import_problem, max_import_prompts, tag_of,
}
use prompt_maker_studio.Import.Validate.Laws.{strict_iff}
use prompt_maker_studio.Import.Validate.Sound.{IsSound, validate_import_prompts-IsSound}
use prompt_maker_studio.Import.Placeholders.{placeholders_in, pieces}
use prompt_maker_studio.Import.Conversion.{
  ImportSettings, find_setting, or_no_settings, convert_prompt,
}
use prompt_maker_studio.Import.Conversion.Laws.{IsKeptIn, convert_prompt_keeps_settings}
use prompt_maker_studio.Import.Conversion.Unchosen.{convert_prompt_unchosen}
use prompt_maker_studio.Import.Naming.{split_field, split_long_sections}
use prompt_maker_studio.Import.Naming.Laws.{split_long_sections_named}
use prompt_maker_studio.Import.Naming.Fits.{split_long_sections_problem}
use prompt_maker_studio.Import.Markdown.{line_heading, next_fence}
use prompt_maker_studio.Import.Markdown.Bodies.{body_of, titles_of}
use prompt_maker_studio.Import.Items.{is_input_type}
use prompt_maker_studio.Import.Samples.{upper, lower, upper_joins, upper_caseless, tone, plan}

abbrev plan_json : Json
plan_json = object (
    to_members (
      (text "name", string (text " Plan"))
      ∷ (text "is_favorite", Json.bool true)
      ∷ (
        text "fields",
        array (
            to_items (
              object (
                to_members (
                  (text "name", string (text "Role "))
                  ∷ (text "content", string (text "Be [my tone]"))
                  ∷ []))
              ∷ [])),
      )
      ∷ (
        text "variable_metadata",
        object (
            to_members (
              (
                text "my_tone",
                object (
                    to_members
                      ((text "type", string (text "text")) ∷ (text "description", Json.null) ∷ [])),
              )
              ∷ [])),
      )
      ∷ []))

abbrev plans : Json
plans = array (to_items (plan_json ∷ []))

read_plans : validate_import_prompts upper false plans ≡ ok (plan ∷ [])
unfolding validate_import_prompts is_space prompt_maker_studio.Sections.Names.is_valid_name
    prompt_maker_studio.Sections.Chars.is_name_start
    prompt_maker_studio.Sections.Chars.is_section_char
read_plans = refl

strict_iff_example : (validate_import_prompts upper false plans ≡ ok (plan ∷ [])) ↔ (
    (validate_import_prompts upper true plans ≡ ok (plan ∷ []))
    × All (λ p. import_problem p ≡ none) (plan ∷ []))
strict_iff_example = strict_iff upper plans (plan ∷ [])

validate_import_prompts-IsSound_example :
    (1 ≤ 1) × (1 ≤ max_import_prompts) × All (IsSound upper) (plan ∷ [])
validate_import_prompts-IsSound_example =
    validate_import_prompts-IsSound upper false plans (plan ∷ []) read_plans

convert_test :
    (convert_prompt lower upper none plan).fields
    ≡ record { name = text "Role"; content = text "Be {{my_tone}}" } ∷ []
unfolding convert_prompt prompt_maker_studio.Import.Conversion.convert_fields
    prompt_maker_studio.Import.Conversion.convert_pieces
    prompt_maker_studio.Import.Conversion.new_name
    prompt_maker_studio.Import.Conversion.placeholder_hint
    prompt_maker_studio.Import.Conversion.spaced_from
    prompt_maker_studio.Import.Placeholders.match_token
    prompt_maker_studio.Import.Placeholders.is_word prompt_maker_studio.Import.Placeholders.name_of
    prompt_maker_studio.Import.Placeholders.is_input_name
    prompt_maker_studio.Import.Placeholders.pieces_from
    prompt_maker_studio.Sections.Chars.is_name_start
    prompt_maker_studio.Sections.Chars.is_section_char
    prompt_maker_studio.Sections.Variables.to_variable_name
    prompt_maker_studio.Sections.Variables.is_gap
    prompt_maker_studio.Sections.Variables.is_plain_char is_space pieces
convert_test = refl

convert_prompt_keeps_settings_example :
    IsKeptIn
      (or_no_settings (convert_prompt lower upper none plan).variable_metadata)
      (text "my_tone")
      tone
convert_prompt_keeps_settings_example =
    convert_prompt_keeps_settings lower upper none plan (text "my_tone") tone refl

convert_prompt_unchosen_example :
    convert_prompt lower upper (some (text "[topic]" ∷ [])) plan ≡ plan
unfolding placeholders_in prompt_maker_studio.Import.Placeholders.match_token
    prompt_maker_studio.Import.Placeholders.is_word prompt_maker_studio.Sections.Chars.is_name_start
    prompt_maker_studio.Sections.Chars.is_section_char
    prompt_maker_studio.Import.Placeholders.name_of
    prompt_maker_studio.Import.Placeholders.is_input_name
    prompt_maker_studio.Sections.Variables.to_variable_name is_space
    prompt_maker_studio.Sections.Variables.is_gap
    prompt_maker_studio.Sections.Variables.is_plain_char
convert_prompt_unchosen_example =
    convert_prompt_unchosen lower upper (text "[topic]" ∷ []) plan ((refl, tt), tt)

-- Two sections of one name.
abbrev twice : ImportPrompt
twice = record plan {
  fields =
      record { name = text "1. Role"; content = text "a" }
      ∷ record { name = text "Role"; content = text "b" }
      ∷ [];
}

split_long_sections_named_example :
    (q : ImportPrompt) × (split_long_sections (λ s. s) upper twice ≡ some q)
    × IsDistinct (map (λ f. tag_of upper f.name) q.fields)
    × (map (λ f. f.content) q.fields ≡ map (λ f. f.content) (concat (map split_field twice.fields)))
split_long_sections_named_example =
    split_long_sections_named (λ s. s) upper upper_joins upper_caseless twice

split_long_sections_problem_example :
    (q : ImportPrompt) × (split_long_sections (λ s. s) upper twice ≡ some q)
    × (import_problem q ≡ none)
unfolding split_variables is_space prompt_maker_studio.Import.SplitText.spans_from
    prompt_maker_studio.Scan.match_all prompt_maker_studio.Sections.Variables.variable_at
split_long_sections_problem_example =
    split_long_sections_problem (λ s. s) upper upper_joins upper_caseless twice refl (omega arith)
      (refl, (refl, tt))

abbrev note_lines : List Text
note_lines =
    text "Be brief."
    ∷ text "## Steps"
    ∷ text "```"
    ∷ text "# not a title"
    ∷ text "```"
    ∷ text "# Next"
    ∷ text "x"
    ∷ []

markdown_test :
    (body_of none note_lines ≡ text "Be brief.\n```\n# not a title\n```\nx\n")
    × (titles_of none note_lines ≡ text "Next" ∷ [])
unfolding line_heading next_fence is_space
markdown_test = (refl, refl)

-- The word of a type may stand in a list by itself.
type_test : is_input_type (array (to_items (string (text "text") ∷ []))) ≡ true
unfolding is_input_type
type_test = refl
