-- ===== src/Library/Matching/Examples.antt =====
-- A search in one prompt: the test of its excerpt, and the theorems at that prompt.
use prompt_maker_studio.Base.{
  leb, if◌then◌else◌, all, Text, text, is_space, is_empty, join, ◌+◌, ◌≡◌, refl, ◌↔◌, ◌⊎◌, true,
  false, ◌&&◌, none, some, [], ◌∷◌, map,
}
use prompt_maker_studio.Sections.Variables.{split_variables}
use prompt_maker_studio.Library.Prompts.{Prompt}
use prompt_maker_studio.Library.Matching.{
  Candidate, candidates_of, is_in, search_words, search_match,
}
use prompt_maker_studio.Library.Matching.Found.{search_match-none}

abbrev lower : Text → Text
lower s = map (λ c. if leb 65 c && leb c 90 then c + 32 else c) s

-- A decomposition that leaves ASCII alone.
abbrev as_it_is : Text → Text
as_it_is s = s

abbrev note : Prompt
note = record {
  id = 1;
  name = some (text "Plan");
  fields = record { name = text "Task"; content = text "Draft  a mail to {{the_team}} now" } ∷ [];
  generated_prompt = [];
  created_at = [];
  updated_at = none;
  folder = none;
  is_favorite = false;
}

search_test :
    (search_match as_it_is as_it_is lower note (text "MAIL plan")
      ≡ some (record {
        label = text "Task";
        before = text "Draft a ";
        match = text "mail";
        after = text " to {{the_team}} now";
      }))
    × (search_match as_it_is as_it_is lower note (text "mail xyz") ≡ none)
unfolding search_match is_space split_variables prompt_maker_studio.Scan.match_all
    prompt_maker_studio.Sections.Variables.variable_at
    prompt_maker_studio.Sections.Variables.identifier
    prompt_maker_studio.Sections.Chars.is_name_start prompt_maker_studio.Sections.Chars.is_name_char
search_test = (refl, refl)

search_match-none_example : (search_match as_it_is as_it_is lower note (text "mail xyz") ≡ none) ↔ (
    (is_empty (join (text " ") (search_words as_it_is as_it_is lower (text "mail xyz"))) ≡ true)
    ⊎ (all
          (is_in as_it_is as_it_is lower (candidates_of note))
          (search_words as_it_is as_it_is lower (text "mail xyz"))
        ≡ false))
search_match-none_example = search_match-none as_it_is as_it_is lower note (text "mail xyz")

abbrev task : Candidate
task = record { label = text "Task"; text = text "Draft a mail to {{the_team}} now" }
