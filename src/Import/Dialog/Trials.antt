-- ===== src/Import/Dialog/Trials.antt =====
-- The theorems on the dialog of an import, at concrete values.
use prompt_maker_studio.Base.{
  length, pos, text, is_space, ◌≡◌, refl, false, none, some, List, [], ◌∷◌,
}
use prompt_maker_studio.Sections.Chars.{PromptField}
use prompt_maker_studio.Import.Json.{ok}
use prompt_maker_studio.Import.Validate.{validate_import_prompts, import_problem}
use prompt_maker_studio.Import.Placeholders.{placeholders_in, pieces}
use prompt_maker_studio.Import.Conversion.{
  ImportSettings, find_setting, or_no_settings, convert_prompt,
}
use prompt_maker_studio.Import.Dialog.{Saved, PreviewRow, by_title, updates, included, filter_from}
use prompt_maker_studio.Import.Dialog.Run.{
  Replies, DialogState, validated, left_out, is_skipped, import_prompts,
}
use prompt_maker_studio.Import.Dialog.Selection.{in_none, left_out_exact}
use prompt_maker_studio.Import.Dialog.Answered.{
  IsImported, titles_of, chosen_rows, changed_rows, import_prompts_answered,
}
use prompt_maker_studio.Import.Samples.{upper, lower, plan, notes}

abbrev old_notes : Saved
old_notes = record {
  id = 7;
  name = some (text "notes ");
  folder = none;
  fields = record { name = text "Task"; content = text "Sum it up" } ∷ [];
  variable_metadata = none;
  updated_at = none;
}

abbrev new_plan : Saved
new_plan = record {
  id = 8;
  name = some (text "Plan");
  folder = none;
  fields = plan.fields;
  variable_metadata = plan.variable_metadata;
  updated_at = none;
}

abbrev rows : List PreviewRow
rows = record { prompt = plan; flag = none } ∷ record { prompt = notes; flag = none } ∷ []

-- Creates, but refuses the favorite flag and the update.
abbrev server : Replies
server = record {
  create = λ n p. some new_plan;
  favor = λ n saved. none;
  update = λ n request. none;
}

abbrev dialog : DialogState
dialog = record {
  preview = some rows;
  toggled = [];
  updating = 1 ∷ [];
  before_convert = none;
  session = [];
  imported = [];
  done = none;
  error = none;
  summary = none;
  busy = false;
  progress = 0;
  notifications = 0;
}

choose_plan :
    validated lower upper (chosen_rows server lower upper (old_notes ∷ []) rows dialog)
    ≡ ok (plan ∷ [])
unfolding included by_title is_space import_problem validate_import_prompts
    prompt_maker_studio.Import.Dialog.Values.to_json
    prompt_maker_studio.Sections.Names.is_valid_name
    prompt_maker_studio.Sections.Chars.is_name_start
    prompt_maker_studio.Sections.Chars.is_section_char
choose_plan = refl

change_notes :
    validated lower upper (changed_rows server lower upper (old_notes ∷ []) rows dialog)
    ≡ ok (notes ∷ [])
unfolding updates by_title is_space prompt_maker_studio.Import.Conversion.reapply_conversions
    prompt_maker_studio.Import.Placeholders.match_token import_problem validate_import_prompts
    prompt_maker_studio.Import.Dialog.Values.to_json
    prompt_maker_studio.Sections.Names.is_valid_name
    prompt_maker_studio.Sections.Chars.is_name_start
    prompt_maker_studio.Sections.Chars.is_section_char
change_notes = refl

import_prompts_answered_example :
    (after : DialogState) × (import_prompts server lower upper (old_notes ∷ []) rows dialog
      ≡ some after)
    × IsImported server lower upper
        (titles_of server lower upper (old_notes ∷ []) dialog)
        (plan ∷ [])
        (notes ∷ [])
        dialog
        after
import_prompts_answered_example =
    import_prompts_answered server lower upper (old_notes ∷ []) rows dialog (plan ∷ []) (notes ∷ [])
      choose_plan change_notes

left_out_exact_example :
    left_out lower upper (by_title lower upper [] (old_notes ∷ [])) [] [] rows
    ≡ pos (
        length (
          filter_from
            (in_none
              (is_skipped lower upper (by_title lower upper [] (old_notes ∷ [])) [] [])
              (included lower upper (by_title lower upper [] (old_notes ∷ [])) [] [])
              (updates lower upper (by_title lower upper [] (old_notes ∷ [])) []))
            0
            rows))
left_out_exact_example =
    left_out_exact lower upper (by_title lower upper [] (old_notes ∷ [])) [] [] rows
