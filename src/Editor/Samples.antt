-- ===== src/Editor/Samples.antt =====
-- A small prompt and an editor that shows it, for the tests.
use prompt_maker_studio.Base.{Text, text, false, none, some, [], ◌∷◌}
use prompt_maker_studio.Api.{answered}
use prompt_maker_studio.Sections.Chars.{PromptField}
use prompt_maker_studio.Editor.Drafts.{EditorSection}
use prompt_maker_studio.Editor.State.{SavedPrompt, Editor}
use prompt_maker_studio.Editor.Actions.{update_section}
use prompt_maker_studio.Editor.Reloading.{first_state, settle_load}

abbrev pub task_field : PromptField
task_field = record { name = text "Task"; content = text "Write." }

abbrev pub tone_field : PromptField
tone_field = record { name = text "Tone"; content = text "Kind." }

abbrev pub on_server : SavedPrompt
on_server = record {
  id = 7;
  name = some (text "Letter");
  fields = task_field ∷ tone_field ∷ [];
  created_at = text "t0";
  updated_at = none;
  folder = none;
  metadata = none;
  known_good = none;
}

abbrev pub ann : Text
ann = text "ann"

abbrev pub opened_editor : Editor
opened_editor =
    settle_load (answered (on_server, 1 ∷ [])) (first_state (some 7) (some ann) none false [])

-- The text of the first section is changed.
abbrev pub write_more : EditorSection → EditorSection
write_more s = record s { content = text "Write it." }

abbrev pub changed_editor : Editor
changed_editor = update_section 1 write_more opened_editor
