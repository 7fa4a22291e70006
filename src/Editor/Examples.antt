-- ===== src/Editor/Examples.antt =====
-- Tests of the actions of the editor, of its drafts, and of the theorems about them.
use prompt_maker_studio.Base.{
  leb, if◌then◌else◌, length, Text, text, includes, is_space, decimal, ℕ, ◌+◌, ◌<◌, ◌≡◌, refl, true,
  false, ◌&&◌, none, some, List, [], ◌∷◌, ◌++◌, map,
}
use prompt_maker_studio.Session.Storage.{get_item, clear_user_content}
use prompt_maker_studio.Editor.Metadata.{snapshot}
use prompt_maker_studio.Editor.Drafts.{
  EditorSection, NewSection, to_fields, draft_key, persist, no_hint,
}
use prompt_maker_studio.Editor.Drafts.Laws.{normal_fields}
use prompt_maker_studio.Editor.Names.{unique_name, taken_names, unique_name_is_free}
use prompt_maker_studio.Editor.State.{Imported, fields, dirty}
use prompt_maker_studio.Editor.Actions.{
  down, update_section, move_section, remove_section, undo_remove, replace_sections,
  import_sections, press_undo,
}
use prompt_maker_studio.Editor.Actions.Laws.{undo_remove-remove_section, undo_import}
use prompt_maker_studio.Editor.Reloading.{first_state, settle_load, hydrate}
use prompt_maker_studio.Editor.Samples.{task_field, on_server, opened_editor, changed_editor}

opened_test :
    (dirty opened_editor ≡ false)
    × (fields opened_editor ≡ on_server.fields)
    × (dirty changed_editor ≡ true)
unfolding dirty settle_load prompt_maker_studio.Editor.Drafts.read_draft first_state get_item
    prompt_maker_studio.Sections.Variables.variables_in prompt_maker_studio.Scan.match_all
    prompt_maker_studio.Sections.Variables.variable_at
    prompt_maker_studio.Editor.Metadata.same_snapshot snapshot to_fields
    prompt_maker_studio.Sections.Names.normalize_section_name is_space
    prompt_maker_studio.Editor.Metadata.sort_entries update_section
opened_test = (refl, refl, refl)

abbrev tone_section : EditorSection
tone_section = record {
  key = 2;
  name = text "Tone";
  content = text "Kind.";
  hint = none;
  touched = true;
}

undo_remove-remove_section_example :
    (undo_remove 1 tone_section (remove_section 1 changed_editor)).sections
    ≡ changed_editor.sections
unfolding update_section settle_load prompt_maker_studio.Editor.Drafts.read_draft first_state
    get_item prompt_maker_studio.Sections.Variables.variables_in prompt_maker_studio.Scan.match_all
    prompt_maker_studio.Sections.Variables.variable_at
undo_remove-remove_section_example =
    undo_remove-remove_section 1 tone_section changed_editor refl (λ h. cc)

-- Undo after the only section was removed leaves the blank one beside it.
only_section_test :
    let e = remove_section 1 changed_editor in
    let e' = remove_section 0 e in length (undo_remove 0 tone_section e').sections ≡ 2
unfolding prompt_maker_studio.Editor.Actions.update_section
    prompt_maker_studio.Editor.Actions.remove_section prompt_maker_studio.Editor.Actions.insert_at
    prompt_maker_studio.Editor.Actions.undo_remove prompt_maker_studio.Editor.Drafts.read_draft
    prompt_maker_studio.Editor.Reloading.first_state
    prompt_maker_studio.Editor.Reloading.settle_load
    prompt_maker_studio.Sections.Variables.variable_at
    prompt_maker_studio.Sections.Variables.add_sections
    prompt_maker_studio.Sections.Variables.variables_in prompt_maker_studio.Scan.match_from
    prompt_maker_studio.Scan.match_all prompt_maker_studio.Session.Storage.get_item
only_section_test = refl

abbrev note_import : Imported
note_import = record {
  save_as_written = false;
  title = some (text "Note");
  fields = task_field ∷ [];
  metadata = [];
  values = (text "who", text "Bo") ∷ [];
}

undo_import_example :
    let after = press_undo (import_sections note_import changed_editor) in
    (after.sections ≡ changed_editor.sections)
    × (after.metadata ≡ changed_editor.metadata)
    × (after.values ≡ changed_editor.values)
    × (after.remember_values ≡ changed_editor.remember_values)
    × (after.mode ≡ changed_editor.mode)
    × (after.mobile_tab ≡ changed_editor.mobile_tab)
    × (after.preview_open ≡ changed_editor.preview_open)
    × (after.import_session ≡ changed_editor.import_session)
    × (after.draft_action ≡ none)
unfolding normal_fields prompt_maker_studio.Sections.Names.normalize_section_name is_space
    update_section settle_load prompt_maker_studio.Editor.Drafts.read_draft first_state get_item
    prompt_maker_studio.Sections.Variables.variables_in prompt_maker_studio.Scan.match_all
    prompt_maker_studio.Sections.Variables.variable_at
undo_import_example = undo_import note_import changed_editor refl refl

-- The second name is taken by a section, in another case.
abbrev lower : Text → Text
lower s = map (λ c. if leb 65 c && leb c 90 then c + 32 else c) s

abbrev named_section : Text → EditorSection
named_section name = record tone_section { name = name }

abbrev crowded : List EditorSection
crowded = named_section (text "Section 3") ∷ named_section (text "Tone") ∷ []

unique_name_is_free_example :
    (n : ℕ) × (unique_name lower crowded ≡ some (text "Section " ++ decimal n))
    × (2 < n)
    × (includes (taken_names lower crowded) (text "section " ++ decimal n) ≡ false)
unique_name_is_free_example = unique_name_is_free lower crowded

unique_name_test : unique_name lower crowded ≡ some (text "Section 4")
unfolding unique_name prompt_maker_studio.Sections.Names.normalize_section_name is_space decimal
unique_name_test = refl
