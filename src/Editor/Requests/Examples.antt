-- ===== src/Editor/Requests/Examples.antt =====
-- Tests of the requests of the editor against a small server, and of the theorems about them.
use prompt_maker_studio.Base.{
  none_ne_some, Text, text, is_space, ◌≡◌, refl, inl, true, false, none, some, List, [], ◌∷◌, map,
}
use prompt_maker_studio.Api.{answered, failed, api_error}
use prompt_maker_studio.Sections.Chars.{PromptField}
use prompt_maker_studio.Session.Storage.{get_item, clear_user_content}
use prompt_maker_studio.Editor.Metadata.{snapshot}
use prompt_maker_studio.Editor.Drafts.{
  EditorSection, NewSection, to_fields, draft_key, persist, no_hint,
}
use prompt_maker_studio.Editor.State.{
  SavedPrompt, prompt_snapshot, Task, save_task, rename_task, move_task, mark_task, restore_task,
  Request, Imported, imported, Editor, fields, dirty, draft_state, keep_draft, Notice,
}
use prompt_maker_studio.Editor.Actions.{
  down, update_section, move_section, remove_section, undo_remove, replace_sections,
  import_sections, undo_draft_action, before,
}
use prompt_maker_studio.Editor.Requests.{
  settle_request, start_save, begin_task, settle_task, end_save,
}
use prompt_maker_studio.Editor.Requests.Events.{
  Event, update, move, remove, saved_versions, store_draft, Server, World, run, drain, carry_out,
}
use prompt_maker_studio.Editor.Requests.Conflicts.{InStep, run-InStep, drain-carry_out}
use prompt_maker_studio.Editor.Requests.Saves.{save_drops_draft, save_keeps_text, content_of}
use prompt_maker_studio.Editor.Reloading.{first_state, settle_load, hydrate}
use prompt_maker_studio.Editor.Reloading.Laws.{reload_restores, restored_parts}
use prompt_maker_studio.Editor.Samples.{on_server, ann, changed_editor}

-- A server that takes what it gets and stamps each version anew.
abbrev written : SavedPrompt → Task → SavedPrompt
written s (save_task fs metadata n) = record s { fields = fs; metadata = some metadata }
written s (rename_task name) = record s { name = some name }
written s (move_task folder) = record s { folder = some folder }
written s (mark_task number) = record s { known_good = some number }
written s (restore_task id number) = s

abbrev stamped : SavedPrompt → SavedPrompt
stamped s = record s { updated_at = some (elim s.updated_at [ none ↦ text "t" | some t ↦ 33 ∷ t ]) }

abbrev plain_server : Server
plain_server = record {
  serve = λ s r. (stamped (written s r.task), answered (stamped (written s r.task)));
  replies = λ s r h. inl (stamped (written s r.task), refl);
}

abbrev upper : Text → Text
upper s = s

abbrev at_work : World
at_work = record { editor = changed_editor; server = on_server }

at_work-InStep : InStep at_work
unfolding update_section settle_load prompt_maker_studio.Editor.Drafts.read_draft first_state
    get_item prompt_maker_studio.Sections.Variables.variables_in prompt_maker_studio.Scan.match_all
    prompt_maker_studio.Sections.Variables.variable_at
at_work-InStep = (refl, refl, λ r h. absurd (none_ne_some h))

-- A save, and a rename before its answer is there.
abbrev two_requests : List Event
two_requests =
    Event.save
    ∷ Event.begin
    ∷ Event.rename (text "Note")
    ∷ Event.answer
    ∷ saved_versions (answered (2 ∷ 1 ∷ []))
    ∷ Event.begin
    ∷ Event.answer
    ∷ []

two_requests_test :
    let w = run upper plain_server two_requests at_work in
    (w.server.name ≡ some (text "Note"))
    × (w.server.updated_at ≡ some (text "!t"))
    × (w.editor.prompt ≡ some w.server)
    × (dirty w.editor ≡ false)
unfolding prompt_maker_studio.Editor.Requests.Events.step
    prompt_maker_studio.Editor.Requests.Events.run prompt_maker_studio.Editor.Requests.begin_task
    prompt_maker_studio.Editor.Requests.start_save prompt_maker_studio.Editor.Requests.settle_task
    prompt_maker_studio.Editor.Requests.end_save prompt_maker_studio.Editor.Requests.start_rename
    prompt_maker_studio.Editor.Actions.update_section prompt_maker_studio.Editor.State.code_points
    prompt_maker_studio.Editor.Drafts.to_fields prompt_maker_studio.Editor.Drafts.read_draft
    prompt_maker_studio.Editor.Metadata.sort_entries prompt_maker_studio.Editor.Metadata.snapshot
    prompt_maker_studio.Editor.Metadata.same_snapshot
    prompt_maker_studio.Editor.Reloading.first_state
    prompt_maker_studio.Editor.Reloading.settle_load
    prompt_maker_studio.Sections.Names.normalize_section_name
    prompt_maker_studio.Sections.Names.is_valid_name prompt_maker_studio.Sections.Names.section_tag
    prompt_maker_studio.Sections.Names.section_name_error
    prompt_maker_studio.Sections.Variables.variable_at
    prompt_maker_studio.Sections.Variables.variables_in prompt_maker_studio.Scan.match_all
    prompt_maker_studio.Session.Storage.get_item is_space
    prompt_maker_studio.Sections.Chars.is_section_char
two_requests_test = (refl, refl, refl, refl)

-- Sections that change places while a save is under way get each other's names from its answer.
moved_while_saving_test :
    let w =
      run upper plain_server (Event.save ∷ Event.begin ∷ move 0 down ∷ Event.answer ∷ []) at_work in
    fields w.editor
    ≡ record { name = text "Task"; content = text "Kind." }
      ∷ record { name = text "Tone"; content = text "Write it." }
      ∷ []
unfolding prompt_maker_studio.Editor.Requests.Events.step
    prompt_maker_studio.Editor.Requests.Events.run prompt_maker_studio.Editor.Requests.begin_task
    prompt_maker_studio.Editor.Requests.start_save prompt_maker_studio.Editor.Requests.settle_task
    prompt_maker_studio.Editor.Actions.update_section prompt_maker_studio.Editor.Actions.swap_at
    prompt_maker_studio.Editor.Actions.move_section prompt_maker_studio.Editor.State.code_points
    prompt_maker_studio.Editor.Drafts.to_fields prompt_maker_studio.Editor.Drafts.read_draft
    prompt_maker_studio.Editor.Metadata.snapshot prompt_maker_studio.Editor.Metadata.same_snapshot
    prompt_maker_studio.Editor.Reloading.first_state
    prompt_maker_studio.Editor.Reloading.settle_load
    prompt_maker_studio.Sections.Names.normalize_section_name
    prompt_maker_studio.Sections.Names.is_valid_name prompt_maker_studio.Sections.Names.section_tag
    prompt_maker_studio.Sections.Names.section_name_error
    prompt_maker_studio.Sections.Variables.variable_at
    prompt_maker_studio.Sections.Variables.variables_in prompt_maker_studio.Scan.match_all
    prompt_maker_studio.Session.Storage.get_item is_space
    prompt_maker_studio.Sections.Chars.is_section_char
moved_while_saving_test = refl

-- A save that the server refuses since the prompt has changed elsewhere shows the conflict.
conflict_test :
    let e = begin_task (start_save upper changed_editor) in
    let e' = settle_task (failed (api_error 409 (text "Changed"))) e in
    (e'.conflict ≡ true) × (fields e' ≡ fields e) × (e'.saving ≡ false)
unfolding prompt_maker_studio.Editor.Requests.begin_task
    prompt_maker_studio.Editor.Requests.start_save prompt_maker_studio.Editor.Requests.settle_task
    prompt_maker_studio.Editor.Actions.update_section prompt_maker_studio.Editor.State.code_points
    prompt_maker_studio.Editor.Drafts.to_fields prompt_maker_studio.Editor.Drafts.read_draft
    prompt_maker_studio.Editor.Metadata.snapshot prompt_maker_studio.Editor.Metadata.same_snapshot
    prompt_maker_studio.Editor.Reloading.first_state
    prompt_maker_studio.Editor.Reloading.settle_load
    prompt_maker_studio.Sections.Names.normalize_section_name
    prompt_maker_studio.Sections.Names.is_valid_name prompt_maker_studio.Sections.Names.section_tag
    prompt_maker_studio.Sections.Names.section_name_error
    prompt_maker_studio.Sections.Variables.variable_at
    prompt_maker_studio.Sections.Variables.variables_in prompt_maker_studio.Scan.match_all
    prompt_maker_studio.Session.Storage.get_item is_space
    prompt_maker_studio.Sections.Chars.is_section_char
conflict_test = (refl, refl, refl)

run-InStep_example : InStep (run upper plain_server two_requests at_work)
run-InStep_example = run-InStep plain_server upper two_requests at_work at_work-InStep

-- Two tasks that wait: a mark and a rename.
abbrev waiting : World
waiting = run upper plain_server (Event.mark 1 ∷ Event.rename (text "Note") ∷ []) at_work

waiting-InStep : InStep waiting
waiting-InStep = run-InStep plain_server upper _ at_work at_work-InStep

abbrev two_tasks : List Task
two_tasks = mark_task 1 ∷ rename_task (text "Note") ∷ []

drain-carry_out_example :
    ((drain plain_server 2 waiting).server ≡ carry_out plain_server on_server two_tasks)
    × ((drain plain_server 2 waiting).editor.queue ≡ [])
    × ((drain plain_server 2 waiting).editor.request ≡ none)
    × ((drain plain_server 2 waiting).editor.conflict ≡ false)
unfolding run prompt_maker_studio.Editor.Requests.Events.step
    prompt_maker_studio.Editor.Requests.start_rename prompt_maker_studio.Editor.Requests.start_mark
    update_section settle_load prompt_maker_studio.Editor.Drafts.read_draft first_state get_item
    prompt_maker_studio.Sections.Variables.variables_in prompt_maker_studio.Scan.match_all
    prompt_maker_studio.Sections.Variables.variable_at is_space
drain-carry_out_example = drain-carry_out plain_server two_tasks waiting waiting-InStep refl refl

reload_restores_example :
    let again =
      settle_load
        (answered (on_server, 1 ∷ []))
        (first_state (some 7) (some ann) none false (keep_draft changed_editor).drafts) in
    (restored_parts again ≡ (fields changed_editor, [], [], [], true, some on_server))
    × (dirty again ≡ true)
unfolding update_section settle_load prompt_maker_studio.Editor.Drafts.read_draft first_state
    get_item prompt_maker_studio.Sections.Variables.variables_in prompt_maker_studio.Scan.match_all
    prompt_maker_studio.Sections.Variables.variable_at dirty
    prompt_maker_studio.Editor.Metadata.same_snapshot snapshot to_fields
    prompt_maker_studio.Sections.Names.normalize_section_name is_space
reload_restores_example =
    reload_restores 7 ann on_server (1 ∷ []) none changed_editor refl refl refl refl refl refl

abbrev saved_answer : SavedPrompt
saved_answer = record on_server { fields = fields changed_editor; updated_at = some (text "t1") }

save_drops_draft_example :
    let after =
      settle_request
        (save_task (fields changed_editor) [] none)
        (answered saved_answer)
        (keep_draft changed_editor) in
    (dirty after ≡ false) × (get_item (keep_draft after).drafts (draft_key ann (some 7)) ≡ none)
unfolding keep_draft update_section settle_load prompt_maker_studio.Editor.Drafts.read_draft
    first_state get_item prompt_maker_studio.Sections.Variables.variables_in
    prompt_maker_studio.Scan.match_all prompt_maker_studio.Sections.Variables.variable_at
save_drops_draft_example =
    save_drops_draft (fields changed_editor) [] none saved_answer (keep_draft changed_editor) ann
      refl refl refl refl refl refl refl

save_keeps_text_example :
    let after =
      settle_request
        (save_task [] [] none)
        (answered saved_answer)
        (move_section 0 down changed_editor) in
    (map content_of after.sections ≡ (2, text "Kind.") ∷ (1, text "Write it.") ∷ [])
    × (after.metadata ≡ [])
    × (after.values ≡ [])
unfolding move_section prompt_maker_studio.Editor.Actions.swap_at update_section settle_load
    prompt_maker_studio.Editor.Drafts.read_draft first_state get_item
    prompt_maker_studio.Sections.Variables.variables_in prompt_maker_studio.Scan.match_all
    prompt_maker_studio.Sections.Variables.variable_at
save_keeps_text_example =
    save_keeps_text [] [] none (answered saved_answer) (move_section 0 down changed_editor)
