-- ===== src/Editor/Requests.antt =====
-- features/editor/usePromptEditor.ts: the handlers that call the server. A `start_` function runs a
-- handler to its call, `begin_task` sends the next task of the queue, stamped with the prompt as it
-- is then, and the `settle_` and `end_` functions continue with an answer.
pub mod Events
pub mod Keeps
pub mod Conflicts
pub mod Saves
mod Examples
use prompt_maker_studio.Base.{
  ltb, leb, ◌==◌, if◌then◌else◌, ==_iff, ==_refl, Bool-cases, Option-cases, both, either,
  eq_of_some, same, none_ne_some, false_ne_true, true_of_not, false_of_not, length, get_elem?, take,
  drop, filter, any, all, find?, All, concat, slice, drop-drop, length-append, take-append-drop,
  slice-append-drop, length-take, length-drop, take-append-length, drop-append-length,
  filter-append, length-filter-le, drop-all, slice-empty, concat-append, length-reverse, Text, text,
  text_eq, text_eq_refl, eq_of_text_eq, text_eq_iff, text_eq_comm, includes, is_space, trim_start,
  trim_end, trim, is_empty, join, take_while, drop_while, strip, length-strip, eq_of_strip,
  strip-append, length-drop_while, length-trim_start, push_new, push_all, set_of, first_uses,
  IsDistinct, includes-append, filter-filter, push_all-first_uses, set_of-first_uses,
  includes-first_uses, first_uses-IsDistinct, IsDistinct-snoc, push_new-cons, digits, decimal,
  decimal_inj, trim_idem, ℕ, zero, suc, ◌+◌, ◌-◌, ◌*◌, ◌/◌, ◌%◌, ◌≤◌, ◌<◌, max, min, ◌≡◌, refl, sym,
  ap, ap₂, ◌∙◌, subst, fun_ext, ◌≢◌, ◌↔◌, ◌⊎◌, inl, inr, Bool, true, false, not, ◌&&◌, ◌||◌, Option,
  none, some, some-injective, List, [], ◌∷◌, ◌++◌, map, append-nil, append_assoc, map-append, arith,
}
use prompt_maker_studio.Api.{
  Failure, api_error, other_error, not_an_error, Outcome, answered, failed,
}
use prompt_maker_studio.Sections.Chars.{PromptField}
use prompt_maker_studio.Sections.Variables.{Values}
use prompt_maker_studio.Session.Storage.{set_item, remove_item}
use prompt_maker_studio.Editor.Metadata.{Metadata, snapshot, or_no_metadata, if_text}
use prompt_maker_studio.Editor.Drafts.{EditorSection, Draft, Drafts, draft_key, no_hint}
use prompt_maker_studio.Editor.State.{
  SavedPrompt, SaveDialog, DialogError, too_long, no_name, save_failed, reported, Notice,
  names_wrong, sections_too_long, saved, saved_without_history, edits_kept, taken, failure,
  restored, restored_without_history, marked, moved, Task, save_task, rename_task, move_task,
  mark_task, restore_task, Request, Create, Editor, fields, dirty, own_draft_key, key_for,
  code_points, stamp, has_name_error, prompt_snapshot,
}
use prompt_maker_studio.Editor.Actions.{
  show_notice, show_sections, discard_edits, or_text, otherwise,
}

abbrev pub apply_prompt : SavedPrompt → Editor → Editor
apply_prompt p e = record e { prompt = some p }

-- `enqueue`
unfoldable pub enqueue : Task → Editor → Editor
enqueue t e = record e { queue = e.queue ++ t ∷ [] }

abbrev pub send : Option SavedPrompt → List Task → Editor → Editor
send none ts e = e
send (some p) [] e = e
send (some p) (t ∷ ts) e = record e {
  queue = ts;
  request = some (record { task = t; id = p.id; last_updated_at = stamp p });
}

abbrev pub begin_with : Option Request → Editor → Editor
begin_with none e = send e.prompt e.queue e
begin_with (some r) e = e

-- The next task starts when none is under way.
unfoldable pub begin_task : Editor → Editor
begin_task e = begin_with e.request e

abbrev pub failure_text : Failure → Option Text
failure_text (api_error status message) = some message
failure_text (other_error message) = some message
failure_text not_an_error = none

abbrev pub is_conflict : Failure → Bool
is_conflict (api_error status message) = status == 409
is_conflict _ = false

unfoldable pub report_error : Failure → Editor → Editor
unfolding show_notice
report_error f e =
    if is_conflict f
    then record e { conflict = true; conflict_latest = none }
    else show_notice (failure (failure_text f)) e

abbrev pub is_too_long : List PromptField → Bool
is_too_long fs = any (λ f. ltb 10000 (code_points f.content)) fs

abbrev pub touch : EditorSection → EditorSection
touch s = record s { touched = true }

abbrev pub touch_all : Editor → Editor
touch_all e = record e { sections = map touch e.sections }

abbrev pub open_save_dialog : Editor → Editor
open_save_dialog e = record e {
  save_dialog =
      some (record { name = e.save_defaults.0; folder = e.save_defaults.1; error = none });
}

module _ (to_upper : Text → Text) where
  -- `save`, to its call.
  unfoldable pub start_save : Editor → Editor
  unfolding show_notice enqueue dirty has_name_error
  start_save e =
      if e.saving || e.refine_open
      then e
      else if has_name_error to_upper e
      then show_notice names_wrong (touch_all e)
      else if is_too_long (fields e)
      then show_notice sections_too_long (touch_all e)
      else elim e.prompt [
        | none ↦ open_save_dialog (touch_all e)
        | some p ↦
            if dirty e
            then record (enqueue (save_task (fields e) e.metadata (if_text (some (trim e.note))))
                (touch_all e)) { saving = true }
            else touch_all e
      ]

-- `name: updated.fields[i]?.name ?? s.name`
unfoldable pub with_names : List EditorSection → List PromptField → List EditorSection
with_names [] fs = []
with_names (s ∷ ss) [] = s ∷ ss
with_names (s ∷ ss) (f ∷ fs) = record s { name = f.name } ∷ with_names ss fs

-- The handler of the request under way, once its answer is there. A save still loads the versions.
unfoldable pub settle_request : Task → Outcome SavedPrompt → Editor → Editor
unfolding show_notice show_sections with_names report_error
settle_request (save_task fs metadata n) (answered p) e = record (apply_prompt p e) {
  sections = with_names e.sections p.fields;
  note = [];
  restored_draft = false;
  conflict = false;
  draft_action = none;
}
settle_request (save_task fs metadata n) (failed f) e = record (report_error f e) { saving = false }
settle_request (rename_task name) (answered p) e = apply_prompt p e
settle_request (rename_task name) (failed f) e = report_error f e
settle_request (move_task folder) (answered p) e = show_notice (moved folder) (apply_prompt p e)
settle_request (move_task folder) (failed f) e = report_error f e
settle_request (mark_task number) (answered p) e = show_notice (marked number) (apply_prompt p e)
settle_request (mark_task number) (failed f) e = report_error f e
settle_request (restore_task id number) (answered p) e =
    record (show_sections (map no_hint p.fields) true (apply_prompt p e)) {
      metadata = or_no_metadata p.metadata;
    }
settle_request (restore_task id number) (failed f) e = report_error f e

abbrev pub settle_with : Option Request → Outcome SavedPrompt → Editor → Editor
settle_with none o e = e
settle_with (some r) o e = settle_request r.task o (record e { request = none })

unfoldable pub settle_task : Outcome SavedPrompt → Editor → Editor
unfolding settle_request
settle_task o e = settle_with e.request o e

-- The versions after a save, and the `finally` of `save`.
unfoldable pub end_save : Outcome (List ℕ) → Editor → Editor
unfolding show_notice
end_save (answered vs) e = record (show_notice saved (record e { versions = vs })) {
  saving = false;
}
end_save (failed f) e = record (show_notice saved_without_history e) { saving = false }

unfoldable pub end_restore : ℕ → Outcome (List ℕ) → Editor → Editor
unfolding show_notice
end_restore number (answered vs) e = show_notice (restored number) (record e { versions = vs })
end_restore number (failed f) e = show_notice (restored_without_history number) e

unfoldable pub start_restore : ℕ → ℕ → Editor → Editor
unfolding enqueue
start_restore id number e = enqueue (restore_task id number) e

abbrev pub has_name : SavedPrompt → Text → Bool
has_name p name = elim p.name [ none ↦ false | some n ↦ text_eq name n ]

unfoldable pub start_rename : Text → Editor → Editor
unfolding enqueue
start_rename value e = elim e.prompt [
  | none ↦ e
  | some p ↦
      if is_empty (trim value) || has_name p (trim value)
      then e
      else enqueue (rename_task (trim value)) e
]

unfoldable pub start_mark : ℕ → Editor → Editor
unfolding enqueue
start_mark number e = enqueue (mark_task number) e

-- `move`: the folder of the dialog, which closes.
unfoldable pub start_move : Editor → Editor
unfolding enqueue
start_move e =
    enqueue (move_task (trim (otherwise e.move_dialog []))) (record e { move_dialog = none })
