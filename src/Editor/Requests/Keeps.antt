-- ===== src/Editor/Requests/Keeps.antt =====
-- What the handlers of the editor leave as it is: its saved prompt, the request under way, and that
-- there is no conflict.
use prompt_maker_studio.Base.{
  Text, ℕ, zero, suc, ◌≡◌, refl, ◌∙◌, ◌⊎◌, inl, inr, false, Option, none, some, List, arith,
}
use prompt_maker_studio.Api.{Outcome, answered, failed}
use prompt_maker_studio.Sections.Chars.{PromptField}
use prompt_maker_studio.Editor.Drafts.{EditorSection, NewSection}
use prompt_maker_studio.Editor.State.{
  SavedPrompt, Editor, DraftAction, refined, imported, Imported, keep_draft,
}
use prompt_maker_studio.Editor.Actions.{
  Offset, up, down, update_section, move_section, remove_section, drop_section, undo_remove,
  replace_sections, apply_refinement, import_sections, undo_draft_action, discard_edits, show_blank,
  show_notice, show_sections,
}
use prompt_maker_studio.Editor.Requests.{
  begin_task, end_save, end_restore, start_save, start_rename, start_move, start_mark,
  start_restore, enqueue,
}
use prompt_maker_studio.Editor.Choices.{refresh_versions}
use prompt_maker_studio.Editor.Requests.Events.{
  Event, handle, update, undo_removal, saved_versions, restored_versions, other_versions,
  store_draft,
}

-- The parts of the state that decide which requests are sent stay as they are.
unfoldable pub Keeps : Editor → Editor → Type 0
Keeps a b =
    (a.prompt ≡ b.prompt) × (a.request ≡ b.request) × (b.conflict ≡ false → a.conflict ≡ false)

kept :
    (a b : Editor)
    → a.prompt ≡ b.prompt
    → a.request ≡ b.request
    → (b.conflict ≡ false → a.conflict ≡ false)
    → Keeps a b
unfolding Keeps
kept a b p r c = (p, r, c)

-- The state changes in no part that `Keeps` reads.
unchanged :
    (a b : Editor)
    → a.prompt ≡ b.prompt
    → a.request ≡ b.request
    → a.conflict ≡ b.conflict
    → Keeps a b
unchanged a b p r c = kept a b p r (λ h. c ∙ h)

drop_section-Keeps : (i : ℕ) (e : Editor) → Keeps (drop_section i e) e
unfolding drop_section show_blank Keeps
drop_section-Keeps i e = ground arith

remove_section-Keeps : (i : ℕ) (e : Editor) → Keeps (remove_section i e) e
unfolding remove_section drop_section show_blank show_notice Keeps
remove_section-Keeps i e = ground arith

move_section-Keeps : (i : ℕ) (o : Offset) (e : Editor) → Keeps (move_section i o e) e
unfolding move_section
move_section-Keeps zero up e = unchanged _ e refl refl refl
move_section-Keeps (suc i) up e = unchanged _ e refl refl refl
move_section-Keeps zero down e = unchanged _ e refl refl refl
move_section-Keeps (suc i) down e = unchanged _ e refl refl refl

undo-Keeps : (d : DraftAction) (e : Editor) → Keeps (undo_draft_action d e) e
unfolding undo_draft_action show_notice Keeps
undo-Keeps (refined before next) e = ground arith
undo-Keeps (imported before next) e = ground arith

discard-Keeps : (base : Option SavedPrompt) (e : Editor) → Keeps (discard_edits base e) e
unfolding discard_edits show_blank show_sections
discard-Keeps none e = kept _ e refl refl (λ h. refl)
discard-Keeps (some p) e = kept _ e refl refl (λ h. refl)

start_save-Keeps : (to_upper : Text → Text) (e : Editor) → Keeps (start_save to_upper e) e
unfolding start_save show_notice enqueue Keeps
start_save-Keeps to_upper e = ground arith

start_rename-Keeps : (value : Text) (e : Editor) → Keeps (start_rename value e) e
unfolding start_rename enqueue Keeps
start_rename-Keeps value e = ground arith

end_save-Keeps : (o : Outcome (List ℕ)) (e : Editor) → Keeps (end_save o e) e
unfolding end_save show_notice
end_save-Keeps (answered vs) e = unchanged _ e refl refl refl
end_save-Keeps (failed f) e = unchanged _ e refl refl refl

end_restore-Keeps : (n : ℕ) (o : Outcome (List ℕ)) (e : Editor) → Keeps (end_restore n o e) e
unfolding end_restore show_notice
end_restore-Keeps n (answered vs) e = unchanged _ e refl refl refl
end_restore-Keeps n (failed f) e = unchanged _ e refl refl refl

refresh_versions-Keeps : (o : Outcome (List ℕ)) (e : Editor) → Keeps (refresh_versions o e) e
unfolding refresh_versions
refresh_versions-Keeps (answered vs) e = unchanged _ e refl refl refl
refresh_versions-Keeps (failed f) e = unchanged _ e refl refl refl

update_section-Keeps :
    (key : ℕ) (change : EditorSection → EditorSection) (e : Editor)
    → Keeps (update_section key change e) e
unfolding update_section
update_section-Keeps key change e = unchanged _ e refl refl refl

undo_remove-Keeps : (i : ℕ) (s : EditorSection) (e : Editor) → Keeps (undo_remove i s e) e
unfolding undo_remove
undo_remove-Keeps i s e = unchanged _ e refl refl refl

replace_sections-Keeps : (next : List NewSection) (e : Editor) → Keeps (replace_sections next e) e
unfolding replace_sections show_sections
replace_sections-Keeps next e = unchanged _ e refl refl refl

apply_refinement-Keeps : (next : List PromptField) (e : Editor) → Keeps (apply_refinement next e) e
unfolding apply_refinement
apply_refinement-Keeps next e = unchanged _ e refl refl refl

import_sections-Keeps : (next : Imported) (e : Editor) → Keeps (import_sections next e) e
unfolding import_sections show_sections
import_sections-Keeps next e = unchanged _ e refl refl refl

start_move-Keeps : (e : Editor) → Keeps (start_move e) e
unfolding start_move enqueue
start_move-Keeps e = unchanged _ e refl refl refl

start_mark-Keeps : (n : ℕ) (e : Editor) → Keeps (start_mark n e) e
unfolding start_mark enqueue
start_mark-Keeps n e = unchanged _ e refl refl refl

start_restore-Keeps : (id n : ℕ) (e : Editor) → Keeps (start_restore id n e) e
unfolding start_restore enqueue
start_restore-Keeps id n e = unchanged _ e refl refl refl

keep_draft-Keeps : (e : Editor) → Keeps (keep_draft e) e
unfolding keep_draft
keep_draft-Keeps e = unchanged _ e refl refl refl

pub handle-Keeps :
    (to_upper : Text → Text) (ev : Event) (e : Editor)
    → Keeps (handle to_upper ev e) e ⊎ (handle to_upper ev e ≡ begin_task e)
unfolding handle
handle-Keeps u (update key change) e = inl (update_section-Keeps key change e)
handle-Keeps u (Event.move i o) e = inl (move_section-Keeps i o e)
handle-Keeps u (Event.remove i) e = inl (remove_section-Keeps i e)
handle-Keeps u (undo_removal i s) e = inl (undo_remove-Keeps i s e)
handle-Keeps u (Event.replace next) e = inl (replace_sections-Keeps next e)
handle-Keeps u (Event.refine next) e = inl (apply_refinement-Keeps next e)
handle-Keeps u (Event.import next) e = inl (import_sections-Keeps next e)
handle-Keeps u (Event.undo d) e = inl (undo-Keeps d e)
handle-Keeps u Event.discard e = inl (discard-Keeps e.prompt e)
handle-Keeps u Event.save e = inl (start_save-Keeps u e)
handle-Keeps u (Event.rename value) e = inl (start_rename-Keeps value e)
handle-Keeps u Event.move_to_folder e = inl (start_move-Keeps e)
handle-Keeps u (Event.mark n) e = inl (start_mark-Keeps n e)
handle-Keeps u (Event.restore id n) e = inl (start_restore-Keeps id n e)
handle-Keeps u (saved_versions o) e = inl (end_save-Keeps o e)
handle-Keeps u (restored_versions n o) e = inl (end_restore-Keeps n o e)
handle-Keeps u (other_versions o) e = inl (refresh_versions-Keeps o e)
handle-Keeps u store_draft e = inl (keep_draft-Keeps e)
handle-Keeps u Event.begin e = inr refl
handle-Keeps u Event.answer e = inl (unchanged _ e refl refl refl)
