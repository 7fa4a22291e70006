-- ===== src/Editor/Requests/Events.antt =====
-- The queue of requests of one editor and a server that it alone writes to: what happens in the
-- editor, one event after another, and what the server says.
use prompt_maker_studio.Base.{
  Text, ℕ, zero, suc, ◌≡◌, ◌⊎◌, false, Option, none, some, List, [], ◌∷◌,
}
use prompt_maker_studio.Api.{Failure, Outcome, answered, failed}
use prompt_maker_studio.Sections.Chars.{PromptField}
use prompt_maker_studio.Editor.Drafts.{EditorSection, NewSection}
use prompt_maker_studio.Editor.State.{
  SavedPrompt, Task, Request, Editor, DraftAction, Imported, stamp, keep_draft,
}
use prompt_maker_studio.Editor.Actions.{
  Offset, update_section, move_section, remove_section, undo_remove, replace_sections,
  apply_refinement, import_sections, undo_draft_action, discard_edits,
}
use prompt_maker_studio.Editor.Requests.{
  begin_task, settle_task, end_save, end_restore, start_save, start_rename, start_move, start_mark,
  start_restore, is_conflict,
}
use prompt_maker_studio.Editor.Choices.{refresh_versions}

-- What the server says to a request made against its own version: the prompt as it now is, or a
-- failure that changed nothing and is no conflict.
abbrev pub IsReply : SavedPrompt → SavedPrompt × Outcome SavedPrompt → Type 0
IsReply s reply =
    ((p : SavedPrompt) × (reply ≡ (p, answered p)))
    ⊎ ((f : Failure) × (reply ≡ (s, failed f)) × (is_conflict f ≡ false))

-- The server that the editor talks to, which only this editor writes to.
pub record Server : Type 0 where
  pub serve : SavedPrompt → Request → SavedPrompt × Outcome SavedPrompt
  pub replies :
      (s : SavedPrompt) (r : Request) → r.last_updated_at ≡ stamp s → IsReply s (serve s r)

-- What happens in an editor that shows no conflict.
pub data Event : Type 0 where
  update : (key : ℕ) (change : EditorSection → EditorSection) → Event
  move : (index : ℕ) (offset : Offset) → Event
  remove : (index : ℕ) → Event
  undo_removal : (index : ℕ) (section : EditorSection) → Event
  replace : List NewSection → Event
  refine : List PromptField → Event
  import : Imported → Event
  undo : DraftAction → Event
  discard : Event
  save : Event
  rename : Text → Event
  move_to_folder : Event
  mark : (version_number : ℕ) → Event
  restore : (version_id version_number : ℕ) → Event
  saved_versions : Outcome (List ℕ) → Event
  restored_versions : ℕ → Outcome (List ℕ) → Event
  other_versions : Outcome (List ℕ) → Event
  store_draft : Event
  -- A task is sent, and the server's answer arrives.
  begin : Event
  answer : Event

pub record World : Type 0 where
  pub editor : Editor
  pub server : SavedPrompt

-- The server serves the request under way, and its answer arrives.
abbrev pub reply_to : Server → Option Request → World → World
reply_to srv none w = w
reply_to srv (some r) w =
    let reply = srv.serve w.server r in
    record { editor = settle_task reply.1 w.editor; server = reply.0 }

unfoldable pub exchange : Server → World → World
exchange srv w = reply_to srv w.editor.request w

module _ (to_upper : Text → Text) where
  -- The handler of an event that involves no request.
  unfoldable pub handle : Event → Editor → Editor
  handle (update key change) e = update_section key change e
  handle (Event.move index offset) e = move_section index offset e
  handle (Event.remove index) e = remove_section index e
  handle (undo_removal index s) e = undo_remove index s e
  handle (Event.replace next) e = replace_sections next e
  handle (Event.refine next) e = apply_refinement next e
  handle (Event.import next) e = import_sections next e
  handle (Event.undo d) e = undo_draft_action d e
  handle Event.discard e = discard_edits e.prompt e
  handle Event.save e = start_save to_upper e
  handle (Event.rename value) e = start_rename value e
  handle Event.move_to_folder e = start_move e
  handle (Event.mark number) e = start_mark number e
  handle (Event.restore id number) e = start_restore id number e
  handle (saved_versions o) e = end_save o e
  handle (restored_versions number o) e = end_restore number o e
  handle (other_versions o) e = refresh_versions o e
  handle store_draft e = keep_draft e
  handle Event.begin e = begin_task e
  handle Event.answer e = e

  unfoldable pub step : Server → Event → World → World
  unfolding exchange handle
  step srv Event.answer w = exchange srv w
  step srv ev w = record w { editor = handle ev w.editor }

  unfoldable pub run : Server → List Event → World → World
  run srv [] w = w
  run srv (ev ∷ evs) w = run srv evs (step srv ev w)

-- The queue is sent to its end, each task after the answer to the one before it.
unfoldable pub drain : Server → ℕ → World → World
unfolding exchange
drain srv zero w = w
drain srv (suc n) w = drain srv n (exchange srv (record w { editor = begin_task w.editor }))

-- The server with the tasks carried out one by one, each on the prompt as it then is.
unfoldable pub carry_out : Server → SavedPrompt → List Task → SavedPrompt
carry_out srv s [] = s
carry_out srv s (t ∷ ts) =
    let r : Request = record { task = t; id = s.id; last_updated_at = stamp s } in
    carry_out srv (srv.serve s r).0 ts
