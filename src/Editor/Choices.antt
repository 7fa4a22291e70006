-- ===== src/Editor/Choices.antt =====
-- features/editor/usePromptEditor.ts: what the user can choose when the prompt has changed elsewhere.
use prompt_maker_studio.Base.{ℕ, false, none, some, List}
use prompt_maker_studio.Api.{Outcome, answered, failed}
use prompt_maker_studio.Editor.State.{SavedPrompt, edits_kept, taken, Editor}
use prompt_maker_studio.Editor.Actions.{show_notice, discard_edits}
use prompt_maker_studio.Editor.Requests.{apply_prompt, report_error}

-- `compareConflict`, with the prompt as the server has it.
unfoldable pub compare_conflict : Outcome SavedPrompt → Editor → Editor
unfolding report_error
compare_conflict (answered p) e = record e { conflict_latest = some p }
compare_conflict (failed f) e = report_error f e

abbrev pub keep_edits : SavedPrompt → Editor → Editor
keep_edits p e = show_notice edits_kept (record (apply_prompt p e) { conflict = false })

-- `reloadAfterConflict`: after Compare, the version that was compared with, and no call.
unfoldable pub reload_after_conflict : Outcome SavedPrompt → Editor → Editor
unfolding report_error show_notice
reload_after_conflict o e = elim e.conflict_latest [
  | some p ↦ keep_edits p e
  | none ↦ elim o [ answered p ↦ keep_edits p e | failed f ↦ report_error f e ]
]

unfoldable pub take_saved_version : Outcome SavedPrompt → Editor → Editor
unfolding report_error show_notice discard_edits
take_saved_version (answered p) e = show_notice taken (discard_edits (some p) (apply_prompt p e))
take_saved_version (failed f) e = report_error f e

-- `refreshVersions`
unfoldable pub refresh_versions : Outcome (List ℕ) → Editor → Editor
refresh_versions (answered vs) e = record e { versions = vs }
refresh_versions (failed f) e = e
