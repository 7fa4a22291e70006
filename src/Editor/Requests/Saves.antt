-- ===== src/Editor/Requests/Saves.antt =====
-- A save and its answer: what the editor shows afterwards.
use prompt_maker_studio.Base.{
  Text, ℕ, ◌≡◌, refl, ap, ◌∙◌, false, not, Option, none, some, List, [], ◌∷◌, map, arith,
}
use prompt_maker_studio.Api.{Outcome, answered, failed}
use prompt_maker_studio.Sections.Chars.{PromptField}
use prompt_maker_studio.Sections.Names.Laws.{normalize_section_name_idem}
use prompt_maker_studio.Session.Storage.{get_item}
use prompt_maker_studio.Editor.Metadata.{Metadata, snapshot, same_snapshot}
use prompt_maker_studio.Editor.Drafts.{EditorSection, to_fields, draft_key}
use prompt_maker_studio.Editor.Drafts.Laws.{same_snapshot_refl, persist-drops}
use prompt_maker_studio.Editor.State.{
  SavedPrompt, prompt_snapshot, save_task, Editor, fields, dirty, draft_state, keep_draft, key_for,
}
use prompt_maker_studio.Editor.Actions.{show_notice}
use prompt_maker_studio.Editor.Requests.{settle_request, with_names, report_error}

-- Sections that get the names they were sent with are written as the same fields.
to_fields-with_names :
    (ss : List EditorSection) → to_fields (with_names ss (to_fields ss)) ≡ to_fields ss
unfolding to_fields with_names
to_fields-with_names [] = refl
to_fields-with_names (s ∷ ss) =
    rw (normalize_section_name_idem s.name, to_fields-with_names ss) refl

-- A save that is answered with the fields and settings that the editor shows leaves it clean.
pub save_is_clean :
    (fs : List PromptField) (m : Metadata) (n : Option Text) (p : SavedPrompt) (e : Editor)
    → p.fields ≡ fields e
    → prompt_snapshot p ≡ snapshot (fields e) e.metadata
    → dirty (settle_request (save_task fs m n) (answered p) e) ≡ false
unfolding dirty settle_request
save_is_clean fs m n p e sent equal =
    let shown =
      ap (λ f. to_fields (with_names e.sections f)) sent ∙ to_fields-with_names e.sections in
    let both_equal =
      ap (λ b. same_snapshot (snapshot (to_fields (with_names e.sections p.fields)) e.metadata) b)
        equal
      ∙ ap (λ f. same_snapshot (snapshot f e.metadata) (snapshot (fields e) e.metadata)) shown
      ∙ same_snapshot_refl (snapshot (fields e) e.metadata) in
    ap not both_equal

-- And then the effect of `useDraftPersistence` drops its draft, when no values are kept and no
-- import is open.
pub save_drops_draft :
    (fs : List PromptField) (m : Metadata) (n : Option Text) (p : SavedPrompt) (e : Editor)
    (user : Text)
    → e.user ≡ some user
    → e.loading ≡ false
    → e.load_error ≡ false
    → e.values ≡ []
    → e.import_open ≡ false
    → p.fields ≡ fields e
    → prompt_snapshot p ≡ snapshot (fields e) e.metadata
    → let after = settle_request (save_task fs m n) (answered p) e in
      (dirty after ≡ false)
      × (get_item (keep_draft after).drafts (draft_key user e.prompt_id) ≡ none)
unfolding keep_draft draft_state settle_request
save_drops_draft fs m n p e user signed_in loaded no_error no_values closed sent equal =
    let after = settle_request (save_task fs m n) (answered p) e in
    let clean = save_is_clean fs m n p e sent equal in
    (
      clean,
      persist-drops (draft_state after) e.drafts (draft_key user e.prompt_id)
          (ap (λ u. key_for u e.prompt_id) signed_in) loaded no_error
          (rw (clean, no_values, closed) (ground arith)),
    )

abbrev pub content_of : EditorSection → ℕ × Text
content_of s = (s.key, s.content)

with_names-content :
    (ss : List EditorSection) (fs : List PromptField)
    → map content_of (with_names ss fs) ≡ map content_of ss
unfolding with_names
with_names-content [] fs = refl
with_names-content (s ∷ ss) [] = refl
with_names-content (s ∷ ss) (f ∷ fs) = ap (λ r. content_of s ∷ r) (with_names-content ss fs)

-- Whatever the answer to a save, the text of every section stays, with what was typed meanwhile, and
-- so do the settings and the values.
pub save_keeps_text :
    (fs : List PromptField) (m : Metadata) (n : Option Text) (o : Outcome SavedPrompt) (e : Editor)
    → let after = settle_request (save_task fs m n) o e in
      (map content_of after.sections ≡ map content_of e.sections)
      × (after.metadata ≡ e.metadata)
      × (after.values ≡ e.values)
unfolding settle_request report_error show_notice
save_keeps_text fs m n (answered p) e = (with_names-content e.sections p.fields, refl, refl)
save_keeps_text fs m n (failed f) e = ground arith
