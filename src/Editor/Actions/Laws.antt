-- ===== src/Editor/Actions/Laws.antt =====
-- What undoing brings back, and what discarding leaves.
use prompt_maker_studio.Base.{
  eq_of_some, none_ne_some, get_elem?, ℕ, zero, suc, ◌≡◌, refl, sym, ap, ◌∙◌, ◌≢◌, true, false, not,
  ◌||◌, none, some, List, [], ◌∷◌, map, arith,
}
use prompt_maker_studio.Sections.Variables.{Values}
use prompt_maker_studio.Editor.Metadata.{snapshot, same_snapshot, is_yes, or_no_metadata}
use prompt_maker_studio.Editor.Drafts.{EditorSection, to_fields, to_editor_sections, no_hint}
use prompt_maker_studio.Editor.Drafts.Laws.{
  normal_fields, to_fields-to_editor_sections, same_snapshot_refl,
}
use prompt_maker_studio.Editor.State.{
  SavedPrompt, prompt_snapshot, Imported, removed, Editor, fields, dirty, differs, remove_at,
}
use prompt_maker_studio.Editor.Actions.{
  remove_section, drop_section, undo_remove, insert_at, show_notice, show_sections, import_sections,
  undo_draft_action, is_as_imported, same_values, Values-discrete, press_undo, discard_edits,
}

insert_at-remove_at {ℓ} :
    {A : Type ℓ} (i : ℕ) (xs : List A) (x : A)
    → get_elem? xs i ≡ some x
    → insert_at i x (remove_at i xs) ≡ xs
unfolding insert_at
insert_at-remove_at i [] x h = absurd (none_ne_some h)
insert_at-remove_at zero (y ∷ xs) x h = ap (λ z. z ∷ xs) (sym (eq_of_some _ _ h))
insert_at-remove_at (suc i) (y ∷ xs) x h = ap (λ zs. y ∷ zs) (insert_at-remove_at i xs x h)

-- The sections that are left, when the removed one was not the only one.
drop_section-sections :
    (i : ℕ) (e : Editor)
    → remove_at i e.sections ≢ []
    → (drop_section i e).sections ≡ remove_at i e.sections
unfolding drop_section
drop_section-sections i e h = ground arith

remove_section-sections :
    (i : ℕ) (s : EditorSection) (e : Editor)
    → get_elem? e.sections i ≡ some s
    → remove_at i e.sections ≢ []
    → (remove_section i e).sections ≡ remove_at i e.sections
unfolding remove_section show_notice
remove_section-sections i s e found others =
    ap
      (λ o.
        (elim o as (λ x. Editor) [
          | none ↦ e
          | some t ↦ show_notice (removed i t) (drop_section i e)
        ]).sections)
      found
    ∙ drop_section-sections i e others

-- Undo of a removal puts the section back in its place, when it was not the only one.
pub undo_remove-remove_section :
    (i : ℕ) (s : EditorSection) (e : Editor)
    → get_elem? e.sections i ≡ some s
    → remove_at i e.sections ≢ []
    → (undo_remove i s (remove_section i e)).sections ≡ e.sections
unfolding undo_remove
undo_remove-remove_section i s e found others =
    ap (insert_at i s) (remove_section-sections i s e found others)
    ∙ insert_at-remove_at i e.sections s found

same_values_refl : (v : Values) → same_values v v ≡ true
unfolding same_values
same_values_refl v = by_decision (Values-discrete v v)
  where
    by_decision : (d : Dec (v ≡ v)) → is_yes d ≡ true
    by_decision (yes e) = refl
    by_decision (no n) = absurd (n refl)

-- When the Undo button is pressed right after an import, while no save is under way and the
-- refinement is not open, and the imported names are written as `normalizeSectionName` writes them,
-- the sections, the settings of the variables, the values, whether values are remembered, the mode,
-- the tab, whether the preview is open and the import session are what they were before the import,
-- and the notice is gone.
pub undo_import :
    (next : Imported) (e : Editor)
    → normal_fields next.fields ≡ next.fields
    → (e.refine_open || e.saving) ≡ false
    → let after = press_undo (import_sections next e) in
      (after.sections ≡ e.sections)
      × (after.metadata ≡ e.metadata)
      × (after.values ≡ e.values)
      × (after.remember_values ≡ e.remember_values)
      × (after.mode ≡ e.mode)
      × (after.mobile_tab ≡ e.mobile_tab)
      × (after.preview_open ≡ e.preview_open)
      × (after.import_session ≡ e.import_session)
      × (after.draft_action ≡ none)
unfolding press_undo undo_draft_action import_sections is_as_imported show_sections
undo_import next e h enabled =
    let shown = to_fields-to_editor_sections e.next_key next.fields false ∙ h in
    let same =
      ap (λ f. same_snapshot (snapshot f next.metadata) (snapshot next.fields next.metadata)) shown
      ∙ same_snapshot_refl (snapshot next.fields next.metadata) in
    rw (enabled, same, same_values_refl next.values)
      (refl, refl, refl, refl, refl, refl, refl, refl, refl)

-- After discarding, a saved prompt whose names are written as `normalizeSectionName` writes them has
-- no unsaved change.
pub discard_is_clean :
    (p : SavedPrompt) (e : Editor)
    → normal_fields p.fields ≡ p.fields
    → e.prompt ≡ some p
    → (dirty (discard_edits (some p) e) ≡ false) × (fields (discard_edits (some p) e) ≡ p.fields)
unfolding dirty discard_edits show_sections prompt_snapshot
discard_is_clean p e h has_prompt =
    let shown = to_fields-to_editor_sections e.next_key p.fields true ∙ h in
    let metadata = or_no_metadata p.metadata in
    (
      ap
            (λ q.
              differs q (to_fields (to_editor_sections e.next_key (map no_hint p.fields) true))
                metadata)
            has_prompt
          ∙ ap (λ f. not (same_snapshot (snapshot f metadata) (snapshot p.fields metadata))) shown
          ∙ ap not (same_snapshot_refl (snapshot p.fields metadata)),
      shown,
    )
