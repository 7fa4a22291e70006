-- ===== src/Editor/Reloading/Laws.antt =====
-- A page that is loaded again picks up where the draft left off.
use mathlib.Core.Option
use prompt_maker_studio.Base.{
  if◌then◌else◌, Bool-cases, Text, ℕ, ◌≡◌, refl, sym, ap, ◌∙◌, inl, inr, Bool, true, false, ◌||◌,
  Option, none, some, List, [],
}
use prompt_maker_studio.Api.{answered}
use prompt_maker_studio.Sections.Chars.{PromptField}
use prompt_maker_studio.Sections.Variables.{Values, variables_in}
use prompt_maker_studio.Editor.Metadata.{Metadata, Snapshot, or_no_metadata}
use prompt_maker_studio.Editor.Metadata.Laws.{snapshot_idem}
use prompt_maker_studio.Editor.Drafts.{
  Draft, read_draft, has_base, draft_key, draft_of, is_nil, renew_base,
}
use prompt_maker_studio.Editor.Drafts.Laws.{
  normal_fields, normal_fields-to_fields, to_fields-to_editor_sections, same_snapshot_refl,
  persist-get_item,
}
use prompt_maker_studio.Editor.State.{
  SavedPrompt, prompt_snapshot, Mode, Editor, fields, dirty, differs, draft_state, keep_draft,
  own_draft_key, key_for,
}
use prompt_maker_studio.Editor.Actions.{otherwise, show_sections}
use prompt_maker_studio.Editor.Reloading.{
  first_state, show_draft, restore_inputs, show_loaded, current_draft, is_restored, ready_to_fill,
  settle_load, has_text,
}

-- The parts of an editor that a draft restores.
abbrev pub Restored : Type 0
Restored = List PromptField × Metadata × Text × Values × Bool × Option SavedPrompt

abbrev pub restored_parts : Editor → Restored
restored_parts e = (fields e, e.metadata, e.note, e.values, e.restored_draft, e.prompt)

ready_to_fill_parts :
    (fs : List PromptField) (r : Bool) (e : Editor)
    → restored_parts (ready_to_fill fs r e) ≡ restored_parts e
ready_to_fill_parts fs r e = elim (Bool-cases (is_nil (variables_in fs))) [
  | inl none_there ↦ rw none_there refl
  | inr some_there ↦ rw some_there refl
]

-- A draft that was made against the saved prompt is what a load shows.
load_draft :
    (p : SavedPrompt) (vs : List ℕ) (d : Draft) (e : Editor)
    → read_draft (own_draft_key e) e.drafts ≡ some d
    → has_base d.base (prompt_snapshot p) ≡ true
    → restored_parts (settle_load (answered (p, vs)) e) ≡ (
      normal_fields d.sections,
      d.metadata,
      otherwise d.note [],
      otherwise d.values [],
      is_restored d (prompt_snapshot p),
      some p,
    )
unfolding settle_load show_draft show_sections restore_inputs
load_draft p vs d e stored based =
    let start : Editor = record e { prompt = some p; versions = vs } in
    let shown = to_fields-to_editor_sections e.next_key d.sections true in
    ap (λ o. restored_parts (show_loaded p (current_draft o (prompt_snapshot p)) start)) stored
    ∙ ap (λ b. restored_parts (show_loaded p (if b then some d else none) start)) based
    ∙ ready_to_fill_parts d.sections (is_restored d (prompt_snapshot p)) _
    ∙ ap
        (λ f. (
          f,
          d.metadata,
          otherwise d.note [],
          otherwise d.values [],
          is_restored d (prompt_snapshot p),
          some p,
        ))
        shown

-- What the browser keeps of an editor with unsaved changes, as a page reads it again.
abbrev kept_draft : SavedPrompt → Editor → Draft
unfolding draft_of draft_state
kept_draft p e = record (draft_of (draft_state e)) { base = some (prompt_snapshot p) }

keep_draft-read_draft :
    (user : Text) (p : SavedPrompt) (e : Editor)
    → e.user ≡ some user
    → e.prompt ≡ some p
    → e.loading ≡ false
    → e.load_error ≡ false
    → dirty e ≡ true
    → read_draft (own_draft_key e) (keep_draft e).drafts ≡ some (kept_draft p e)
unfolding keep_draft draft_state draft_of read_draft prompt_snapshot
keep_draft-read_draft user p e signed_in saved loaded no_error unsaved =
    let key = draft_key user e.prompt_id in
    let stored =
      persist-get_item (draft_state e) e.drafts key (ap (λ u. key_for u e.prompt_id) signed_in)
        loaded no_error (rw unsaved refl) in
    let with_base : Option Snapshot → Option Draft =
      λ b. some (record (draft_of (draft_state e)) { base = renew_base b }) in
    ap (λ u. read_draft (key_for u e.prompt_id) (keep_draft e).drafts) signed_in
    ∙ ap
        (λ o. elim o as (λ x. Option Draft) [
          | none ↦ none
          | some draft ↦ some (record draft { base = renew_base draft.base })
        ])
        stored
    ∙ ap (λ o. with_base (Option.map prompt_snapshot o)) saved
    ∙ ap (λ b. some (record (draft_of (draft_state e)) { base = some b }))
        (snapshot_idem p.fields (or_no_metadata p.metadata))

otherwise-if :
    (b : Bool) (v : Values) → otherwise (if b then some v else none) [] ≡ (if b then v else [])
otherwise-if true v = refl
otherwise-if false v = refl

-- A page that is loaded again after the draft was kept, on the same saved prompt, shows the unsaved
-- fields, settings and note, and the values if they are kept; it says that a draft was restored, and
-- the prompt is still unsaved.
pub reload_restores :
    (id : ℕ) (user : Text) (p : SavedPrompt) (vs : List ℕ) (mode : Option Mode) (e : Editor)
    → e.prompt_id ≡ some id
    → e.user ≡ some user
    → e.prompt ≡ some p
    → e.loading ≡ false
    → e.load_error ≡ false
    → dirty e ≡ true
    → let again =
        settle_load
          (answered (p, vs))
          (first_state e.prompt_id e.user mode false (keep_draft e).drafts) in
      (restored_parts again ≡ (
        fields e,
        e.metadata,
        e.note,
        (if e.remember_values then e.values else []),
        true,
        some p,
      ))
      × (dirty again ≡ true)
unfolding first_state dirty draft_of draft_state
reload_restores id user p vs mode e has_id signed_in saved loaded no_error unsaved =
    let again =
      settle_load (answered (p, vs))
        (first_state e.prompt_id e.user mode false (keep_draft e).drafts) in
    let differs_still = ap (λ q. differs q (fields e) e.metadata) (sym saved) ∙ unsaved in
    let restored = ap (λ b. b || has_text (kept_draft p e).import_session) differs_still in
    let parts =
      load_draft p vs (kept_draft p e)
        (first_state e.prompt_id e.user mode false (keep_draft e).drafts)
        (keep_draft-read_draft user p e signed_in saved loaded no_error unsaved)
        (same_snapshot_refl (prompt_snapshot p))
      ∙ ap
          (λ f. (
            f,
            e.metadata,
            e.note,
            otherwise (kept_draft p e).values [],
            is_restored (kept_draft p e) (prompt_snapshot p),
            some p,
          ))
          (normal_fields-to_fields e.sections)
      ∙ ap
          (λ v. (
            fields e,
            e.metadata,
            e.note,
            v,
            is_restored (kept_draft p e) (prompt_snapshot p),
            some p,
          ))
          (otherwise-if e.remember_values e.values)
      ∙ ap
          (λ r.
            (fields e, e.metadata, e.note, (if e.remember_values then e.values else []), r, some p))
          restored in
    (parts, ap (λ (r : Restored). differs r.5 r.0 r.1) parts ∙ differs_still)
