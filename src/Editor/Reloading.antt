-- ===== src/Editor/Reloading.antt =====
-- features/editor/usePromptEditor.ts: how the editor starts, and the effects that fill it with a
-- saved prompt, with an unsaved draft or with a starter template.
pub mod Laws
use prompt_maker_studio.Base.{
  ltb, leb, ◌==◌, if◌then◌else◌, ==_iff, ==_refl, Bool-cases, Option-cases, both, either,
  eq_of_some, same, none_ne_some, false_ne_true, true_of_not, false_of_not, length, get_elem?, take,
  drop, filter, any, all, find?, All, concat, slice, drop-drop, length-append, take-append-drop,
  slice-append-drop, length-take, length-drop, take-append-length, drop-append-length,
  filter-append, length-filter-le, drop-all, slice-empty, concat-append, length-reverse, Text, text,
  text_eq, text_eq_refl, eq_of_text_eq, text_eq_iff, text_eq_comm, includes, is_space, trim_start,
  trim_end, trim, is_empty, join, take_while, drop_while, strip, length-strip, eq_of_strip,
  strip-append, length-drop_while, length-trim_start, push_new, push_all, set_of, first_uses,
  IsDistinct, includes-append, filter-filter, push_all-first_uses, set_of-first_uses,
  includes-first_uses, first_uses-IsDistinct, IsDistinct-snoc, push_new-cons, digits, decimal,
  decimal_inj, trim_idem, ℕ, zero, suc, ◌+◌, ◌-◌, ◌*◌, ◌/◌, ◌%◌, ◌≤◌, ◌<◌, max, min, ◌≡◌, refl, sym,
  ap, ap₂, ◌∙◌, subst, fun_ext, ◌≢◌, ◌↔◌, ◌⊎◌, inl, inr, Bool, true, false, not, ◌&&◌, ◌||◌, Option,
  none, some, some-injective, List, [], ◌∷◌, ◌++◌, map, append-nil, append_assoc, map-append, arith,
}
use prompt_maker_studio.Api.{Outcome, answered, failed}
use prompt_maker_studio.Sections.Chars.{PromptField}
use prompt_maker_studio.Sections.Variables.{Values, variables_in}
use prompt_maker_studio.Editor.Metadata.{Snapshot, snapshot, same_snapshot, or_no_metadata}
use prompt_maker_studio.Editor.Drafts.{
  NewSection, ImportSession, Draft, Drafts, read_draft, has_base, no_hint, blank_sections, is_nil,
}
use prompt_maker_studio.Editor.State.{
  SavedPrompt, prompt_snapshot, Mode, template, filled, Tab, edit, use_tab, Editor, own_draft_key,
}
use prompt_maker_studio.Editor.Actions.{show_sections, otherwise, no_session}

abbrev pub is_absent {ℓ} : {A : Type ℓ} → Option A → Bool
is_absent none = true
is_absent (some a) = false

-- The first state of the hook.
unfoldable pub first_state :
    Option ℕ → Option Text → Option Mode → (open_import : Bool) → Drafts → Editor
unfolding blank_sections no_session
first_state prompt_id user initial_mode open_import drafts = record {
  prompt_id = prompt_id;
  user = user;
  prompt = none;
  versions = [];
  sections = blank_sections 0;
  metadata = [];
  values = [];
  remember_values = not (is_absent prompt_id);
  import_session = no_session;
  mode = otherwise initial_mode template;
  mobile_tab = if is_absent prompt_id then edit else use_tab;
  preview_open = true;
  refine_open = false;
  restored_draft = false;
  open_focused = false;
  loading = not (is_absent prompt_id);
  load_error = false;
  saving = false;
  note = [];
  conflict = false;
  conflict_latest = none;
  draft_action = none;
  notice = none;
  save_dialog = none;
  save_defaults = ([], []);
  move_dialog = none;
  import_open = open_import;
  next_key = 1;
  queue = [];
  request = none;
  create = none;
  drafts = drafts;
  opened = none;
}

abbrev pub has_text : Option ImportSession → Bool
has_text none = false
has_text (some session) = not (is_empty session.text)

unfoldable pub restore_inputs : Draft → Editor → Editor
unfolding no_session
restore_inputs draft e = record e {
  values = otherwise draft.values [];
  remember_values = e.remember_values || not (is_absent draft.values);
  import_session = otherwise draft.import_session no_session;
  import_open = has_text draft.import_session || e.import_open;
  mode = if is_absent draft.values then e.mode else filled;
  mobile_tab = if is_absent draft.values then e.mobile_tab else use_tab;
  preview_open = not (is_absent draft.values) || e.preview_open;
}

-- The sections, settings, note and inputs of a draft.
unfoldable pub show_draft : Draft → Editor → Editor
unfolding show_sections restore_inputs
show_draft draft e =
    restore_inputs draft (record (show_sections (map no_hint draft.sections) true e) {
      metadata = draft.metadata;
      note = otherwise draft.note [];
    })

-- `draft?.base === base ? draft : null`
abbrev pub current_draft : Option Draft → Snapshot → Option Draft
current_draft none base = none
current_draft (some draft) base = if has_base draft.base base then some draft else none

abbrev pub is_restored : Draft → Snapshot → Bool
is_restored draft base =
    not (same_snapshot (snapshot draft.sections draft.metadata) base)
    || has_text draft.import_session

abbrev pub ready_to_fill : List PromptField → (restored : Bool) → Editor → Editor
ready_to_fill fs restored e =
    if is_nil (variables_in fs) then e else record e { mode = filled; open_focused = not restored }

abbrev pub show_loaded : SavedPrompt → Option Draft → Editor → Editor
show_loaded p (some draft) e =
    let restored = is_restored draft (prompt_snapshot p) in
    ready_to_fill draft.sections restored
      (record (show_draft draft e) { restored_draft = restored })
show_loaded p none e =
    ready_to_fill p.fields false (record (show_sections (map no_hint p.fields) true e) {
      metadata = or_no_metadata p.metadata;
    })

-- The start of the effect that loads a saved prompt: no prompt has the id 0.
unfoldable pub start_load : Editor → Editor
start_load e = elim e.prompt_id [
  | none ↦ e
  | some id ↦ if ltb 0 id then e else record e { load_error = true; loading = false }
]

-- The rest of that effect, with its two answers.
unfoldable pub settle_load : Outcome (SavedPrompt × List ℕ) → Editor → Editor
unfolding show_draft show_sections prompt_snapshot
settle_load (failed f) e = record e { load_error = true; loading = false }
settle_load (answered (p, versions)) e =
    record (show_loaded p
      (current_draft (read_draft (own_draft_key e) e.drafts) (prompt_snapshot p))
      (record e { prompt = some p; versions = versions })) { loading = false }

-- The effect that fills a new prompt, with the starter template that it was opened with.
unfoldable pub hydrate : Option (List NewSection) → Editor → Editor
unfolding show_draft show_sections
hydrate starter e = elim (read_draft (own_draft_key e) e.drafts) [
  | some draft ↦ record (show_draft draft e) { restored_draft = true }
  | none ↦ elim starter [ none ↦ e | some sections ↦ show_sections sections false e ]
]
