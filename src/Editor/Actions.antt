-- ===== src/Editor/Actions.antt =====
-- features/editor/usePromptEditor.ts: the actions of the editor that call no server. Each is what
-- the handler does to the state of the hook; the effect of `useDraftPersistence` is `keep_draft`.
pub mod Laws
use native.Mathlib.Decide.{ℕ_discrete}
use prompt_maker_studio.Base.{
  ltb, leb, ◌==◌, if◌then◌else◌, ==_iff, ==_refl, Bool-cases, Option-cases, both, either,
  eq_of_some, same, none_ne_some, false_ne_true, true_of_not, false_of_not, length, get_elem?, take,
  drop, filter, any, all, find?, All, concat, slice, drop-drop, length-append, take-append-drop,
  slice-append-drop, length-take, length-drop, take-append-length, drop-append-length,
  filter-append, length-filter-le, drop-all, slice-empty, concat-append, length-reverse, Text, text,
  text_eq, text_eq_refl, eq_of_text_eq, text_eq_iff, text_eq_comm, includes, is_space, trim_start,
  trim_end, trim, is_empty, join, take_while, drop_while, strip, length-strip, eq_of_strip,
  strip-append, length-drop_while, length-trim_start, push_new, push_all, set_of, first_uses,
  IsDistinct, includes-append, filter-filter, push_all-first_uses, set_of-first_uses,
  includes-first_uses, first_uses-IsDistinct, IsDistinct-snoc, push_new-cons, digits, decimal,
  decimal_inj, trim_idem, ℕ, zero, suc, ◌+◌, ◌-◌, ◌*◌, ◌/◌, ◌%◌, ◌≤◌, ◌<◌, max, min, ◌≡◌, refl, sym,
  ap, ap₂, ◌∙◌, subst, fun_ext, ◌≢◌, ◌↔◌, ◌⊎◌, inl, inr, Bool, true, false, not, ◌&&◌, ◌||◌, Option,
  none, some, some-injective, List, [], ◌∷◌, ◌++◌, map, append-nil, append_assoc, map-append, arith,
}
use prompt_maker_studio.Sections.Chars.{PromptField}
use prompt_maker_studio.Sections.Title.{suggest_title}
use prompt_maker_studio.Sections.Variables.{Values, variables_in}
use prompt_maker_studio.Session.Storage.{remove_item}
use prompt_maker_studio.Editor.Metadata.{
  Metadata, snapshot, same_snapshot, or_no_metadata, if_text, is_yes, same_fields,
}
use prompt_maker_studio.Editor.Drafts.{
  EditorSection, NewSection, ImportSession, to_fields, to_editor_sections, blank_sections, no_hint,
}
use prompt_maker_studio.Editor.State.{
  SavedPrompt, Mode, template, filled, Tab, edit, use_tab, SaveDialog, Imported, Before,
  DraftAction, refined, imported, Notice, undo_gone, removed, Editor, is_new, own_draft_key,
  remove_at,
}

unfoldable pub show_notice : Notice → Editor → Editor
show_notice n e = record e { notice = some n }

-- `setSections(toEditorSections(fields, touched))`
unfoldable pub show_sections : List NewSection → Bool → Editor → Editor
show_sections fs touched e = record e {
  sections = to_editor_sections e.next_key fs touched;
  next_key = e.next_key + length fs;
}

-- `setSections(blankSections())`
unfoldable pub show_blank : Editor → Editor
show_blank e = record e { sections = blank_sections e.next_key; next_key = e.next_key + 1 }

unfoldable pub update_section : ℕ → (EditorSection → EditorSection) → Editor → Editor
update_section key change e = record e {
  sections = map (λ s. if s.key == key then change s else s) e.sections;
}

-- The sections at `i` and `i + 1` change places.
unfoldable pub swap_at {ℓ} : {A : Type ℓ} → ℕ → List A → List A
swap_at zero (x ∷ y ∷ xs) = y ∷ x ∷ xs
swap_at (suc i) (x ∷ xs) = x ∷ swap_at i xs
swap_at i xs = xs

-- `moveSection`, whose buttons are off where there is no neighbour on that side.
pub data Offset : Type 0 where
  up down : Offset

unfoldable pub move_section : ℕ → Offset → Editor → Editor
move_section (suc index) up e = record e { sections = swap_at index e.sections }
move_section zero up e = e
move_section index down e = record e { sections = swap_at index e.sections }

unfoldable pub drop_section : ℕ → Editor → Editor
unfolding show_blank
drop_section index e = elim (remove_at index e.sections) [
  | [] ↦ show_blank e
  | s ∷ ss ↦ record e { sections = s ∷ ss }
]

unfoldable pub remove_section : ℕ → Editor → Editor
unfolding drop_section show_notice
remove_section index e = elim (get_elem? e.sections index) [
  | none ↦ e
  | some s ↦ show_notice (removed index s) (drop_section index e)
]

-- `[...current.slice(0, index), removed, ...current.slice(index)]`
unfoldable pub insert_at {ℓ} : {A : Type ℓ} → ℕ → A → List A → List A
insert_at index a xs = take index xs ++ a ∷ drop index xs

-- The Undo of the notice that `remove_section` shows.
unfoldable pub undo_remove : ℕ → EditorSection → Editor → Editor
undo_remove index s e = record e { sections = insert_at index s e.sections }

unfoldable pub replace_sections : List NewSection → Editor → Editor
unfolding show_sections
replace_sections next e = record (show_sections next false e) {
  metadata = [];
  values = [];
  remember_values = false;
}

-- `{ ...section, content: next[i].content, touched: true }`; a refinement has a field for each.
unfoldable pub with_contents : List EditorSection → List PromptField → List EditorSection
with_contents [] next = []
with_contents (s ∷ ss) [] = record s { touched = true } ∷ with_contents ss []
with_contents (s ∷ ss) (f ∷ fs) =
    record s { content = f.content; touched = true } ∷ with_contents ss fs

unfoldable pub apply_refinement : List PromptField → Editor → Editor
unfolding with_contents
apply_refinement next e = record e {
  sections = with_contents e.sections next;
  refine_open = false;
  draft_action = some (refined e.sections next);
}

-- `JSON.stringify(a) === JSON.stringify(b)`
pub Values-discrete : Discrete Values
Values-discrete = hlevel ℕ_discrete

unfoldable pub same_values : Values → Values → Bool
unfolding Values-discrete ℕ_discrete
same_values a b = is_yes (Values-discrete a b)

-- `importSession.title || other`
abbrev pub or_text : Option Text → Text → Text
or_text a b = elim (if_text a) [ none ↦ b | some t ↦ t ]

-- `a ?? b`
abbrev pub otherwise {ℓ} : {A : Type ℓ} → Option A → A → A
otherwise none b = b
otherwise (some a) b = a

abbrev pub either_of {ℓ} : {A : Type ℓ} → Option A → Option A → Option A
either_of none b = b
either_of (some a) b = some a

abbrev pub first_content : List PromptField → Text
first_content [] = []
first_content (f ∷ fs) = f.content

unfoldable pub no_session : ImportSession
no_session = record { text = []; title = none; folder = none }

abbrev pub before : Editor → Before
before e = record {
  sections = e.sections;
  metadata = e.metadata;
  values = e.values;
  remember_values = e.remember_values;
  mode = e.mode;
  mobile_tab = e.mobile_tab;
  preview_open = e.preview_open;
  import_session = e.import_session;
}

abbrev pub defaults_after : Imported → Editor → Text × Text
defaults_after next e =
    if is_new e
    then (
      otherwise (either_of next.title e.import_session.title) [],
      otherwise e.import_session.folder [],
    )
    else e.save_defaults

abbrev pub dialog_after : Imported → Editor → Option SaveDialog
dialog_after next e =
    if next.save_as_written && is_new e
    then some (record {
      name = or_text e.import_session.title (suggest_title (first_content next.fields) 60);
      folder = otherwise e.import_session.folder [];
      error = none;
    })
    else e.save_dialog

unfoldable pub import_sections : Imported → Editor → Editor
unfolding show_sections no_session
import_sections next e = record (show_sections (map no_hint next.fields) false e) {
  metadata = next.metadata;
  values = next.values;
  remember_values = true;
  mode = filled;
  mobile_tab = use_tab;
  preview_open = true;
  save_defaults = defaults_after next e;
  restored_draft = false;
  import_session = no_session;
  import_open = false;
  save_dialog = dialog_after next e;
  draft_action = some (imported (before e) next);
}

abbrev pub put_back : Before → Editor → Editor
put_back b e = record e {
  sections = b.sections;
  metadata = b.metadata;
  values = b.values;
  remember_values = b.remember_values;
  mode = b.mode;
  mobile_tab = b.mobile_tab;
  preview_open = b.preview_open;
  import_session = b.import_session;
}

-- Whether the editor still shows what was imported.
unfoldable pub is_as_imported : Imported → Editor → Bool
is_as_imported next e =
    same_snapshot (snapshot (to_fields e.sections) e.metadata) (snapshot next.fields next.metadata)
    && same_values e.values next.values

-- The Undo of the notice that stays.
unfoldable pub undo_draft_action : DraftAction → Editor → Editor
unfolding show_notice is_as_imported
undo_draft_action (refined before next) e =
    if same_fields (to_fields e.sections) next
    then record e { sections = before }
    else show_notice undo_gone e
undo_draft_action (imported before next) e =
    if is_as_imported next e then put_back before e else show_notice undo_gone e

-- The Undo button of that notice, in PromptEditor.tsx, which is off while a save is under way or the
-- refinement is open.
unfoldable pub press_undo : Editor → Editor
unfolding undo_draft_action
press_undo e = elim e.draft_action [
  | none ↦ e
  | some offer ↦
      if e.refine_open || e.saving
      then e
      else undo_draft_action offer (record e { draft_action = none })
]

abbrev pub fields_of : Option SavedPrompt → List PromptField
fields_of none = []
fields_of (some p) = p.fields

abbrev pub show_base : Option SavedPrompt → Editor → Editor
show_base none e = record (show_blank e) { metadata = [] }
show_base (some p) e = record (show_sections (map no_hint p.fields) true e) {
  metadata = or_no_metadata p.metadata;
}

abbrev pub drop_draft : Editor → Editor
drop_draft e = record e {
  drafts = elim (own_draft_key e) [ none ↦ e.drafts | some key ↦ remove_item key e.drafts ];
}

-- `discardEdits(base)`
unfoldable pub discard_edits : Option SavedPrompt → Editor → Editor
unfolding show_blank show_sections no_session
discard_edits base e =
    let retained = variables_in (fields_of base) in
    show_base base (record (drop_draft e) {
      note = [];
      import_session = no_session;
      values = filter (λ v. includes retained v.0) e.values;
      notice = none;
      draft_action = none;
      restored_draft = false;
      conflict = false;
    })
