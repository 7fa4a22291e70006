-- ===== src/Editor/Drafts.antt =====
-- features/editor/editorState.ts and useDraftPersistence.ts: sections as they are edited, and the
-- draft that the browser keeps of them. A stored draft is its value, whose JSON text the browser
-- writes and reads.
pub mod Laws
use prompt_maker_studio.Base.{
  text, ltb, leb, ◌==◌, if◌then◌else◌, ==_iff, ==_refl, Bool-cases, Option-cases, both, either,
  eq_of_some, same, none_ne_some, false_ne_true, true_of_not, false_of_not, length, get_elem?, take,
  drop, filter, any, all, find?, All, concat, slice, drop-drop, length-append, take-append-drop,
  slice-append-drop, length-take, length-drop, take-append-length, drop-append-length,
  filter-append, length-filter-le, drop-all, slice-empty, concat-append, length-reverse, Text,
  text_eq, text_eq_refl, eq_of_text_eq, text_eq_iff, text_eq_comm, includes, is_space, trim_start,
  trim_end, trim, is_empty, join, take_while, drop_while, strip, length-strip, eq_of_strip,
  strip-append, length-drop_while, length-trim_start, push_new, push_all, set_of, first_uses,
  IsDistinct, includes-append, filter-filter, push_all-first_uses, set_of-first_uses,
  includes-first_uses, first_uses-IsDistinct, IsDistinct-snoc, push_new-cons, digits, decimal,
  decimal_inj, trim_idem, ℕ, zero, suc, ◌+◌, ◌-◌, ◌*◌, ◌/◌, ◌%◌, ◌≤◌, ◌<◌, max, min, ◌≡◌, refl, sym,
  ap, ap₂, ◌∙◌, subst, fun_ext, ◌≢◌, ◌↔◌, ◌⊎◌, inl, inr, Bool, true, false, not, ◌&&◌, ◌||◌, Option,
  none, some, some-injective, List, [], ◌∷◌, ◌++◌, map, append-nil, append_assoc, map-append, arith,
}
use prompt_maker_studio.Sections.Chars.{PromptField}
use prompt_maker_studio.Sections.Names.{normalize_section_name}
use prompt_maker_studio.Sections.Variables.{Values}
use prompt_maker_studio.Session.Storage.{get_item, set_item, remove_item, storage_key}
use prompt_maker_studio.Editor.Metadata.{Metadata, Snapshot, snapshot, same_snapshot}

pub record EditorSection : Type 0 where
  pub key : ℕ
  pub name : Text
  pub content : Text
  pub hint : Option Text
  pub touched : Bool

-- A section to show: a field, with its hint if it has one.
pub record NewSection : Type 0 where
  pub name : Text
  pub content : Text
  pub hint : Option Text

abbrev pub no_hint : PromptField → NewSection
no_hint f = record { name = f.name; content = f.content; hint = none }

-- What the hook reads of an `ImportSession`.
pub record ImportSession : Type 0 where
  pub text : Text
  pub title : Option Text
  pub folder : Option Text

pub record Draft : Type 0 where
  pub base : Option Snapshot
  pub sections : List PromptField
  pub metadata : Metadata
  pub note : Option Text
  pub values : Option Values
  pub import_session : Option ImportSession

-- `toEditorSections`, with the next unused key.
unfoldable pub to_editor_sections : ℕ → List NewSection → Bool → List EditorSection
to_editor_sections key [] touched = []
to_editor_sections key (f ∷ fs) touched =
    record { key = key; name = f.name; content = f.content; hint = f.hint; touched = touched }
    ∷ to_editor_sections (key + 1) fs touched

abbrev pub new_section_hint : Text
new_section_hint =
    text "Write your prompt here. Put the parts that change each time in {{double_braces}}."

unfoldable pub blank_sections : ℕ → List EditorSection
unfolding to_editor_sections
blank_sections key =
    to_editor_sections key
      (record { name = text "Task"; content = []; hint = some new_section_hint } ∷ []) false

unfoldable pub to_fields : List EditorSection → List PromptField
to_fields sections =
    map (λ s. record { name = normalize_section_name s.name; content = s.content }) sections

-- The entries of the browser's storage that hold drafts.
abbrev pub Drafts : Type 0
Drafts = List (Text × Draft)

-- `storageKey(`editor-draft:${user}:${promptId ?? 'new'}`)`
unfoldable pub draft_key : Text → Option ℕ → Text
draft_key user prompt_id = storage_key (
    text "editor-draft:"
    ++ (user ++ (text ":" ++ elim prompt_id [ none ↦ text "new" | some id ↦ decimal id ])))

-- An older base is written anew, as `snapshot` writes it today.
abbrev pub renew_base : Option Snapshot → Option Snapshot
renew_base none = none
renew_base (some base) = some (snapshot base.fields base.metadata)

unfoldable pub read_draft : Option Text → Drafts → Option Draft
read_draft none drafts = none
read_draft (some key) drafts = elim (get_item drafts key) [
  | none ↦ none
  | some draft ↦ some (record draft { base = renew_base draft.base })
]

-- `draft.base === base`
abbrev pub has_base : Option Snapshot → Snapshot → Bool
has_base none base = false
has_base (some b) base = same_snapshot b base

unfoldable pub has_unsaved_draft : Text → ℕ → List PromptField → Metadata → Drafts → Bool
has_unsaved_draft user id fields metadata drafts =
    elim (read_draft (some (draft_key user (some id))) drafts) [
      | none ↦ false
      | some draft ↦
          has_base draft.base (snapshot fields metadata)
          && not (has_base draft.base (snapshot draft.sections draft.metadata))
    ]

abbrev pub is_nil {ℓ} : {A : Type ℓ} → List A → Bool
is_nil [] = true
is_nil (x ∷ xs) = false

-- The effect of `useDraftPersistence`, with what it reads of the editor.
pub record DraftState : Type 0 where
  pub dirty : Bool
  pub draft_key : Option Text
  pub fields : List PromptField
  pub load_error : Bool
  pub loading : Bool
  pub metadata : Metadata
  pub note : Text
  pub saved_snapshot : Option Snapshot
  pub values : Values
  pub remember_values : Bool
  pub import_session : ImportSession
  pub import_open : Bool

abbrev pub pending_import : DraftState → Bool
pending_import d = d.import_open && not (is_empty d.import_session.text)

unfoldable pub draft_of : DraftState → Draft
draft_of d = record {
  base = d.saved_snapshot;
  sections = d.fields;
  metadata = d.metadata;
  note = some d.note;
  values = if d.remember_values then some d.values else none;
  import_session = if pending_import d then some d.import_session else none;
}

abbrev pub needs_draft : DraftState → Bool
needs_draft d = d.dirty || (d.remember_values && not (is_nil d.values)) || pending_import d

abbrev pub persist_at : Option Text → DraftState → Drafts → Drafts
persist_at none d drafts = drafts
persist_at (some key) d drafts =
    if d.loading || d.load_error
    then drafts
    else if needs_draft d
    then set_item key (draft_of d) drafts
    else remove_item key drafts

unfoldable pub persist : DraftState → Drafts → Drafts
persist d drafts = persist_at d.draft_key d drafts
