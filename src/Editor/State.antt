-- ===== src/Editor/State.antt =====
-- features/editor/usePromptEditor.ts: the state of the hook, and what is computed from it. `prompt`
-- stands for `promptRef` too, since both are set together; what the notices say is a constructor.
use mathlib.Core.Option
use prompt_maker_studio.Base.{
  leb, if◌then◌else◌, any, Text, trim, is_empty, ℕ, zero, suc, ◌+◌, Bool, true, false, not, ◌&&◌,
  ◌||◌, Option, none, some, List, [], ◌∷◌, map,
}
use prompt_maker_studio.Sections.Chars.{PromptField}
use prompt_maker_studio.Sections.Names.{section_name_error}
use prompt_maker_studio.Sections.Variables.{Values}
use prompt_maker_studio.Editor.Metadata.{
  Metadata, Snapshot, snapshot, same_snapshot, or_no_metadata, if_text,
}
use prompt_maker_studio.Editor.Drafts.{
  EditorSection, ImportSession, Drafts, DraftState, to_fields, draft_key, persist, is_nil,
}

-- `PromptHistoryResponse`, as the editor reads it.
pub record SavedPrompt : Type 0 where
  pub id : ℕ
  pub name : Option Text
  pub fields : List PromptField
  pub created_at : Text
  pub updated_at : Option Text
  pub folder : Option Text
  pub metadata : Option Metadata
  pub known_good : Option ℕ

unfoldable pub prompt_snapshot : SavedPrompt → Snapshot
prompt_snapshot p = snapshot p.fields (or_no_metadata p.metadata)

pub data Mode : Type 0 where
  template filled : Mode

pub data Tab : Type 0 where
  edit use_tab : Tab

pub data DialogError : Type 0 where
  too_long no_name save_failed : DialogError
  reported : Text → DialogError

pub record SaveDialog : Type 0 where
  pub name : Text
  pub folder : Text
  pub error : Option DialogError

-- `ImportedPrompt`
pub record Imported : Type 0 where
  pub save_as_written : Bool
  pub title : Option Text
  pub fields : List PromptField
  pub metadata : Metadata
  pub values : Values

-- What the Undo of an import has captured.
pub record Before : Type 0 where
  pub sections : List EditorSection
  pub metadata : Metadata
  pub values : Values
  pub remember_values : Bool
  pub mode : Mode
  pub mobile_tab : Tab
  pub preview_open : Bool
  pub import_session : ImportSession

-- The notice that stays until the next save, with what its Undo has captured.
pub data DraftAction : Type 0 where
  refined : (before : List EditorSection) (next : List PromptField) → DraftAction
  imported : (before : Before) (next : Imported) → DraftAction

pub data Notice : Type 0 where
  names_wrong sections_too_long saved saved_without_history edits_kept taken undo_gone : Notice
  failure : (message : Option Text) → Notice
  restored restored_without_history : (version_number : ℕ) → Notice
  marked : (version_number : ℕ) → Notice
  moved : (folder : Text) → Notice
  removed : (index : ℕ) (section : EditorSection) → Notice

-- The tasks of `mutationChain`, with the bodies that they send.
pub data Task : Type 0 where
  save_task : (fields : List PromptField) (metadata : Metadata) (note : Option Text) → Task
  rename_task : (name : Text) → Task
  move_task : (folder : Text) → Task
  mark_task : (version_number : ℕ) → Task
  restore_task : (version_id version_number : ℕ) → Task

-- A request as it is sent. `last_updated_at` is the stamp of the version that it is made against; a
-- restore sends none.
pub record Request : Type 0 where
  pub task : Task
  pub id : ℕ
  pub last_updated_at : Text

-- `current.updated_at || current.created_at`
abbrev pub stamp : SavedPrompt → Text
stamp p = elim (if_text p.updated_at) [ none ↦ p.created_at | some t ↦ t ]

-- What `createPrompt` has captured while the server creates the prompt.
pub record Create : Type 0 where
  pub dialog : SaveDialog
  pub name : Text
  pub fields : List PromptField
  pub folder : Option Text
  pub metadata : Metadata
  pub values : Values
  pub remember_values : Bool

pub record Editor : Type 0 where
  -- The props and the signed-in user.
  pub prompt_id : Option ℕ
  pub user : Option Text
  pub prompt : Option SavedPrompt
  pub versions : List ℕ
  pub sections : List EditorSection
  pub metadata : Metadata
  pub values : Values
  pub remember_values : Bool
  pub import_session : ImportSession
  pub mode : Mode
  pub mobile_tab : Tab
  pub preview_open : Bool
  pub refine_open : Bool
  pub restored_draft : Bool
  pub open_focused : Bool
  pub loading : Bool
  pub load_error : Bool
  pub saving : Bool
  pub note : Text
  pub conflict : Bool
  pub conflict_latest : Option SavedPrompt
  pub draft_action : Option DraftAction
  pub notice : Option Notice
  pub save_dialog : Option SaveDialog
  pub save_defaults : Text × Text
  pub move_dialog : Option Text
  pub import_open : Bool
  -- The module's `nextKey`.
  pub next_key : ℕ
  -- `mutationChain`: the tasks that wait, and the request under way.
  pub queue : List Task
  pub request : Option Request
  pub create : Option Create
  pub drafts : Drafts
  -- The page that `router.replace` goes to.
  pub opened : Option ℕ

abbrev pub is_new : Editor → Bool
is_new e = elim e.prompt_id [ none ↦ true | some id ↦ false ]

abbrev pub key_for : Option Text → Option ℕ → Option Text
key_for none id = none
key_for (some user) id = some (draft_key user id)

abbrev pub own_draft_key : Editor → Option Text
own_draft_key e = key_for e.user e.prompt_id

abbrev pub fields : Editor → List PromptField
fields e = to_fields e.sections

abbrev pub has_content : List PromptField → Bool
has_content fs = any (λ f. not (is_empty (trim f.content))) fs

-- Without a saved prompt, whether there is anything to save.
abbrev pub differs : Option SavedPrompt → List PromptField → Metadata → Bool
differs (some p) fs metadata = not (same_snapshot (snapshot fs metadata) (prompt_snapshot p))
differs none fs metadata = has_content fs || not (is_nil metadata)

unfoldable pub dirty : Editor → Bool
dirty e = differs e.prompt (fields e) e.metadata

unfoldable pub draft_state : Editor → DraftState
unfolding dirty
draft_state e = record {
  dirty = dirty e;
  draft_key = own_draft_key e;
  fields = fields e;
  load_error = e.load_error;
  loading = e.loading;
  metadata = e.metadata;
  note = e.note;
  saved_snapshot = Option.map prompt_snapshot e.prompt;
  values = e.values;
  remember_values = e.remember_values;
  import_session = e.import_session;
  import_open = e.import_open;
}

-- The effect of `useDraftPersistence`, which runs after each change.
unfoldable pub keep_draft : Editor → Editor
unfolding draft_state
keep_draft e = record e { drafts = persist (draft_state e) e.drafts }

-- `Array.from(text).length`: a pair of surrogates is one character.
unfoldable pub code_points : Text → ℕ
code_points [] = 0
code_points (c ∷ []) = 1
code_points (c ∷ d ∷ s) =
    let pair = code_points s in
    let single = code_points (d ∷ s) in
    if leb 55296 c && leb c 56319 && leb 56320 d && leb d 57343 then 1 + pair else 1 + single

-- `sections.filter((_, j) => j !== i)`
abbrev pub remove_at {ℓ} : {A : Type ℓ} → ℕ → List A → List A
remove_at i [] = []
remove_at zero (x ∷ xs) = xs
remove_at (suc i) (x ∷ xs) = x ∷ remove_at i xs

abbrev pub is_error {ℓ} : {A : Type ℓ} → Option A → Bool
is_error none = false
is_error (some a) = true

module _ (to_upper : Text → Text) where
  -- Whether `nameErrors`, from the section at `i` on, has an error.
  unfoldable pub name_errors_from : ℕ → List Text → List Text → Bool
  name_errors_from i names [] = false
  name_errors_from i names (n ∷ ns) =
      is_error (section_name_error to_upper n (remove_at i names))
      || name_errors_from (i + 1) names ns

  unfoldable pub has_name_error : Editor → Bool
  unfolding name_errors_from
  has_name_error e =
      name_errors_from 0 (map (λ s. s.name) e.sections) (map (λ s. s.name) e.sections)
