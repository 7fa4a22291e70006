-- ===== src/Editor/Metadata.antt =====
-- The settings of variables and the snapshot of a prompt: `VariableMetadataItem` of types/prompt.ts,
-- `choiceList` and `snapshot` of features/editor/editorState.ts. A snapshot is the value whose JSON
-- text the program compares; an object is the list of its entries.
pub mod Laws
use native.Mathlib.Decide.{ℕ_discrete}
use prompt_maker_studio.Base.{
  ltb, leb, ◌==◌, if◌then◌else◌, ==_iff, ==_refl, Bool-cases, Option-cases, both, either,
  eq_of_some, same, none_ne_some, false_ne_true, true_of_not, false_of_not, length, get_elem?, take,
  drop, filter, any, all, find?, All, concat, slice, drop-drop, length-append, take-append-drop,
  slice-append-drop, length-take, length-drop, take-append-length, drop-append-length,
  filter-append, length-filter-le, drop-all, slice-empty, concat-append, length-reverse, Text, text,
  text_eq, text_eq_refl, eq_of_text_eq, text_eq_iff, includes, is_space, trim_start, trim_end, trim,
  is_empty, join, take_while, drop_while, strip, length-strip, eq_of_strip, strip-append,
  length-drop_while, length-trim_start, push_new, push_all, set_of, first_uses, IsDistinct,
  includes-append, filter-filter, push_all-first_uses, set_of-first_uses, includes-first_uses,
  first_uses-IsDistinct, IsDistinct-snoc, push_new-cons, digits, decimal, decimal_inj, trim_idem, ℕ,
  zero, suc, ◌+◌, ◌-◌, ◌*◌, ◌/◌, ◌%◌, ◌≤◌, ◌<◌, max, min, ◌≡◌, refl, sym, ap, ap₂, ◌∙◌, subst,
  fun_ext, ◌≢◌, ◌↔◌, ◌⊎◌, inl, inr, Bool, true, false, not, ◌&&◌, ◌||◌, Option, none, some,
  some-injective, List, [], ◌∷◌, ◌++◌, map, append-nil, append_assoc, map-append, arith,
}
use prompt_maker_studio.Sections.Chars.{PromptField}

pub data InputType : Type 0 where
  text_input number_input boolean_input list_input : InputType

pub record Item : Type 0 where
  pub type : InputType
  pub description : Option Text
  pub required : Option Bool
  pub example : Option Text
  pub options : Option (List Text)

abbrev pub Metadata : Type 0
Metadata = List (Text × Item)

-- `options ?? []`
abbrev pub or_no_options : Option (List Text) → List Text
or_no_options none = []
or_no_options (some options) = options

unfoldable pub choice_list : Option (List Text) → List Text
choice_list options = set_of (filter (λ s. not (is_empty s)) (map trim (or_no_options options)))

-- `...(text ? { text } : {})`
abbrev pub if_text : Option Text → Option Text
if_text none = none
if_text (some []) = none
if_text (some (c ∷ s)) = some (c ∷ s)

abbrev pub if_true : Option Bool → Option Bool
if_true (some true) = some true
if_true (some false) = none
if_true none = none

abbrev pub if_any : List Text → Option (List Text)
if_any [] = none
if_any (x ∷ xs) = some (x ∷ xs)

-- An item as `snapshot` writes it.
unfoldable pub stored_item : Item → Item
stored_item item = record {
  type = item.type;
  description = if_text item.description;
  required = if_true item.required;
  example = if_text item.example;
  options = if_any (choice_list item.options);
}

-- `<` on strings, by code units.
abbrev pub text_lt : Text → Text → Bool
text_lt [] [] = false
text_lt [] (d ∷ t) = true
text_lt (c ∷ s) [] = false
text_lt (c ∷ s) (d ∷ t) = ltb c d || (c == d && text_lt s t)

-- `Object.keys(metadata).sort()`, each key with its item.
abbrev pub insert_entry : Text × Item → Metadata → Metadata
insert_entry e [] = e ∷ []
insert_entry e (f ∷ es) = if text_lt f.0 e.0 then f ∷ insert_entry e es else e ∷ f ∷ es

unfoldable pub sort_entries : Metadata → Metadata
sort_entries [] = []
sort_entries (e ∷ es) = insert_entry e (sort_entries es)

pub record Snapshot : Type 0 where
  pub fields : List PromptField
  pub metadata : Metadata

-- `metadata ?? {}`
abbrev pub or_no_metadata : Option Metadata → Metadata
or_no_metadata none = []
or_no_metadata (some metadata) = metadata

unfoldable pub snapshot : List PromptField → Metadata → Snapshot
snapshot sections settings = record {
  fields = sections;
  metadata = map (λ e. (e.0, stored_item e.1)) (sort_entries settings);
}

pub PromptField-discrete : Discrete PromptField
PromptField-discrete = hlevel ℕ_discrete

pub Item-discrete : Discrete Item
Item-discrete = hlevel ℕ_discrete

pub Snapshot-discrete : Discrete Snapshot
Snapshot-discrete = hlevel (ℕ_discrete, PromptField-discrete, Item-discrete)

abbrev pub is_yes {ℓ} : {A : Type ℓ} → Dec A → Bool
is_yes (yes a) = true
is_yes (no n) = false

-- `===` on the JSON texts.
unfoldable pub same_snapshot : Snapshot → Snapshot → Bool
unfolding Snapshot-discrete PromptField-discrete Item-discrete ℕ_discrete
same_snapshot a b = is_yes (Snapshot-discrete a b)

pub same_snapshot_iff : (a b : Snapshot) → (same_snapshot a b ≡ true) ↔ (a ≡ b)
unfolding same_snapshot
same_snapshot_iff a b = by_decision (Snapshot-discrete a b)
  where
    by_decision : (d : Dec (a ≡ b)) → (is_yes d ≡ true) ↔ (a ≡ b)
    by_decision (yes e) = (λ h. e, λ h. refl)
    by_decision (no n) = (λ h. absurd (false_ne_true h), λ h. absurd (n h))

Fields-discrete : Discrete (List PromptField)
Fields-discrete = hlevel PromptField-discrete

-- `JSON.stringify(a) === JSON.stringify(b)`
unfoldable pub same_fields : List PromptField → List PromptField → Bool
unfolding Fields-discrete PromptField-discrete ℕ_discrete
same_fields a b = is_yes (Fields-discrete a b)
