-- ===== src/Import/Validate.antt =====
-- lib/promptImport.ts: `validateImportPrompts` and `importProblem`. The input is a JSON value; what
-- is thrown is a constructor, with the number of the prompt. The flag of a preview is not sent, and
-- stands beside the prompt.
pub mod Names
pub mod Reading
pub mod Prompts
pub mod Laws
pub mod Settings
pub mod Sound
use prompt_maker_studio.Import.Items.{
  ImportItem, Invalid, as_object, as_string, bad_choices, bad_description, bad_example, bad_folder,
  bad_metadata, bad_name, bad_required, bad_section, bad_sections, bad_title, bad_type,
  is_input_type, is_one_of, long_text, not_an_object, only_word, or_fail, read_choices, read_detail,
  read_item, read_items, read_metadata, read_options, read_required, repeated_name, type_word,
}
use prompt_maker_studio.Base.{
  ltb, leb, ◌==◌, if◌then◌else◌, ==_iff, ==_refl, Bool-cases, Option-cases, both, either,
  eq_of_some, same, none_ne_some, false_ne_true, true_of_not, false_of_not, length, get_elem?, take,
  drop, filter, any, all, find?, All, concat, slice, drop-drop, length-append, take-append-drop,
  slice-append-drop, length-take, length-drop, take-append-length, drop-append-length,
  filter-append, length-filter-le, drop-all, slice-empty, concat-append, length-reverse, Text, text,
  text_eq, text_eq_refl, eq_of_text_eq, text_eq_iff, text_eq_comm, includes, is_space, trim_start,
  trim_end, trim, is_empty, join, take_while, drop_while, strip, length-strip, eq_of_strip,
  strip-append, length-drop_while, length-trim_start, push_new, push_all, set_of, first_uses,
  IsDistinct, includes-append, filter-filter, push_all-first_uses, set_of-first_uses,
  includes-first_uses, first_uses-IsDistinct, IsDistinct-snoc, push_new-cons, digits, decimal,
  decimal-is_digit, decimal_inj, trim_idem, ℕ, zero, suc, ◌+◌, ◌-◌, ◌*◌, ◌/◌, ◌%◌, ◌≤◌, ◌<◌, max,
  min, ◌≡◌, refl, sym, ap, ap₂, ◌∙◌, subst, fun_ext, ◌≢◌, ◌↔◌, ◌⊎◌, inl, inr, Bool, true, false,
  not, ◌&&◌, ◌||◌, Option, none, some, some-injective, List, [], ◌∷◌, ◌++◌, map, append-nil,
  append_assoc, map-append, arith,
}
use prompt_maker_studio.Sections.Chars.{PromptField}
use prompt_maker_studio.Sections.Names.{underscores, is_valid_name}
use prompt_maker_studio.Editor.State.{code_points}
use prompt_maker_studio.Import.Json.{
  Json, null, number, bool, string, array, object, Items, no_items, more, Members, items, members,
  get, Result, ok, err, ◌>>=◌, check, ◌>>◌,
}

pub record ImportPrompt : Type 0 where
  pub name : Text
  pub folder : Option Text
  pub fields : List PromptField
  pub is_favorite : Bool
  pub variable_metadata : Option (List (Text × ImportItem))

pub data ImportError : Type 0 where
  bad_count : ImportError
  at_prompt : ℕ → Invalid → ImportError

abbrev pub max_import_prompts : ℕ
max_import_prompts = 1000

abbrev pub max_title : ℕ
max_title = 100

abbrev pub max_section : ℕ
max_section = 10000

abbrev pub as_items : Option Json → Option (List Json)
as_items (some (array js)) = some (items js)
as_items _ = none

abbrev pub string_at : Members → Text → Option Text
string_at ms name = elim (get ms name) [ none ↦ none | some j ↦ as_string j ]

-- The title, trimmed.
unfoldable pub read_title : (lenient : Bool) → Members → Result Invalid Text
read_title lenient item = do
  title ← or_fail (string_at item (text "name")) bad_title
  check (not (is_empty (trim title)) && (lenient || leb (length (trim title)) max_title)) bad_title
  ok (trim title)

-- Null and undefined are no folder.
abbrev pub folder_of : Option Json → Result Invalid (Option Text)
folder_of none = ok none
folder_of (some null) = ok none
folder_of (some (string folder)) = do
  check (leb (length folder) 255) bad_folder
  ok (some (trim folder))
folder_of (some _) = err bad_folder

-- `replace(/\s+/g, ' ')`, with whether the character before is white space.
unfoldable pub collapse_from : Bool → Text → Text
collapse_from after [] = []
collapse_from after (c ∷ s) =
    let in_space = collapse_from true s in
    let in_word = collapse_from false s in
    if is_space c then (if after then in_space else 32 ∷ in_space) else c ∷ in_word

unfoldable pub field_name : Text → Text
unfolding collapse_from
field_name name = collapse_from false (trim name)

module _ (to_upper : Text → Text) where
  abbrev pub tag_of : Text → Text
  tag_of name = to_upper (underscores name)

  -- One section, with the tags of those before it.
  unfoldable pub read_field : (lenient : Bool) → List Text → Json → Result Invalid PromptField
  unfolding field_name
  read_field lenient tags j = do
    ms ← or_fail (as_object j) bad_section
    raw_name ← or_fail (string_at ms (text "name")) bad_section
    content ← or_fail (string_at ms (text "content")) bad_section
    check (leb (length (field_name raw_name)) 100 && is_valid_name (field_name raw_name)) bad_name
    check (not (includes tags (tag_of (field_name raw_name)))) repeated_name
    check (lenient || leb (length content) max_section) long_text
    ok (record { name = field_name raw_name; content = content })

  unfoldable pub read_fields :
      (lenient : Bool) → List Text → List Json → Result Invalid (List PromptField)
  unfolding read_field
  read_fields lenient tags [] = ok []
  read_fields lenient tags (j ∷ js) = do
    field ← read_field lenient tags j
    rest ← read_fields lenient (tag_of field.name ∷ tags) js
    ok (field ∷ rest)

-- `item.is_favorite === true`
abbrev pub is_true : Option Json → Bool
is_true (some (bool b)) = b
is_true _ = false

-- What is thrown for the prompt with that number.
abbrev pub of_prompt {ℓ} : {A : Type ℓ} → ℕ → Result Invalid A → Result ImportError A
of_prompt n (ok a) = ok a
of_prompt n (err e) = err (at_prompt n e)

module _ (to_upper : Text → Text) where
  unfoldable pub read_prompt : (lenient : Bool) → Json → Result Invalid ImportPrompt
  unfolding read_title read_fields read_items
  read_prompt lenient j = do
    ms ← or_fail (as_object j) not_an_object
    title ← read_title lenient ms
    folder ← folder_of (get ms (text "folder"))
    raw_fields ← or_fail (as_items (get ms (text "fields"))) bad_sections
    check (leb 1 (length raw_fields) && leb (length raw_fields) 100) bad_sections
    fields ← read_fields to_upper lenient [] raw_fields
    settings ← read_metadata (get ms (text "variable_metadata"))
    ok (record {
      name = title;
      folder = folder;
      fields = fields;
      is_favorite = is_true (get ms (text "is_favorite"));
      variable_metadata = settings;
    })

  -- The prompts from the one with that number on.
  unfoldable pub read_prompts :
      (lenient : Bool) → ℕ → List Json → Result ImportError (List ImportPrompt)
  unfolding read_prompt
  read_prompts lenient n [] = ok []
  read_prompts lenient n (j ∷ js) = do
    prompt ← of_prompt n (read_prompt lenient j)
    rest ← read_prompts lenient (n + 1) js
    ok (prompt ∷ rest)

  unfoldable pub validate_import_prompts :
      (lenient : Bool) → Json → Result ImportError (List ImportPrompt)
  unfolding read_prompts
  validate_import_prompts lenient value = do
    prompts ← or_fail (as_items (some value)) bad_count
    check (leb 1 (length prompts) && leb (length prompts) max_import_prompts) bad_count
    read_prompts lenient 1 prompts

-- What stops a prompt of the preview, by kind.
pub data Problem : Type 0 where
  no_title : Problem
  long_title : ℕ → Problem
  long_section : PromptField → Problem

abbrev pub problem_of : Option PromptField → Option Problem
problem_of none = none
problem_of (some f) = some (long_section f)

unfoldable pub import_problem : ImportPrompt → Option Problem
import_problem p =
    if is_empty (trim p.name)
    then some no_title
    else if ltb max_title (length (trim p.name))
    then some (long_title (length (trim p.name)))
    else problem_of (find? (λ f. ltb max_section (length f.content)) p.fields)
