-- ===== src/Import/Items.antt =====
-- lib/promptImport.ts: what `validateImportPrompts` reads of the settings of a prompt. The errors are
-- those of every part of a prompt.
use prompt_maker_studio.Base.{
  leb, length, Text, text, includes, ℕ, Bool, false, Option, none, some, List, [], ◌∷◌,
}
use prompt_maker_studio.Editor.State.{code_points}
use prompt_maker_studio.Import.Json.{
  Json, null, bool, string, array, object, Items, no_items, more, Members, items, members, get,
  Result, ok, err, ◌>>=◌, check, ◌>>◌,
}

-- A setting as it was read: its type is still the JSON value, and a null is `some none`.
pub record ImportItem : Type 0 where
  pub type : Json
  pub required : Option Bool
  pub description : Option (Option Text)
  pub example : Option (Option Text)
  pub options : Option (List Text)

pub data Invalid : Type 0 where
  not_an_object bad_title bad_folder bad_sections bad_section bad_name repeated_name : Invalid
  long_text bad_metadata bad_type bad_required bad_description bad_example bad_choices : Invalid

abbrev pub as_object : Json → Option Members
as_object (object ms) = some ms
as_object _ = none

abbrev pub as_string : Json → Option Text
as_string (string s) = some s
as_string _ = none

abbrev pub or_fail {ℓ κ} : {E : Type ℓ} {A : Type κ} → Option A → E → Result E A
or_fail none e = err e
or_fail (some a) e = ok a

-- `String(type)` where it is one of the four words: an array of one item is its item.
abbrev mutual
  pub type_word : Json → Option Text
  type_word (string s) = some s
  type_word (array js) = only_word js
  type_word _ = none

  pub only_word : Items → Option Text
  only_word no_items = none
  only_word (more j no_items) = type_word j
  only_word (more j (more k js)) = none

-- `['text', 'number', 'boolean', 'list'].includes(String(type))`
abbrev pub is_one_of : List Text → Option Text → Bool
is_one_of words none = false
is_one_of words (some word) = includes words word

unfoldable pub is_input_type : Json → Bool
is_input_type type =
    is_one_of (text "text" ∷ text "number" ∷ text "boolean" ∷ text "list" ∷ []) (type_word type)

abbrev pub read_required : Option Json → Result Invalid (Option Bool)
read_required none = ok none
read_required (some (bool b)) = ok (some b)
read_required (some _) = err bad_required

-- A description or an example.
abbrev pub read_detail : ℕ → Invalid → Option Json → Result Invalid (Option (Option Text))
read_detail most e none = ok none
read_detail most e (some null) = ok (some none)
read_detail most e (some (string s)) = do check (leb (length s) most) e; ok (some (some s))
read_detail most e (some _) = err e

abbrev pub read_choices : List Json → Result Invalid (List Text)
read_choices [] = ok []
read_choices (j ∷ js) = do
  choice ← or_fail (as_string j) bad_choices
  check (leb (code_points choice) 200) bad_choices
  rest ← read_choices js
  ok (choice ∷ rest)

abbrev pub read_options : Option Json → Result Invalid (Option (List Text))
read_options none = ok none
read_options (some null) = ok none
read_options (some (array js)) = do
  check (leb (length (items js)) 50) bad_choices
  choices ← read_choices (items js)
  ok (some choices)
read_options (some _) = err bad_choices

unfoldable pub read_item : Json → Result Invalid ImportItem
unfolding is_input_type
read_item j = do
  ms ← or_fail (as_object j) bad_type
  type ← or_fail (get ms (text "type")) bad_type
  check (is_input_type type) bad_type
  required ← read_required (get ms (text "required"))
  description ← read_detail 500 bad_description (get ms (text "description"))
  example ← read_detail 10000 bad_example (get ms (text "example"))
  options ← read_options (get ms (text "options"))
  ok (record {
    type = type;
    description = description;
    required = required;
    example = example;
    options = options;
  })

unfoldable pub read_items : List (Text × Json) → Result Invalid (List (Text × ImportItem))
unfolding read_item
read_items [] = ok []
read_items ((key, j) ∷ ms) = do item ← read_item j; rest ← read_items ms; ok ((key, item) ∷ rest)

abbrev pub read_metadata : Option Json → Result Invalid (Option (List (Text × ImportItem)))
read_metadata none = ok none
read_metadata (some null) = ok none
read_metadata (some (object ms)) = do settings ← read_items (members ms); ok (some settings)
read_metadata (some _) = err bad_metadata
