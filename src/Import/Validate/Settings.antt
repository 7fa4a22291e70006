-- ===== src/Import/Validate/Settings.antt =====
-- What holds of the settings of the variables of an imported prompt.
use prompt_maker_studio.Base.{
  leb, length, All, Text, text, ℕ, suc, ◌≤◌, ◌≡◌, refl, ap, subst, true, Option, none, some, List,
  [], ◌∷◌, arith,
}
use prompt_maker_studio.Editor.State.{code_points}
use prompt_maker_studio.Import.Json.{
  Json, null, number, bool, string, array, object, items, members, get, ok, bind_ok, check_ok,
}
use prompt_maker_studio.Import.Items.{
  ImportItem, Invalid, as_object, as_string, or_fail, is_input_type, read_required, read_detail,
  read_choices, read_options, read_item, read_items, read_metadata, bad_type, bad_choices,
  bad_description, bad_example,
}
use prompt_maker_studio.Import.Validate.Reading.{ok_injective}

abbrev pub FitsDetail : ℕ → Option (Option Text) → Type 0
FitsDetail most (some (some s)) = length s ≤ most
FitsDetail most _ = Unit

abbrev pub FitsOptions : Option (List Text) → Type 0
FitsOptions none = Unit
FitsOptions (some choices) = (length choices ≤ 50) × All (λ s. code_points s ≤ 200) choices

abbrev pub IsSetting : Text × ImportItem → Type 0
IsSetting (key, item) =
    (is_input_type item.type ≡ true)
    × FitsDetail 500 item.description
    × FitsDetail 10000 item.example
    × FitsOptions item.options

abbrev pub AreSettings : Option (List (Text × ImportItem)) → Type 0
AreSettings none = Unit
AreSettings (some settings) = All IsSetting settings

detail_fits :
    (most : ℕ) (e : Invalid) (o : Option Json) (d : Option (Option Text))
    → read_detail most e o ≡ ok d
    → FitsDetail most d
detail_fits most e none d h = subst (FitsDetail most) (ok_injective h) tt
detail_fits most e (some null) d h = subst (FitsDetail most) (ok_injective h) tt
detail_fits most e (some (string s)) d h =
    let (short, k) = check_ok (leb (length s) most) e _ h in
    let fits : FitsDetail most (some (some s)) = ground arith in
    subst (FitsDetail most) (ok_injective k) fits
detail_fits most e (some number) d h = cc
detail_fits most e (some (bool b)) d h = cc
detail_fits most e (some (array js)) d h = cc
detail_fits most e (some (object ms)) d h = cc

choices_fit :
    (js : List Json) (choices : List Text)
    → read_choices js ≡ ok choices
    → (length choices ≡ length js) × All (λ s. code_points s ≤ 200) choices
choices_fit [] choices h =
    subst (λ l. (length l ≡ 0) × All (λ s. code_points s ≤ 200) l) (ok_injective h) (refl, tt)
choices_fit (j ∷ js) choices h =
    let (choice, is_text, h1) = bind_ok (or_fail (as_string j) bad_choices) _ h in
    let (short, h2) = check_ok (leb (code_points choice) 200) bad_choices _ h1 in
    let (rest, others, h3) = bind_ok (read_choices js) _ h2 in
    let (len, fit) = choices_fit js rest others in
    let short_enough : code_points choice ≤ 200 = ground arith in
    subst (λ l. (length l ≡ suc (length js)) × All (λ s. code_points s ≤ 200) l) {x = choice ∷ rest}
      (ok_injective h3) (ap suc len, (short_enough, fit))

options_fit :
    (o : Option Json) (options : Option (List Text))
    → read_options o ≡ ok options
    → FitsOptions options
options_fit none options h = subst FitsOptions (ok_injective h) tt
options_fit (some null) options h = subst FitsOptions (ok_injective h) tt
options_fit (some (array js)) options h =
    let (few, h1) = check_ok (leb (length (items js)) 50) bad_choices _ h in
    let (choices, are_choices, h2) = bind_ok (read_choices (items js)) _ h1 in
    let (len, fit) = choices_fit (items js) choices are_choices in
    let fits : FitsOptions (some choices) = (ground (arith, len), fit) in
    subst FitsOptions (ok_injective h2) fits
options_fit (some number) options h = cc
options_fit (some (bool b)) options h = cc
options_fit (some (string s)) options h = cc
options_fit (some (object ms)) options h = cc

item-IsSetting :
    (key : Text) (j : Json) (item : ImportItem) → read_item j ≡ ok item → IsSetting (key, item)
unfolding read_item
item-IsSetting key j item h =
    let (ms, is_obj, h1) = bind_ok (or_fail (as_object j) bad_type) _ h in
    let (type, typed, h2) = bind_ok (or_fail (get ms (text "type")) bad_type) _ h1 in
    let (is_type, h3) = check_ok (is_input_type type) bad_type _ h2 in
    let (required, r, h4) = bind_ok (read_required (get ms (text "required"))) _ h3 in
    let (description, d, h5) =
      bind_ok (read_detail 500 bad_description (get ms (text "description"))) _ h4 in
    let (example, e, h6) = bind_ok (read_detail 10000 bad_example (get ms (text "example"))) _ h5 in
    let (options, o, h7) = bind_ok (read_options (get ms (text "options"))) _ h6 in
    subst (λ i. IsSetting (key, i))
      {x = record {
        type = type;
        description = description;
        required = required;
        example = example;
        options = options;
      }}
      (ok_injective h7)
      (
        is_type,
        detail_fits 500 bad_description (get ms (text "description")) description d,
        detail_fits 10000 bad_example (get ms (text "example")) example e,
        options_fit (get ms (text "options")) options o,
      )

settings-All-IsSetting :
    (ms : List (Text × Json)) (settings : List (Text × ImportItem))
    → read_items ms ≡ ok settings
    → All IsSetting settings
unfolding read_items
settings-All-IsSetting [] settings h = subst (All IsSetting) (ok_injective h) tt
settings-All-IsSetting ((key, j) ∷ ms) settings h =
    let (item, first, h1) = bind_ok (read_item j) _ h in
    let (rest, others, h2) = bind_ok (read_items ms) _ h1 in
    subst (All IsSetting) {x = (key, item) ∷ rest} (ok_injective h2)
      (item-IsSetting key j item first, settings-All-IsSetting ms rest others)

pub metadata_fits :
    (o : Option Json) (settings : Option (List (Text × ImportItem)))
    → read_metadata o ≡ ok settings
    → AreSettings settings
metadata_fits none settings h = subst AreSettings (ok_injective h) tt
metadata_fits (some null) settings h = subst AreSettings (ok_injective h) tt
metadata_fits (some (object ms)) settings h =
    let (read, are_read, h1) = bind_ok (read_items (members ms)) _ h in
    subst AreSettings {x = some read} (ok_injective h1)
      (settings-All-IsSetting (members ms) read are_read)
metadata_fits (some number) settings h = cc
metadata_fits (some (bool b)) settings h = cc
metadata_fits (some (string s)) settings h = cc
metadata_fits (some (array js)) settings h = cc
