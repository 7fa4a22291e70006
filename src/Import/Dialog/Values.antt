-- ===== src/Import/Dialog/Values.antt =====
-- features/library/ImportPrompts.tsx: a prompt of the preview as the JSON value that is validated.
use prompt_maker_studio.Base.{
  if◌then◌else◌, Text, text, true, Option, none, some, List, [], ◌∷◌, map,
}
use prompt_maker_studio.Sections.Chars.{PromptField}
use prompt_maker_studio.Import.Json.{Json, null, bool, string, array, object, to_items, to_members}
use prompt_maker_studio.Import.Items.{ImportItem}
use prompt_maker_studio.Import.Validate.{ImportPrompt}
use prompt_maker_studio.Import.Conversion.{ImportSettings}

abbrev pub map_option {ℓ κ} : {A : Type ℓ} {B : Type κ} → (A → B) → Option A → Option B
map_option f none = none
map_option f (some a) = some (f a)

-- The value that is validated: a prompt of the preview as a JSON object.
abbrev pub or_null : Option Text → Json
or_null none = null
or_null (some s) = string s

abbrev pub with_member : Text → Option Json → List (Text × Json) → List (Text × Json)
with_member name none ms = ms
with_member name (some j) ms = (name, j) ∷ ms

abbrev pub field_json : PromptField → Json
field_json f =
    object (to_members ((text "name", string f.name) ∷ (text "content", string f.content) ∷ []))

abbrev pub item_json : ImportItem → Json
item_json item = object (
    to_members (
      (text "type", item.type)
      ∷ with_member (text "required") (map_option bool item.required) (
          with_member (text "description") (map_option or_null item.description) (
            with_member (text "example") (map_option or_null item.example) (
              with_member (text "options")
                (map_option (λ choices. array (to_items (map string choices))) item.options) [])))))

abbrev pub settings_json : ImportSettings → Json
settings_json md = object (to_members (map (λ e. (e.0, item_json e.1)) md))

unfoldable pub to_json : ImportPrompt → Json
to_json p = object (
    to_members (
      (text "name", string p.name)
      ∷ (text "folder", or_null p.folder)
      ∷ (text "fields", array (to_items (map field_json p.fields)))
      ∷ with_member (text "is_favorite") (if p.is_favorite then some (bool true) else none) (
          with_member (text "variable_metadata") (map_option settings_json p.variable_metadata)
            [])))
