-- ===== src/Import/Conversion.antt =====
-- lib/promptImport.ts: `convertPlaceholders` and `reapplyConversions`. The settings of a prompt are
-- an object, the list of its entries in order; the cases of letters are parameters.
pub mod Laws
pub mod Unchosen
use prompt_maker_studio.Base.{
  ltb, leb, ◌==◌, if◌then◌else◌, ==_iff, ==_refl, Bool-cases, Option-cases, both, either,
  eq_of_some, same, none_ne_some, false_ne_true, true_of_not, false_of_not, length, get_elem?, take,
  drop, filter, any, all, find?, All, concat, slice, drop-drop, length-append, take-append-drop,
  slice-append-drop, length-take, length-drop, take-append-length, drop-append-length,
  filter-append, length-filter-le, drop-all, slice-empty, concat-append, length-reverse, Text, text,
  text_eq, text_eq_refl, eq_of_text_eq, text_eq_iff, text_eq_comm, includes, is_space, trim_start,
  trim_end, trim, is_empty, join, take_while, drop_while, strip, length-strip, eq_of_strip,
  strip-append, length-drop_while, length-trim_start, push_new, push_all, set_of, first_uses,
  IsDistinct, includes-append, filter-filter, push_all-first_uses, set_of-first_uses,
  includes-first_uses, first_uses-IsDistinct, IsDistinct-snoc, push_new-cons, digits, decimal,
  decimal-is_digit, decimal_inj, trim_end-cons, trim_idem, ℕ, zero, suc, ◌+◌, ◌-◌, ◌*◌, ◌/◌, ◌%◌,
  ◌≤◌, ◌<◌, max, min, ◌≡◌, refl, sym, ap, ap₂, ◌∙◌, subst, fun_ext, ◌≢◌, ◌↔◌, ◌⊎◌, inl, inr, Bool,
  true, false, not, ◌&&◌, ◌||◌, Option, none, some, some-injective, List, [], ◌∷◌, ◌++◌, map,
  append-nil, append_assoc, map-append, arith,
}
use prompt_maker_studio.Sections.Chars.{PromptField}
use prompt_maker_studio.Sections.Variables.{variables_in}
use prompt_maker_studio.Import.Json.{Json, string}
use prompt_maker_studio.Import.Items.{ImportItem}
use prompt_maker_studio.Import.Validate.{ImportPrompt}
use prompt_maker_studio.Import.Placeholders.{
  Token, token_text, Piece, char, token, pieces, name_of, placeholders_in,
}

abbrev pub ImportSettings : Type 0
ImportSettings = List (Text × ImportItem)

-- `metadata[name]`, among the prompt's own settings. (The code also finds what every JavaScript
-- object has, for a name such as `constructor`.)
abbrev pub find_setting : ImportSettings → Text → Option ImportItem
find_setting [] key = none
find_setting ((k, item) ∷ md) key = if text_eq k key then some item else find_setting md key

-- `metadata[key] = item`
abbrev pub set_setting : Text → ImportItem → ImportSettings → ImportSettings
set_setting key item [] = (key, item) ∷ []
set_setting key item ((k, old) ∷ md) =
    if text_eq k key then (k, item) ∷ md else (k, old) ∷ set_setting key item md

-- `{ ...metadata, ...other }`
unfoldable pub merge_settings : ImportSettings → ImportSettings → ImportSettings
merge_settings md [] = md
merge_settings md ((key, item) ∷ others) = merge_settings (set_setting key item md) others

abbrev pub or_no_settings : Option ImportSettings → ImportSettings
or_no_settings none = []
or_no_settings (some md) = md

-- `description || hint`
abbrev pub or_hint : Text → Option (Option Text) → Option (Option Text)
or_hint hint (some (some (c ∷ s))) = some (some (c ∷ s))
or_hint hint (some (some [])) = some (some hint)
or_hint hint (some none) = some (some hint)
or_hint hint none = some (some hint)

abbrev pub described : Text → Option ImportItem → ImportItem
described hint none = record {
  type = string (text "text");
  required = none;
  description = some (some hint);
  example = none;
  options = none;
}
described hint (some item) = record item { description = or_hint hint item.description }

-- `replace(/[_-]+/g, ' ')`, with whether the character before is one of them.
unfoldable pub spaced_from : Bool → Text → Text
spaced_from after [] = []
spaced_from after (c ∷ s) =
    let in_run = spaced_from true s in
    let in_word = spaced_from false s in
    if c == 95 || c == 45 then (if after then in_run else 32 ∷ in_run) else c ∷ in_word

abbrev pub is_chosen : Option (List Text) → Text → Bool
is_chosen none t = true
is_chosen (some chosen) t = includes chosen t

abbrev pub prepend : Text → Text × ImportSettings → Text × ImportSettings
prepend s (rest, md) = (s ++ rest, md)

abbrev pub settings_or : Option ImportSettings → ImportSettings → Option ImportSettings
settings_or old [] = old
settings_or old (entry ∷ md) = some (entry ∷ md)

-- What `reapplyConversions` reads of the prompt in the library.
pub record Current : Type 0 where
  pub fields : List PromptField
  pub variable_metadata : Option ImportSettings

module _ (to_lower to_upper : Text → Text) where
  unfoldable pub placeholder_hint : Token → Text
  unfolding spaced_from
  placeholder_hint t =
      let inner = spaced_from false (trim t.inner) in
      to_upper (take 1 inner) ++ to_lower (drop 1 inner)

  -- The name that replaces a token, if it is a placeholder and chosen.
  unfoldable pub new_name : Option (List Text) → Text → Token → Option Text
  new_name chosen content t =
      if is_chosen chosen (token_text t) then name_of to_lower content t else none

  unfoldable pub convert_pieces :
      Option (List Text) → Text → List Piece → ImportSettings → Text × ImportSettings
  unfolding placeholder_hint new_name
  convert_pieces chosen content [] md = ([], md)
  convert_pieces chosen content (char c ∷ ps) md =
      prepend (c ∷ []) (convert_pieces chosen content ps md)
  convert_pieces chosen content (token t ∷ ps) md = elim (new_name chosen content t) [
    | none ↦ prepend (token_text t) (convert_pieces chosen content ps md)
    | some name ↦ prepend (text "{{" ++ (name ++ text "}}")) (
        convert_pieces chosen content ps
          (set_setting name (described (placeholder_hint t) (find_setting md name)) md))
  ]

  unfoldable pub convert_fields :
      Option (List Text) → List PromptField → ImportSettings → List PromptField × ImportSettings
  unfolding convert_pieces
  convert_fields chosen [] md = ([], md)
  convert_fields chosen (f ∷ fs) md =
      let here = convert_pieces chosen f.content (pieces f.content) md in
      let later = convert_fields chosen fs here.1 in
      (record f { content = here.0 } ∷ later.0, later.1)

  unfoldable pub convert_prompt : Option (List Text) → ImportPrompt → ImportPrompt
  unfolding convert_fields
  convert_prompt chosen p =
      let converted = convert_fields chosen p.fields (or_no_settings p.variable_metadata) in
      record p {
        fields = converted.0;
        variable_metadata = settings_or p.variable_metadata converted.1;
      }

  unfoldable pub convert_placeholders : Option (List Text) → List ImportPrompt → List ImportPrompt
  unfolding convert_prompt
  convert_placeholders chosen prompts = map (convert_prompt chosen) prompts

  -- The placeholders whose input the prompt in the library has.
  unfoldable pub known_tokens : Current → ImportPrompt → List Text
  unfolding placeholders_in variables_in
  known_tokens current p = concat (
      map
        (λ f.
          map (λ e. e.0)
            (filter (λ e. includes (variables_in current.fields) e.1)
              (placeholders_in to_lower f.content)))
        p.fields)

  unfoldable pub reapply_conversions : Current → ImportPrompt → ImportPrompt
  unfolding known_tokens convert_prompt
  reapply_conversions current p = elim (known_tokens current p) [
    | [] ↦ p
    | t ∷ ts ↦ convert_prompt (some (t ∷ ts)) (record p {
      variable_metadata = some (
          merge_settings (or_no_settings p.variable_metadata)
            (or_no_settings current.variable_metadata));
    })
  ]
