-- ===== src/Import/Conversion/Laws.antt =====
-- What a conversion leaves alone: the text without chosen placeholders, and the settings.
use prompt_maker_studio.Base.{
  Bool-cases, Option-cases, none_ne_some, Text, text_eq, text_eq_refl, eq_of_text_eq, ◌≡◌, refl,
  sym, ap, ◌∙◌, subst, ◌⊎◌, inl, inr, false, Option, none, some, List, [], ◌∷◌,
}
use prompt_maker_studio.Sections.Chars.{PromptField}
use prompt_maker_studio.Import.Items.{ImportItem}
use prompt_maker_studio.Import.Validate.{ImportPrompt}
use prompt_maker_studio.Import.Placeholders.{Piece, char, token, pieces}
use prompt_maker_studio.Import.Conversion.{
  ImportSettings, find_setting, set_setting, or_no_settings, or_hint, described, placeholder_hint,
  new_name, convert_pieces, convert_fields, convert_prompt, settings_or,
}

-- A description that is missing, null or empty.
abbrev pub IsBlank : Option (Option Text) → Type 0
IsBlank (some (some (c ∷ s))) = ⊥
IsBlank _ = Unit

-- The same setting, but that a blank description may have been filled in.
abbrev pub Keeps : ImportItem → ImportItem → Type 0
Keeps old new =
    (new ≡ old) ⊎ (IsBlank old.description × (new ≡ record old { description = new.description }))

or_hint_cases : (hint : Text) (d : Option (Option Text)) → IsBlank d ⊎ (or_hint hint d ≡ d)
or_hint_cases hint none = inl tt
or_hint_cases hint (some none) = inl tt
or_hint_cases hint (some (some [])) = inl tt
or_hint_cases hint (some (some (c ∷ s))) = inr refl

described-Keeps : (hint : Text) (item : ImportItem) → Keeps item (described hint (some item))
described-Keeps hint item = elim (or_hint_cases hint item.description) [
  | inl blank ↦ inr (blank, refl)
  | inr same_text ↦ inl (ap (λ d. record item { description = d }) same_text)
]

find-set_same :
    (key : Text) (item : ImportItem) (md : ImportSettings)
    → find_setting (set_setting key item md) key ≡ some item
find-set_same key item [] = rw (text_eq_refl key)
find-set_same key item ((k, old) ∷ md) = elim (Bool-cases (text_eq k key)) [
  | inl found ↦ rw (found, found)
  | inr other ↦ rw (other, other) (find-set_same key item md)
]

find-set_other :
    (key other : Text) (item : ImportItem) (md : ImportSettings)
    → text_eq key other ≡ false
    → find_setting (set_setting key item md) other ≡ find_setting md other
find-set_other key other item [] h = rw h
find-set_other key other item ((k, old) ∷ md) h = elim (Bool-cases (text_eq k key)) [
  | inl found ↦
      let k_other : text_eq k other ≡ false =
        subst (λ u. text_eq u other ≡ false) (sym (eq_of_text_eq k key found)) h in
      rw (found, k_other)
  | inr apart ↦ elim (Bool-cases (text_eq k other)) [
    | inl here ↦ rw (apart, here)
    | inr further ↦ rw (apart, further) (find-set_other key other item md h)
  ]
]

Keeps_trans : (a b c : ImportItem) → Keeps a b → Keeps b c → Keeps a c
Keeps_trans a b c (inl same_b) later = subst (λ i. Keeps i c) same_b later
Keeps_trans a b c (inr (blank, filled)) (inl same_c) = inr (
  blank,
  same_c
      ∙ (filled
          ∙ ap {A = ImportItem} {B = ImportItem} (λ i. record a { description = i.description })
              (sym same_c)),
)
Keeps_trans a b c (inr (blank, filled)) (inr (_, refilled)) = inr (
  blank,
  refilled
      ∙ ap {A = ImportItem} {B = ImportItem} (λ i. record i { description = c.description }) filled,
)

-- The setting of a key in new settings, which keeps the old one.
abbrev pub IsKeptIn : ImportSettings → Text → ImportItem → Type 0
IsKeptIn md key item = (new : ImportItem) × (find_setting md key ≡ some new) × Keeps item new

set_setting-IsKeptIn :
    (md : ImportSettings) (name hint key : Text) (item : ImportItem)
    → find_setting md key ≡ some item
    → IsKeptIn (set_setting name (described hint (find_setting md name)) md) key item
set_setting-IsKeptIn md name hint key item h = elim (Bool-cases (text_eq name key)) [
  | inl this_one ↦
      let e = eq_of_text_eq name key this_one in
      (
        described hint (some item),
        ap (λ n. find_setting (set_setting n (described hint (find_setting md n)) md) key) e
            ∙ (ap (λ o. find_setting (set_setting key (described hint o) md) key) h
                ∙ find-set_same key (described hint (some item)) md),
        described-Keeps hint item,
      )
  | inr other ↦
      (item, find-set_other name key (described hint (find_setting md name)) md other ∙ h, inl refl)
]

settings_or_found :
    (old : Option ImportSettings) (md : ImportSettings) (key : Text) (item : ImportItem)
    → IsKeptIn md key item
    → IsKeptIn (or_no_settings (settings_or old md)) key item
settings_or_found old [] key item (new, found, keeps) = absurd (none_ne_some found)
settings_or_found old (entry ∷ md) key item kept = kept

module _ (to_lower to_upper : Text → Text) where
  convert_pieces-IsKeptIn :
      (chosen : Option (List Text)) (content : Text) (ps : List Piece) (md : ImportSettings)
      (key : Text) (item : ImportItem)
      → find_setting md key ≡ some item
      → IsKeptIn (convert_pieces to_lower to_upper chosen content ps md).1 key item
  unfolding convert_pieces
  convert_pieces-IsKeptIn chosen content [] md key item h = (item, h, inl refl)
  convert_pieces-IsKeptIn chosen content (char c ∷ ps) md key item h =
      convert_pieces-IsKeptIn chosen content ps md key item h
  convert_pieces-IsKeptIn chosen content (token t ∷ ps) md key item h =
      elim (Option-cases (new_name to_lower to_upper chosen content t)) [
        | inl stays ↦
            rw (stays, convert_pieces) (convert_pieces-IsKeptIn chosen content ps md key item h)
        | inr (name, renamed) ↦
            let hint = placeholder_hint to_lower to_upper t in
            let (new, found, keeps) = set_setting-IsKeptIn md name hint key item h in
            let (newer, found_later, keeps_later) =
              convert_pieces-IsKeptIn chosen content ps
                (set_setting name (described hint (find_setting md name)) md) key new found in
            rw (renamed, convert_pieces)
              (newer, found_later, Keeps_trans item new newer keeps keeps_later)
      ]

  convert_fields-IsKeptIn :
      (chosen : Option (List Text)) (fs : List PromptField) (md : ImportSettings) (key : Text)
      (item : ImportItem)
      → find_setting md key ≡ some item
      → IsKeptIn (convert_fields to_lower to_upper chosen fs md).1 key item
  unfolding convert_fields
  convert_fields-IsKeptIn chosen [] md key item h = (item, h, inl refl)
  convert_fields-IsKeptIn chosen (f ∷ fs) md key item h =
      let (new, found, keeps) =
        convert_pieces-IsKeptIn chosen f.content (pieces f.content) md key item h in
      let (newer, found_later, keeps_later) =
        convert_fields-IsKeptIn chosen fs
          (convert_pieces to_lower to_upper chosen f.content (pieces f.content) md).1 key new
          found in
      (newer, found_later, Keeps_trans item new newer keeps keeps_later)

-- Converting the placeholders of a prompt, all or those chosen, loses no setting: a setting that it
-- had is still there under its name, and is the same, but that a description that was missing, null
-- or empty may have been filled in.
pub convert_prompt_keeps_settings :
    (to_lower to_upper : Text → Text) (chosen : Option (List Text)) (p : ImportPrompt) (key : Text)
    (item : ImportItem)
    → find_setting (or_no_settings p.variable_metadata) key ≡ some item
    → IsKeptIn
        (or_no_settings (convert_prompt to_lower to_upper chosen p).variable_metadata)
        key
        item
unfolding convert_prompt
convert_prompt_keeps_settings to_lower to_upper chosen p key item h =
    settings_or_found p.variable_metadata
      (convert_fields to_lower to_upper chosen p.fields (or_no_settings p.variable_metadata)).1 key
      item
      (convert_fields-IsKeptIn to_lower to_upper chosen p.fields
        (or_no_settings p.variable_metadata) key item h)
