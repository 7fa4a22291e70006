-- ===== src/Import/Naming.antt =====
-- lib/promptImport.ts: `sectionName`, which makes a heading a section name, and
-- `splitLongSections`. The Unicode decomposition and the upper case are parameters. The loop over
-- the numbers has one round more than there are taken tags.
pub mod Laws
pub mod Fits
use prompt_maker_studio.Base.{
  free_number, ltb, leb, ◌==◌, if◌then◌else◌, ==_iff, ==_refl, Bool-cases, Option-cases, both,
  either, eq_of_some, same, none_ne_some, false_ne_true, true_of_not, false_of_not, length,
  get_elem?, take, drop, filter, any, all, find?, All, concat, slice, drop-drop, length-append,
  take-append-drop, slice-append-drop, length-take, length-drop, take-append-length,
  drop-append-length, filter-append, length-filter-le, drop-all, slice-empty, concat-append,
  length-reverse, Text, text, text_eq, text_eq_refl, eq_of_text_eq, text_eq_iff, text_eq_comm,
  includes, is_space, trim_start, trim_end, trim, is_empty, join, take_while, drop_while, strip,
  length-strip, eq_of_strip, strip-append, length-drop_while, length-trim_start, push_new, push_all,
  set_of, first_uses, IsDistinct, includes-append, filter-filter, push_all-first_uses,
  set_of-first_uses, includes-first_uses, first_uses-IsDistinct, IsDistinct-snoc, push_new-cons,
  digits, decimal, decimal-is_digit, decimal-no_space, decimal_inj, trim_end-cons, trim_idem, ℕ,
  zero, suc, ◌+◌, ◌-◌, ◌*◌, ◌/◌, ◌%◌, ◌≤◌, ◌<◌, max, min, ◌≡◌, refl, sym, ap, ap₂, ◌∙◌, subst,
  fun_ext, ◌≢◌, ◌↔◌, ◌⊎◌, inl, inr, Bool, true, false, not, ◌&&◌, ◌||◌, Option, none, some,
  some-injective, List, [], ◌∷◌, ◌++◌, map, append-nil, append_assoc, map-append, arith,
}
use prompt_maker_studio.Sections.Chars.{PromptField, is_name_start, is_section_char}
use prompt_maker_studio.Import.SplitText.{split_text}
use prompt_maker_studio.Import.Items.{ImportItem}
use prompt_maker_studio.Import.Validate.{ImportPrompt, collapse_from, max_section, tag_of}

-- [̀-ͯ'’]
abbrev pub is_mark : ℕ → Bool
is_mark c = (leb 768 c && leb c 879) || c == 39 || c == 8217

abbrev pub is_decimal : ℕ → Bool
is_decimal c = leb 48 c && leb c 57

abbrev pub after_number : Text → Text → Text → Text
after_number heading [] rest = heading
after_number heading (d ∷ ds) [] = heading
after_number heading (d ∷ ds) (c ∷ rest) = if c == 46 || c == 41 then trim_start rest else heading

-- `replace(/^\s*\d+[.)]\s*/, '')`
unfoldable pub without_number : Text → Text
without_number heading =
    let start = trim_start heading in
    after_number heading (take_while is_decimal start) (drop_while is_decimal start)

-- `replace(/[^A-Za-z0-9_ -]+/g, ' ')`, with whether the character before is one of those.
unfoldable pub spell_from : Bool → Text → Text
spell_from after [] = []
spell_from after (c ∷ s) =
    let in_run = spell_from true s in
    let in_word = spell_from false s in
    if is_section_char c then c ∷ in_word else if after then in_run else 32 ∷ in_run

module _ (decompose : Text → Text) where
  unfoldable pub heading_words : Text → Text
  unfolding without_number spell_from collapse_from
  heading_words heading =
      let plain = filter (λ c. not (is_mark c)) (decompose heading) in
      trim (take 90 (trim (collapse_from false (spell_from false (without_number plain)))))

  abbrev pub starts_as_name : Text → Bool
  starts_as_name [] = false
  starts_as_name (c ∷ s) = is_name_start c

  unfoldable pub base_name : Text → Text
  unfolding heading_words
  base_name heading =
      let words = heading_words heading in
      if starts_as_name words then words else trim (text "Section " ++ words)

-- The names that the loop tries: the first is the name itself.
abbrev pub numbered : Text → ℕ → Text
numbered base n = if leb n 1 then base else base ++ 32 ∷ decimal n

abbrev pub split_field : PromptField → List PromptField
split_field f =
    if leb (length f.content) max_section
    then f ∷ []
    else map (λ s. record { name = f.name; content = trim s }) (split_text max_section f.content)

abbrev pub with_fields : ImportPrompt → Option (List PromptField) → Option ImportPrompt
with_fields p none = none
with_fields p (some fs) = some (record p { fields = fs })

module _ (decompose to_upper : Text → Text) where
  unfoldable pub section_name : Text → List Text → Option Text
  unfolding base_name
  section_name heading taken =
      let base = base_name decompose heading in
      elim (free_number (λ n. tag_of to_upper (numbered base n)) (length taken + 1) taken 1) [
        | none ↦ none
        | some n ↦ some (numbered base n)
      ]

  -- `fields.map(field => ({ ...field, name: sectionName(field.name, taken) }))`
  unfoldable pub name_fields : List Text → List PromptField → Option (List PromptField)
  unfolding section_name
  name_fields taken [] = some []
  name_fields taken (f ∷ fs) = elim (section_name f.name taken) [
    | none ↦ none
    | some name ↦ elim (name_fields (tag_of to_upper name ∷ taken) fs) [
      | none ↦ none
      | some rest ↦ some (record f { name = name } ∷ rest)
    ]
  ]

  unfoldable pub split_long_sections : ImportPrompt → Option ImportPrompt
  unfolding name_fields
  split_long_sections p = with_fields p (name_fields [] (concat (map split_field p.fields)))
