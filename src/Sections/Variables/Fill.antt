-- ===== src/Sections/Variables/Fill.antt =====
-- Splitting a text at its variables, and filling them in.
use prompt_maker_studio.Base.{
  ap₂, map-append, ◌⊎◌, ℕ, ◌+◌, ◌≡◌, refl, sym, ap, ◌∙◌, inl, inr, List, [], ◌∷◌, ◌++◌, map, none,
  some, arith, Text, All, concat, length, drop, slice, ltb, if◌then◌else◌, Bool-cases, drop-all,
  slice-empty, concat-append, append-nil,
}
use prompt_maker_studio.Scan.{Match, match_all, replace_from}
use prompt_maker_studio.Scan.Laws.{match_all-Located, replace_from-token}
use prompt_maker_studio.Sections.Variables.{
  Values, value_for, fill_token, fill_variables, variable_at, TextPart, plain, variable, part_text,
  parts_from, split_variables,
}
use prompt_maker_studio.Sections.Variables.Scanner.{variable_at-IsHit}

-- What filling makes of one part.
abbrev pub fill_part : Values → TextPart → Text
fill_part values (plain s) = s
fill_part values (variable token name) = fill_token values token name

module _ (g : TextPart → Text) (plain_kept : (u : Text) → g (plain u) ≡ u) where
  text_between :
      (s : Text) (i j : ℕ)
      → concat (map g (if ltb i j then plain (slice s i j) ∷ [] else [])) ≡ slice s i j
  text_between s i j = elim (Bool-cases (ltb i j)) [
    | inl before ↦
        rw before (ap (λ u. u ++ []) (plain_kept (slice s i j)) ∙ append-nil (slice s i j))
    | inr at ↦ rw at (sym (slice-empty s i j (ground arith)))
  ]

  text_after :
      (s : Text) (last : ℕ)
      → concat (map g (if ltb last (length s) then plain (drop last s) ∷ [] else [])) ≡ drop last s
  text_after s last = elim (Bool-cases (ltb last (length s))) [
    | inl more ↦ rw more (ap (λ u. u ++ []) (plain_kept (drop last s)) ∙ append-nil (drop last s))
    | inr none_left ↦ rw none_left (sym (drop-all last s (ground arith)))
  ]

  -- The parts, each mapped and put together, are what replacing every match gives.
  concat-parts :
      (s : Text) (last : ℕ) (ms : List (Match Text))
      → concat (map g (parts_from s last ms))
        ≡ replace_from (λ m. g (variable m.token m.group)) s last ms
  unfolding parts_from replace_from
  concat-parts s last [] = text_after s last
  concat-parts s last (m ∷ ms) =
      let gap = if ltb last m.index then plain (slice s last m.index) ∷ [] else [] in
      ap concat (map-append g gap _)
      ∙ concat-append (map g gap) _
      ∙ ap₂ (λ u v. u ++ (g (variable m.token m.group) ++ v)) (text_between s last m.index)
          (concat-parts s (m.index + length m.token) ms)

-- No character is lost or invented: the parts of a text, put together again, are the text.
pub split_variables-concat : (s : Text) → concat (map part_text (split_variables s)) ≡ s
unfolding split_variables
split_variables-concat s =
    concat-parts part_text (λ u. refl) s 0 (match_all variable_at s)
    ∙ replace_from-token s 0 _ (match_all-Located variable_at variable_at-IsHit s)

-- Filling a text fills the variable parts that the editor highlights, and only those.
pub fill_variables-split :
    (s : Text) (values : Values)
    → fill_variables s values ≡ concat (map (fill_part values) (split_variables s))
unfolding split_variables fill_variables
fill_variables-split s values =
    sym (concat-parts (fill_part values) (λ u. refl) s 0 (match_all variable_at s))

-- A part stays as it is where its name has no value or an empty one.
abbrev pub IsUnfilled : Values → TextPart → Type 0
IsUnfilled values (plain s) = Unit
IsUnfilled values (variable token name) =
    (value_for values name ≡ none) ⊎ (value_for values name ≡ some [])

fill_part-IsUnfilled :
    (values : Values) (ps : List TextPart)
    → All (IsUnfilled values) ps
    → map (fill_part values) ps ≡ map part_text ps
unfolding fill_token
fill_part-IsUnfilled values [] h = refl
fill_part-IsUnfilled values (plain s ∷ ps) (_, h) = ap (s ∷◌) (fill_part-IsUnfilled values ps h)
fill_part-IsUnfilled values (variable token name ∷ ps) (inl e, h) =
    rw (e, fill_token) (ap (token ∷◌) (fill_part-IsUnfilled values ps h))
fill_part-IsUnfilled values (variable token name ∷ ps) (inr e, h) =
    rw (e, fill_token) (ap (token ∷◌) (fill_part-IsUnfilled values ps h))

-- Unfilled variables stay as `{{name}}`: with none filled, the text is unchanged.
pub fill_variables-unfilled :
    (s : Text) (values : Values)
    → All (IsUnfilled values) (split_variables s)
    → fill_variables s values ≡ s
fill_variables-unfilled s values h =
    fill_variables-split s values
    ∙ ap concat (fill_part-IsUnfilled values (split_variables s) h)
    ∙ split_variables-concat s
