-- ===== src/Import/SplitText.antt =====
-- lib/promptImport.ts (under frontend/src): `splitText`, which cuts a text that is too long for one
-- section. The bound, 10,000 in the program, is a parameter. The loop has the length of the text as
-- its fuel: every round goes on by a character at least. A paragraph break at index 0 is in no
-- placeholder, so that the search below 0 is never asked for.
pub mod Laws
use prompt_maker_studio.Base.{
  ltb, leb, ◌==◌, if◌then◌else◌, ==_iff, ==_refl, Bool-cases, Option-cases, both, either,
  eq_of_some, same, none_ne_some, false_ne_true, true_of_not, false_of_not, length, get_elem?, take,
  drop, filter, any, all, find?, All, concat, slice, drop-drop, length-append, take-append-drop,
  slice-append-drop, length-take, length-drop, take-append-length, drop-append-length,
  filter-append, length-filter-le, drop-all, slice-empty, concat-append, length-reverse, Text, text,
  text_eq, text_eq_refl, eq_of_text_eq, text_eq_iff, includes, is_space, trim_start, trim_end, trim,
  is_empty, join, take_while, drop_while, strip, length-strip, eq_of_strip, strip-append,
  length-drop_while, length-trim_start, push_new, push_all, set_of, first_uses, IsDistinct,
  includes-append, filter-filter, push_all-first_uses, set_of-first_uses, includes-first_uses,
  first_uses-IsDistinct, IsDistinct-snoc, push_new-cons, ℕ, zero, suc, ◌+◌, ◌-◌, ◌*◌, ◌/◌, ◌%◌, ◌≤◌,
  ◌<◌, max, min, ◌≡◌, refl, sym, ap, ap₂, ◌∙◌, subst, fun_ext, ◌≢◌, ◌↔◌, ◌⊎◌, inl, inr, Bool, true,
  false, not, ◌&&◌, ◌||◌, Option, none, some, some-injective, List, [], ◌∷◌, ◌++◌, map, append-nil,
  append_assoc, map-append, arith,
}
use prompt_maker_studio.Sections.Variables.{TextPart, plain, variable, part_text, split_variables}

-- `spans`: where the placeholders begin and end, from `offset` on.
unfoldable pub spans_from : ℕ → List TextPart → List (ℕ × ℕ)
spans_from offset [] = []
spans_from offset (plain s ∷ parts) = spans_from (offset + length s) parts
spans_from offset (variable token name ∷ parts) =
    (offset, offset + length token) ∷ spans_from (offset + length token) parts

unfoldable pub inside : List (ℕ × ℕ) → ℕ → Option (ℕ × ℕ)
inside spans at = find? (λ span. ltb span.0 at && ltb at span.1) spans

abbrev pub is_inside : List (ℕ × ℕ) → ℕ → Bool
is_inside spans at = any (λ span. ltb span.0 at && ltb at span.1) spans

abbrev pub is_found : Option Text → Bool
is_found none = false
is_found (some rest) = true

unfoldable pub is_paragraph : Text → ℕ → Bool
is_paragraph s at = is_found (strip (text "\n\n") (drop at s))

-- The two `lastIndexOf`: the last paragraph break at an index of at most the first argument, but for
-- those inside a placeholder.
unfoldable pub last_paragraph : ℕ → Text → List (ℕ × ℕ) → ℕ → Option ℕ
last_paragraph zero s spans start =
    if is_paragraph s 0 && not (ltb start 2 && is_inside spans 2) then some 0 else none
last_paragraph (suc at) s spans start =
    let earlier = last_paragraph at s spans start in
    if is_paragraph s (suc at) && not (ltb start (suc at + 2) && is_inside spans (suc at + 2))
    then some (suc at)
    else earlier

unfoldable pub at_paragraph : Option ℕ → ℕ → ℕ → ℕ
at_paragraph none start end_at = end_at
at_paragraph (some p) start end_at = if ltb start (p + 2) then p + 2 else end_at

unfoldable pub around_span : Option (ℕ × ℕ) → ℕ → ℕ → ℕ
around_span none start end_at = end_at
around_span (some span) start end_at = if ltb start span.0 then span.0 else span.1

abbrev pub is_low_surrogate : Option ℕ → Bool
is_low_surrogate none = false
is_low_surrogate (some c) = leb 56320 c && leb c 57343

unfoldable pub keep_pair : Text → ℕ → ℕ → ℕ
keep_pair s start end_at =
    if is_low_surrogate (get_elem? s end_at) && ltb start (end_at - 1) then end_at - 1 else end_at

module _ (max_section : ℕ) where
  -- Where the section that starts at `start` ends.
  unfoldable pub cut_end : Text → List (ℕ × ℕ) → ℕ → ℕ
  cut_end s spans start =
      let limit = start + max_section in
      let by_paragraph = at_paragraph (last_paragraph (limit - 2) s spans start) start limit in
      keep_pair s start (around_span (inside spans by_paragraph) start by_paragraph)

  unfoldable pub split_from_start : ℕ → Text → List (ℕ × ℕ) → ℕ → List Text
  split_from_start zero s spans start = drop start s ∷ []
  split_from_start (suc fuel) s spans start =
      let end_at = cut_end s spans start in
      let rest = split_from_start fuel s spans end_at in
      if ltb max_section (length s - start) then slice s start end_at ∷ rest else drop start s ∷ []

  unfoldable pub split_text : Text → List Text
  unfolding split_from_start cut_end
  split_text s = split_from_start (length s) s (spans_from 0 (split_variables s)) 0
