-- ===== src/Import/SplitText/Laws.antt =====
-- Cutting a long text loses nothing, and its parts fit.
use prompt_maker_studio.Base.{
  ltb, Bool-cases, length, drop, All, concat, slice-append-drop, length-take, length-drop, Text, ℕ,
  zero, suc, ◌+◌, ◌-◌, ◌≤◌, ◌<◌, ◌≡◌, inl, inr, not, ◌&&◌, Option, none, some, List, [], ◌∷◌,
  append-nil, arith,
}
use prompt_maker_studio.Sections.Variables.{split_variables}
use prompt_maker_studio.Import.SplitText.{
  spans_from, inside, last_paragraph, at_paragraph, around_span, keep_pair, cut_end,
  split_from_start, split_text, is_inside, is_paragraph,
}

after_inside :
    (spans : List (ℕ × ℕ)) (at start : ℕ)
    → start < at
    → start < around_span (inside spans at) start at
unfolding inside around_span
after_inside [] at start h = h
after_inside ((from, to) ∷ spans) at start h = elim (Bool-cases (ltb from at && ltb at to)) [
  | inl here ↦ rw here (ground arith)
  | inr later ↦ rw later (after_inside spans at start h)
]

after_paragraph :
    (o : Option ℕ) (start end_at : ℕ) → start < end_at → start < at_paragraph o start end_at
unfolding at_paragraph
after_paragraph none start end_at h = h
after_paragraph (some p) start end_at h = ground arith

after_pair : (s : Text) (start end_at : ℕ) → start < end_at → start < keep_pair s start end_at
unfolding keep_pair
after_pair s start end_at h = ground arith

module _ (max_section : ℕ) where
  -- Every round goes on.
  cut_end-after :
      (s : Text) (spans : List (ℕ × ℕ)) (start : ℕ)
      → 0 < max_section
      → start < cut_end max_section s spans start
  unfolding cut_end
  cut_end-after s spans start h =
      let limit = start + max_section in
      let o = last_paragraph (limit - 2) s spans start in
      after_pair s start _ (
        after_inside spans (at_paragraph o start limit) start
          (after_paragraph o start limit (omega arith)))

  concat-split_from_start :
      (fuel : ℕ) (s : Text) (spans : List (ℕ × ℕ)) (start : ℕ)
      → 0 < max_section
      → concat (split_from_start max_section fuel s spans start) ≡ drop start s
  unfolding split_from_start
  concat-split_from_start zero s spans start h = append-nil (drop start s)
  concat-split_from_start (suc fuel) s spans start h =
      let end_at = cut_end max_section s spans start in
      elim (Bool-cases (ltb max_section (length s - start))) [
        | inl long ↦
            rw (long, concat-split_from_start fuel s spans end_at h)
              (slice-append-drop s start end_at (omega (arith, cut_end-after s spans start h)))
        | inr short ↦ rw short (append-nil (drop start s))
      ]

  -- For a positive bound, the parts of a long section, joined, are its text.
  pub concat-split_text : (s : Text) → 0 < max_section → concat (split_text max_section s) ≡ s
  unfolding split_text
  concat-split_text s h =
      concat-split_from_start (length s) s (spans_from 0 (split_variables s)) 0 h

  before_paragraph :
      (at : ℕ) (s : Text) (spans : List (ℕ × ℕ)) (start limit : ℕ)
      → at + 2 ≤ limit
      → at_paragraph (last_paragraph at s spans start) start limit ≤ limit
  unfolding last_paragraph at_paragraph
  before_paragraph zero s spans start limit h =
      elim (Bool-cases (is_paragraph s 0 && not (ltb start 2 && is_inside spans 2))) [
        | inl found ↦ rw found (ground arith)
        | inr none_there ↦ rw none_there (omega arith)
      ]
  before_paragraph (suc at) s spans start limit h =
      elim (Bool-cases
        (is_paragraph s (suc at) && not (ltb start (suc at + 2) && is_inside spans (suc at + 2)))) [
          | inl found ↦ rw found (ground arith)
          | inr earlier ↦ rw earlier (before_paragraph at s spans start limit (omega arith))
        ]

  before_pair : (s : Text) (start end_at : ℕ) → keep_pair s start end_at ≤ end_at
  unfolding keep_pair
  before_pair s start end_at = ground arith

  cut_end-before :
      (s : Text) (start : ℕ)
      → 2 ≤ max_section
      → cut_end max_section s [] start ≤ start + max_section
  unfolding cut_end inside around_span
  cut_end-before s start h =
      let limit = start + max_section in
      let p = at_paragraph (last_paragraph (limit - 2) s [] start) start limit in
      omega
        (arith, before_pair s start p, before_paragraph (limit - 2) s [] start limit (omega arith))

  split_from_start-fits :
      (fuel : ℕ) (s : Text) (start : ℕ)
      → 2 ≤ max_section
      → length s ≤ start + fuel
      → All (λ part. length part ≤ max_section) (split_from_start max_section fuel s [] start)
  unfolding split_from_start
  split_from_start-fits zero s start h enough = (omega (arith, length-drop start s), tt)
  split_from_start-fits (suc fuel) s start h enough =
      let end_at = cut_end max_section s [] start in
      elim (Bool-cases (ltb max_section (length s - start))) [
        | inl long ↦ rw long (
          omega (arith, length-take (end_at - start) (drop start s), cut_end-before s start h),
          split_from_start-fits fuel s end_at h
              (omega (arith, cut_end-after s [] start (omega arith))),
        )
        | inr short ↦ rw short (ground (arith, length-drop start s), tt)
      ]

  -- For a bound of at least 2, a text without placeholders is cut into parts that all fit, the last one
  -- included: the fuel is enough.
  pub split_text-fits :
      (s : Text)
      → 2 ≤ max_section
      → spans_from 0 (split_variables s) ≡ []
      → All (λ part. length part ≤ max_section) (split_text max_section s)
  unfolding split_text
  split_text-fits s h e = rw e (split_from_start-fits (length s) s 0 h (omega arith))
