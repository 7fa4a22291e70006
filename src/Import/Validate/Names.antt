-- ===== src/Import/Validate/Names.antt =====
-- The name of an imported section is spelt as `normalizeSectionName` of lib/sections.ts spells it.
use prompt_maker_studio.Base.{
  trim_end-cons, Bool-cases, both, all, Text, text, is_space, trim_start, trim_end, join, ℕ, ◌≡◌,
  refl, sym, ap, ◌∙◌, inl, inr, Bool, true, false, ◌&&◌, List, [], ◌∷◌, ◌++◌, append-nil,
  append_assoc, arith,
}
use mathlib.Core.List.{reverse, reverse-append}
use prompt_maker_studio.Sections.Names.{words_from, normalize_section_name}
use prompt_maker_studio.Import.Validate.{collapse_from, field_name}

all-append : (p : ℕ → Bool) (s t : Text) → all p (s ++ t) ≡ (all p s && all p t)
all-append p [] t = refl
all-append p (c ∷ s) t = ground (arith, all-append p s t)

all-reverse : (p : ℕ → Bool) (s : Text) → all p (reverse s) ≡ all p s
all-reverse p [] = refl
all-reverse p (c ∷ s) =
    ap (all p) (reverse-append (c ∷ []) s)
    ∙ all-append p (reverse s) (c ∷ [])
    ∙ ground (arith, all-reverse p s)

trim_start_blank : (s : Text) → all is_space s ≡ true → trim_start s ≡ []
trim_start_blank [] h = refl
trim_start_blank (c ∷ s) h =
    let (here, later) = both (is_space c) (all is_space s) h in rw here (trim_start_blank s later)

trim_start-snoc_any :
    (s : Text) (c : ℕ) → all is_space s ≡ false → trim_start (s ++ c ∷ []) ≡ trim_start s ++ c ∷ []
trim_start-snoc_any [] c h = cc
trim_start-snoc_any (d ∷ s) c h = elim (Bool-cases (is_space d)) [
  | inl space ↦ rw space (trim_start-snoc_any s c (rw space at h))
  | inr letter ↦ rw letter
]

trim_end_blank : (s : Text) → all is_space s ≡ true → trim_end s ≡ []
trim_end_blank s h = ap reverse (trim_start_blank (reverse s) (all-reverse is_space s ∙ h))

trim_end-cons_any : (c : ℕ) (s : Text) → all is_space s ≡ false → trim_end (c ∷ s) ≡ c ∷ trim_end s
trim_end-cons_any c s h =
    ap (λ t. reverse (trim_start t)) (reverse-append (c ∷ []) s)
    ∙ (ap reverse (trim_start-snoc_any (reverse s) c (all-reverse is_space s ∙ h))
        ∙ reverse-append (trim_start (reverse s)) (c ∷ []))

-- Both are nothing on white space alone.
collapse_from_blank : (s : Text) → all is_space s ≡ true → collapse_from true s ≡ []
unfolding collapse_from
collapse_from_blank [] h = refl
collapse_from_blank (c ∷ s) h =
    let (here, later) = both (is_space c) (all is_space s) h in
    rw here (collapse_from_blank s later)

words_from_blank : (s : Text) → all is_space s ≡ true → words_from [] s ≡ []
unfolding words_from
words_from_blank [] h = refl
words_from_blank (c ∷ s) h =
    let (here, later) = both (is_space c) (all is_space s) h in rw here (words_from_blank s later)

abbrev IsFilled : List Text → Type 0
IsFilled ws = (v : Text) × (vs : List Text) × (ws ≡ v ∷ vs)

words_from-IsFilled : (c : ℕ) (cur s : Text) → IsFilled (words_from (c ∷ cur) s)
unfolding words_from
words_from-IsFilled c cur [] = (c ∷ cur, [], refl)
words_from-IsFilled c cur (d ∷ s) = elim (Bool-cases (is_space d)) [
  | inl space ↦ (c ∷ cur, words_from [] s, rw space)
  | inr letter ↦ let (v, vs, e) = words_from-IsFilled c (cur ++ d ∷ []) s in (v, vs, rw letter e)
]

words_of-IsFilled : (s : Text) → all is_space s ≡ false → IsFilled (words_from [] s)
unfolding words_from
words_of-IsFilled [] h = cc
words_of-IsFilled (c ∷ s) h = elim (Bool-cases (is_space c)) [
  | inl space ↦ let (v, vs, e) = words_of-IsFilled s (rw space at h) in (v, vs, rw space e)
  | inr letter ↦ let (v, vs, e) = words_from-IsFilled c [] s in (v, vs, rw letter e)
]

join-cons :
    (w : Text) (ws : List Text)
    → IsFilled ws
    → join (text " ") (w ∷ ws) ≡ w ++ 32 ∷ join (text " ") ws
join-cons w ws (v, vs, e) = rw e

-- After a word read so far, and after white space.
mutual
  unfolding words_from collapse_from

  in_word :
      (c : ℕ) (cur s : Text)
      → join (text " ") (words_from (c ∷ cur) s) ≡ c ∷ cur ++ collapse_from false (trim_end s)
  in_word c cur [] = sym (append-nil (c ∷ cur))
  in_word c cur (d ∷ s) = elim (Bool-cases (is_space d)) [
    | inl space ↦ elim (Bool-cases (all is_space s)) [
      | inl blank ↦
          rw (space, words_from_blank s blank, trim_end_blank (d ∷ s) (rw space blank), append-nil)
      | inr filled ↦ rw (
        space,
        join-cons (c ∷ cur) (words_from [] s) (words_of-IsFilled s filled),
        trim_end-cons_any d s filled,
        space,
        in_space s,
      )
    ]
    | inr letter ↦
        rw (letter, trim_end-cons d s letter, letter)
          (in_word c (cur ++ d ∷ []) s
            ∙ append_assoc (c ∷ cur) (d ∷ []) (collapse_from false (trim_end s)))
  ]

  in_space : (s : Text) → join (text " ") (words_from [] s) ≡ collapse_from true (trim_end s)
  in_space [] = refl
  in_space (d ∷ s) = elim (Bool-cases (is_space d)) [
    | inl space ↦ elim (Bool-cases (all is_space s)) [
      | inl blank ↦ rw (space, words_from_blank s blank, trim_end_blank (d ∷ s) (rw space blank))
      | inr filled ↦ rw (space, trim_end-cons_any d s filled, space) (in_space s)
    ]
    | inr letter ↦ rw (letter, trim_end-cons d s letter, letter) (in_word d [] s)
  ]

-- An imported section's name is the one that the editor gives the same text.
pub field_name-normalize_section_name : (s : Text) → field_name s ≡ normalize_section_name s
unfolding field_name normalize_section_name words_from collapse_from
field_name-normalize_section_name [] = refl
field_name-normalize_section_name (c ∷ s) = elim (Bool-cases (is_space c)) [
  | inl space ↦ rw space (field_name-normalize_section_name s)
  | inr letter ↦
      rw letter
        (ap (collapse_from false) (trim_end-cons c s letter) ∙ rw letter (sym (in_word c [] s)))
]
