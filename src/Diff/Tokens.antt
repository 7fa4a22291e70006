-- ===== src/Diff/Tokens.antt =====
-- The tokens of a text are non-empty, and together they are the text.
use prompt_maker_studio.Base.{
  Bool-cases, eq_of_some, none_ne_some, length, filter, All, concat, Text, text, is_space, is_empty,
  take_while, drop_while, strip, length-strip, length-drop_while, ℕ, ◌<◌, ◌≡◌, refl, sym, ap, ◌∙◌,
  subst, inl, inr, Bool, false, not, some, List, [], ◌∷◌, ◌++◌, arith,
}
use prompt_maker_studio.Scan.{Hit, match_all, split_from}
use prompt_maker_studio.Scan.Laws.{
  IsHit, take-IsHit, match_all-Located, replace_from-token, split_from-concat,
}
use prompt_maker_studio.Sections.Variables.{>>=-eq-some}
use prompt_maker_studio.Diff.{after_braced, after_placeholder, not_brace, separator_at, tokenize}

length-after_braced : (s r : Text) → after_braced s ≡ some r → length r < length s
unfolding after_braced
length-after_braced s r h = elim (Bool-cases (is_empty (take_while not_brace s))) [
  | inl empty ↦ absurd (none_ne_some (rw empty at h))
  | inr more ↦ omega (
    arith,
    length-drop_while not_brace s,
    length-strip (text "}}") (drop_while not_brace s) r (rw more at h),
  )
]

length-after_placeholder : (s r : Text) → after_placeholder s ≡ some r → length r < length s
unfolding after_placeholder
length-after_placeholder s r h =
    let (opened, e, k) = >>=-eq-some (strip (text "{{") s) _ r h in
    omega (arith, length-strip (text "{{") s opened e, length-after_braced opened r k)

take_while-append-drop_while : (p : ℕ → Bool) (s : Text) → take_while p s ++ drop_while p s ≡ s
take_while-append-drop_while p [] = refl
take_while-append-drop_while p (c ∷ s) = elim (Bool-cases (p c)) [
  | inl more ↦ rw more (ap (c ∷◌) (take_while-append-drop_while p s))
  | inr stop ↦ rw stop
]

separator_at-IsHit : (s : Text) (h : Hit (Unit {0})) → separator_at s ≡ some h → IsHit s h
unfolding separator_at
separator_at-IsHit [] h e = absurd (none_ne_some e)
separator_at-IsHit (c ∷ s) h e = elim (Bool-cases (is_space c)) [
  | inl space ↦ subst (IsHit (c ∷ s)) (eq_of_some _ _ (rw space at e)) (record {
    rest = drop_while is_space s;
    whole = ap (c ∷◌) (sym (take_while-append-drop_while is_space s));
    not_empty = omega arith;
  })
  | inr other ↦
      let (rest, found, k) = >>=-eq-some (after_placeholder (c ∷ s)) _ h (rw other at e) in
      subst (IsHit (c ∷ s)) (eq_of_some _ _ k)
        (take-IsHit (c ∷ s) rest tt (length-after_placeholder (c ∷ s) rest found))
]

concat-not_empty : (ts : List Text) → concat (filter (λ t. not (is_empty t)) ts) ≡ concat ts
concat-not_empty [] = refl
concat-not_empty ([] ∷ ts) = concat-not_empty ts
concat-not_empty ((c ∷ t) ∷ ts) = ap (λ u. c ∷ t ++ u) (concat-not_empty ts)

-- No character is lost: the tokens, put together again, are the text.
pub tokenize-concat : (s : Text) → concat (tokenize s) ≡ s
unfolding tokenize
tokenize-concat s =
    concat-not_empty (split_from s 0 (match_all separator_at s))
    ∙ split_from-concat s 0 (match_all separator_at s)
    ∙ replace_from-token s 0 _ (match_all-Located separator_at separator_at-IsHit s)

abbrev pub IsNotEmpty : Text → Type 0
IsNotEmpty t = is_empty t ≡ false

filter-IsNotEmpty : (ts : List Text) → All IsNotEmpty (filter (λ t. not (is_empty t)) ts)
filter-IsNotEmpty [] = tt
filter-IsNotEmpty ([] ∷ ts) = filter-IsNotEmpty ts
filter-IsNotEmpty ((c ∷ t) ∷ ts) = (refl, filter-IsNotEmpty ts)

pub tokenize-IsNotEmpty : (s : Text) → All IsNotEmpty (tokenize s)
unfolding tokenize
tokenize-IsNotEmpty s = filter-IsNotEmpty (split_from s 0 (match_all separator_at s))
