-- ===== src/Sections/Title/Laws.antt =====
-- The length of a suggested title, and where it comes from.
use mathlib.Core.List.{append-nil, reverse, reverse-append, reverse-reverse}
use prompt_maker_studio.Base.{
  length-take, length-append, take-append-drop, append_assoc, Bool-cases, inr, inl, Bool-cases, ℕ,
  zero, suc, ◌+◌, ◌≤◌, ◌≡◌, refl, sym, ap, ◌∙◌, Bool, [], ◌∷◌, ◌++◌, Option, none, some, arith,
  Text, length, take, drop, drop_while, leb,
}
use prompt_maker_studio.Sections.Title.{
  title_line, suggest_title, last_space, cut_at, drop_end_while, is_tail_mark,
}

last_space-le : (at most : ℕ) (s : Text) (i : ℕ) → last_space at most s ≡ some i → i ≤ most
unfolding last_space
last_space-le at most [] i h = cc
last_space-le at most (c ∷ s) i h = ground (arith, last_space-le (at + 1) most s i)

cut_at-le : (o : Option ℕ) (most : ℕ) → ((i : ℕ) → o ≡ some i → i ≤ most) → cut_at o most ≤ most
unfolding cut_at
cut_at-le none most h = omega arith
cut_at-le (some zero) most h = omega arith
cut_at-le (some (suc i)) most h = h (suc i) refl

-- What a text begins with.
abbrev pub StartsWith : Text → Text → Type 0
StartsWith s head = (rest : Text) × (head ++ rest ≡ s)

drop_while-suffix : (p : ℕ → Bool) (s : Text) → (pre : Text) × (pre ++ drop_while p s ≡ s)
drop_while-suffix p [] = ([], refl)
drop_while-suffix p (c ∷ s) = elim (Bool-cases (p c)) [
  | inl gone ↦
      let (pre, e) = drop_while-suffix p s in (c ∷ pre, rw (gone, drop_while) (ap (c ∷◌) e))
  | inr kept ↦ ([], rw (kept, drop_while))
]

drop_end_while-StartsWith : (p : ℕ → Bool) (s : Text) → StartsWith s (drop_end_while p s)
unfolding drop_end_while
drop_end_while-StartsWith p s =
    let (pre, e) = drop_while-suffix p (reverse s) in
    (
      reverse pre,
      sym (reverse-append pre (drop_while p (reverse s))) ∙ ap reverse e ∙ reverse-reverse s,
    )

-- A suggested title is the beginning of the cleaned first line, and at most `most` characters long.
pub suggest_title_bounds :
    (s : Text) (most : ℕ)
    → (length (suggest_title s most) ≤ most) × StartsWith (title_line s) (suggest_title s most)
unfolding suggest_title
suggest_title_bounds s most = elim (Bool-cases (leb (length (title_line s)) most)) [
  | inl short ↦ rw short (ground arith, ([], append-nil (title_line s)))
  | inr long ↦
      let line = title_line s in
      let n = cut_at (last_space 0 most line) most in
      let (rest, e) = drop_end_while-StartsWith is_tail_mark (take n line) in
      rw long (
        omega (
          arith,
          cut_at-le (last_space 0 most line) most (last_space-le 0 most line),
          length-take n line,
          ap length e,
          length-append (drop_end_while is_tail_mark (take n line)) rest,
        ),
        (
          rest ++ drop n line,
          sym (append_assoc (drop_end_while is_tail_mark (take n line)) rest (drop n line))
              ∙ ap (λ u. u ++ drop n line) e
              ∙ take-append-drop n line,
        ),
      )
]
