-- ===== src/Import/Placeholders/Laws.antt =====
-- The pieces of a text lose nothing of it.
use prompt_maker_studio.Base.{
  leb, ◌==◌, ==_iff, Bool-cases, Option-cases, eq_of_some, none_ne_some, length, concat,
  length-append, Text, take_while, drop_while, ℕ, zero, suc, ◌≤◌, ◌≡◌, refl, sym, ap, ap₂, ◌∙◌,
  subst, inl, inr, Bool, ◌&&◌, Option, none, some, [], ◌∷◌, ◌++◌, map, append_assoc, arith,
}
use prompt_maker_studio.Import.Placeholders.{
  Token, Bracket, token_text, opening_of, closing_of, close_token, token_after, bracket_of,
  token_from, may_follow, may_precede, is_inner, starts_inner, least, match_token, Piece, char,
  token, pieces_from, pieces, square, curly, angle,
}

abbrev pub piece_text : Piece → Text
piece_text (char c) = c ∷ []
piece_text (token t) = token_text t

take_while-append-drop_while : (p : ℕ → Bool) (s : Text) → take_while p s ++ drop_while p s ≡ s
take_while-append-drop_while p [] = refl
take_while-append-drop_while p (c ∷ s) = ground (arith, take_while-append-drop_while p s)

-- What stands behind the opening_of bracket of a token.
abbrev IsMatch : Bracket → Text → Token × Text → Type 0
IsMatch b s (t, rest) = (b ≡ t.bracket) × (s ≡ t.inner ++ closing_of t.bracket ∷ rest)

close_token_eq :
    (b : Bracket) (inner s : Text) (m : Token × Text)
    → close_token b inner s ≡ some m
    → IsMatch b (inner ++ s) m
close_token_eq b inner [] m h = cc
close_token_eq b inner (c ∷ s) m h = elim (Bool-cases (c == closing_of b)) [
  | inl closes ↦ elim (Bool-cases (may_precede b s)) [
    | inl free ↦
        let e = (==_iff c (closing_of b)).0 closes in
        subst (IsMatch b (inner ++ c ∷ s)) (eq_of_some _ m (rw (closes, free) at h))
          (refl, ap (λ d. inner ++ d ∷ s) e)
    | inr stopped ↦ absurd (none_ne_some (rw (closes, stopped) at h))
  ]
  | inr other ↦ absurd (none_ne_some (rw other at h))
]

token_after_eq :
    (b : Bracket) (s : Text) (m : Token × Text) → token_after b s ≡ some m → IsMatch b s m
token_after_eq b [] m h = cc
token_after_eq b (c ∷ s) m h =
    let fits =
      starts_inner b c
      && leb (least b) (length (take_while (is_inner b) s))
      && leb (length (take_while (is_inner b) s)) 40 in
    elim (Bool-cases fits) [
      | inl fitting ↦
          let matched =
            close_token_eq b (c ∷ take_while (is_inner b) s) (drop_while (is_inner b) s) m
              (rw fitting at h) in
          subst (λ u. IsMatch b (c ∷ u) m) (take_while-append-drop_while (is_inner b) s) matched
      | inr other ↦ absurd (none_ne_some (rw other at h))
    ]

bracket_of_opening : (c : ℕ) (b : Bracket) → bracket_of c ≡ some b → c ≡ opening_of b
bracket_of_opening c square h = ground arith
bracket_of_opening c curly h = ground arith
bracket_of_opening c angle h = ground arith

-- What a match takes of the text, and what it leaves.
token_from_eq :
    (prev : Option ℕ) (c : ℕ) (s : Text) (m : Token × Text)
    → token_from prev (bracket_of c) s ≡ some m
    → c ∷ s ≡ token_text m.0 ++ m.1
token_from_eq prev c s (t, rest) h = elim (Option-cases (bracket_of c)) [
  | inl other ↦ absurd (none_ne_some (rw other at h))
  | inr (b, opens) ↦ elim (Bool-cases (may_follow b prev)) [
    | inl free ↦
        let (same_bracket, e) = token_after_eq b s (t, rest) (rw (opens, free) at h) in
        ap₂ (λ d u. d ∷ u) (bracket_of_opening c b opens ∙ ap opening_of same_bracket)
          (e ∙ sym (append_assoc t.inner (closing_of t.bracket ∷ []) rest))
    | inr stopped ↦ absurd (none_ne_some (rw (opens, stopped) at h))
  ]
]

pieces_from-char :
    (fuel : ℕ) (prev : Option ℕ) (c : ℕ) (s : Text)
    → match_token prev (c ∷ s) ≡ none
    → pieces_from (suc fuel) prev (c ∷ s) ≡ char c ∷ pieces_from fuel (some c) s
unfolding pieces_from
pieces_from-char fuel prev c s h = rw (h, pieces_from)

pieces_from-token :
    (fuel : ℕ) (prev : Option ℕ) (c : ℕ) (s : Text) (t : Token) (rest : Text)
    → match_token prev (c ∷ s) ≡ some (t, rest)
    → pieces_from (suc fuel) prev (c ∷ s)
      ≡ token t ∷ pieces_from fuel (some (closing_of t.bracket)) rest
unfolding pieces_from
pieces_from-token fuel prev c s t rest h = rw (h, pieces_from)

match_token_eq :
    (prev : Option ℕ) (c : ℕ) (s : Text) (m : Token × Text)
    → match_token prev (c ∷ s) ≡ some m
    → c ∷ s ≡ token_text m.0 ++ m.1
unfolding match_token
match_token_eq prev c s m h = token_from_eq prev c s m h

pieces_from_eq :
    (fuel : ℕ) (prev : Option ℕ) (s : Text)
    → length s ≤ fuel
    → concat (map piece_text (pieces_from fuel prev s)) ≡ s
unfolding pieces_from
pieces_from_eq zero prev [] h = refl
pieces_from_eq zero prev (c ∷ s) h = elim h [ ]
pieces_from_eq (suc fuel) prev [] h = refl
pieces_from_eq (suc fuel) prev (c ∷ s) h = elim (Option-cases (match_token prev (c ∷ s))) [
  | inl plain ↦
      ap (λ ps. concat (map piece_text ps)) (pieces_from-char fuel prev c s plain)
      ∙ ap (c ∷◌) (pieces_from_eq fuel (some c) s (omega arith))
  | inr ((t, rest), matched) ↦
      let e = match_token_eq prev c s (t, rest) matched in
      let shorter : length rest ≤ fuel =
        omega (arith, ap length e, length-append (token_text t) rest) in
      ap (λ ps. concat (map piece_text ps)) (pieces_from-token fuel prev c s t rest matched)
      ∙ (ap (λ u. token_text t ++ u)
            (pieces_from_eq fuel (some (closing_of t.bracket)) rest shorter)
          ∙ sym e)
]

-- The pieces of any text, tokens and single characters, are the text: none of it is lost.
pub concat-pieces : (s : Text) → concat (map piece_text (pieces s)) ≡ s
unfolding pieces
concat-pieces s = pieces_from_eq (length s) none s (omega arith)
