-- ===== src/Sections/Variables/Naming.antt =====
-- Names of variables: inserting one, and turning typed text into one.
use prompt_maker_studio.Base.{
  drop-drop, take-append-length, inr, take-append-drop, drop-append-length, inl, slice-append-drop,
  Bool-cases, both, length-take, ℕ, ◌+◌, ◌≤◌, ◌≡◌, refl, sym, ap, ◌∙◌, Bool, true, false, [], ◌∷◌,
  ◌++◌, some, arith, Text, length, take, drop, all, filter,
}
use prompt_maker_studio.Sections.Chars.{is_name_start, is_name_char}
use prompt_maker_studio.Sections.Variables.{
  variable_at, is_variable_name, variable_token, insert_variable, is_plain_char, to_variable_name,
}
use prompt_maker_studio.Sections.Variables.Scanner.{variable_at-token}

module _ (s : Text) (start end_at : ℕ) (name : Text) where
  -- For a selection inside the text: putting the replaced text back for the token restores the text,
  -- and what stands before the selection and behind the caret is as before.
  pub replaced-insert_variable :
      start ≤ end_at
      → end_at ≤ length s
      → (take start s ++ ((insert_variable s start end_at name).replaced ++ drop end_at s) ≡ s)
        × (take start (insert_variable s start end_at name).text_after ≡ take start s)
        × (drop
              (insert_variable s start end_at name).caret
              (insert_variable s start end_at name).text_after
            ≡ drop end_at s)
  unfolding insert_variable
  replaced-insert_variable h k = (
    ap (λ u. take start s ++ u) (slice-append-drop s start end_at h) ∙ take-append-drop start s,
    ap (λ n. take n (take start s ++ (variable_token name ++ drop end_at s))) len
        ∙ take-append-length (take start s) _,
    ap
          (λ n.
            drop (n + length (variable_token name))
              (take start s ++ (variable_token name ++ drop end_at s)))
          len
        ∙ sym (drop-drop (length (take start s)) (length (variable_token name)) _)
        ∙ ap (drop (length (variable_token name))) (drop-append-length (take start s) _)
        ∙ drop-append-length (variable_token name) (drop end_at s),
  )
    where
      len : start ≡ length (take start s)
      len = omega (arith, length-take start s)

  -- Where the name is valid and the insertion point in the text, the scanner finds exactly the
  -- inserted token there.
  pub variable_at-insert_variable :
      start ≤ length s
      → is_variable_name name ≡ true
      → variable_at (drop start (insert_variable s start end_at name).text_after)
        ≡ some (record { token = variable_token name; group = name })
  unfolding insert_variable
  variable_at-insert_variable h valid =
      ap (λ n. variable_at (drop n (take start s ++ (variable_token name ++ drop end_at s))))
        (let e : start ≡ length (take start s) = omega (arith, length-take start s) in e)
      ∙ ap variable_at (drop-append-length (take start s) (variable_token name ++ drop end_at s))
      ∙ variable_at-token name (drop end_at s) valid

plain-name_char : (c : ℕ) → is_plain_char c ≡ true → is_name_char c ≡ true
unfolding is_plain_char is_name_char is_name_start
plain-name_char c h = ground arith

filter-all : (s : Text) → all is_name_char (filter is_plain_char s) ≡ true
filter-all [] = refl
filter-all (c ∷ s) = elim (Bool-cases (is_plain_char c)) [
  | inl keep ↦ rw (keep, plain-name_char c keep) (filter-all s)
  | inr cut ↦ rw cut (filter-all s)
]

-- The first character is a letter or an underscore.
abbrev pub starts_name : Text → Bool
starts_name [] = false
starts_name (c ∷ s) = is_name_start c

is_variable_name-all : (s : Text) → all is_name_char s ≡ true → is_variable_name s ≡ starts_name s
unfolding is_variable_name
is_variable_name-all [] h = refl
is_variable_name-all (c ∷ s) h =
    let (here, later) = both (is_name_char c) (all is_name_char s) h in rw later (ground arith)

-- Text turned into a name is a valid name exactly when its first character can start one ("1st"
-- cannot): every other character has been replaced or dropped.
pub is_variable_name-to_variable_name :
    (to_lower : Text → Text) (s : Text)
    → is_variable_name (to_variable_name to_lower s) ≡ starts_name (to_variable_name to_lower s)
unfolding to_variable_name
is_variable_name-to_variable_name to_lower s = is_variable_name-all _ (filter-all _)
