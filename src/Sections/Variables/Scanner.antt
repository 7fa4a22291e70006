-- ===== src/Sections/Variables/Scanner.antt =====
-- What the variable scanner finds at the head of a text.
use prompt_maker_studio.Base.{
  ℕ, ◌-◌, ◌<◌, ◌≡◌, refl, sym, ap, ap₂, subst, eq_of_some, both, ◌∙◌, true, false, [], ◌∷◌, ◌++◌,
  Option, some, arith, Text, text, length, take, take_while, drop_while, trim_start, strip, all,
  length-strip, length-drop_while, length-trim_start, length-append, take-append-length,
  append_assoc, is_space,
}
use prompt_maker_studio.Scan.{Hit}
use prompt_maker_studio.Scan.Laws.{IsHit, take-IsHit}
use prompt_maker_studio.Sections.Chars.{is_name_start, is_name_char}
use prompt_maker_studio.Sections.Variables.{
  identifier, variable_at, >>=-eq-some, is_variable_name, variable_token,
}

pub length-identifier :
    (s : Text) (found : Text × Text) → identifier s ≡ some found → length found.1 < length s
unfolding identifier
length-identifier [] found h = cc
length-identifier (c ∷ s) found h = ground (arith, length-drop_while is_name_char s)

-- A match of the scanner is a non-empty head of the text.
pub variable_at-IsHit : (s : Text) (h : Hit Text) → variable_at s ≡ some h → IsHit s h
unfolding variable_at
variable_at-IsHit s h e =
    let (opened, e1, k1) = >>=-eq-some (strip (text "{{") s) _ h e in
    let (found, e2, k2) = >>=-eq-some (identifier (trim_start opened)) _ h k1 in
    let (rest, e3, k3) = >>=-eq-some (strip (text "}}") (trim_start found.1)) _ h k2 in
    subst (IsHit s) (eq_of_some _ _ k3) (
      take-IsHit s rest found.0 (
        omega (
          arith,
          length-strip (text "{{") s opened e1,
          length-trim_start opened,
          length-identifier (trim_start opened) found e2,
          length-trim_start found.1,
          length-strip (text "}}") (trim_start found.1) rest e3,
        )))

-- The characters of a name are read to its end, at the closing braces.
take_while-closing :
    (s rest : Text)
    → all is_name_char s ≡ true
    → take_while is_name_char (s ++ (text "}}" ++ rest)) ≡ s
unfolding is_name_char is_name_start
take_while-closing [] rest h = refl
take_while-closing (c ∷ s) rest h =
    let (here, later) = both (is_name_char c) (all is_name_char s) h in
    rw here (ap (c ∷◌) (take_while-closing s rest later))

drop_while-closing :
    (s rest : Text)
    → all is_name_char s ≡ true
    → drop_while is_name_char (s ++ (text "}}" ++ rest)) ≡ text "}}" ++ rest
unfolding is_name_char is_name_start
drop_while-closing [] rest h = refl
drop_while-closing (c ∷ s) rest h =
    let (here, later) = both (is_name_char c) (all is_name_char s) h in
    rw here (drop_while-closing s rest later)

-- No character that starts a name is white space.
name_start-ne-space : (c : ℕ) → is_name_start c ≡ true → is_space c ≡ false
unfolding is_name_start is_space
name_start-ne-space c h = ground arith

identifier-closing :
    (name rest : Text)
    → is_variable_name name ≡ true
    → identifier (trim_start (name ++ (text "}}" ++ rest))) ≡ some (name, text "}}" ++ rest)
unfolding identifier is_variable_name
identifier-closing [] rest h = cc
identifier-closing (c ∷ s) rest h =
    let (here, later) = both (is_name_start c) (all is_name_char s) h in
    rw (
      name_start-ne-space c here,
      identifier,
      here,
      take_while-closing s rest later,
      drop_while-closing s rest later,
    )

cut :
    (name rest : Text)
    → take
        (length (text "{{" ++ (name ++ (text "}}" ++ rest))) - length rest)
        (text "{{" ++ (name ++ (text "}}" ++ rest)))
      ≡ text "{{" ++ (name ++ text "}}")
cut name rest =
    let whole = text "{{" ++ (name ++ text "}}") in
    ap₂ take {y = length whole}
      (omega (arith, length-append name (text "}}" ++ rest), length-append name (text "}}")))
      (ap (λ u. text "{{" ++ u) (sym (append_assoc name (text "}}") rest)))
    ∙ take-append-length whole rest

-- A token with a valid name is read back whole, whatever follows it.
pub variable_at-token :
    (name rest : Text)
    → is_variable_name name ≡ true
    → variable_at (variable_token name ++ rest)
      ≡ some (record { token = variable_token name; group = name })
unfolding variable_at variable_token is_space
variable_at-token name rest h =
    let hit : Text → Option (Hit Text) = λ u. some (record { token = u; group = name }) in
    rw (append_assoc name (text "}}") rest, identifier-closing name rest h) (ap hit (cut name rest))
