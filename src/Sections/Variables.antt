-- ===== src/Sections/Variables.antt =====
-- `{{variable}}` tokens: /\{\{\s*([A-Za-z_][A-Za-z0-9_-]*)\s*\}\}/g and the functions that read them.
pub mod Scanner
pub mod Fill
pub mod Collect
pub mod Naming
use prompt_maker_studio.Base.{
  ℕ, ◌+◌, ◌-◌, Bool, true, false, ◌&&◌, ◌||◌, ltb, leb, ◌==◌, if◌then◌else◌, List, [], ◌∷◌, ◌++◌,
  Option, none, some, ◌≡◌, refl, Text, text, text_eq, is_space, is_empty, push_new, length, take,
  drop, slice, take_while, drop_while, trim, trim_start, strip, all, filter,
}
use prompt_maker_studio.Scan.{Hit, Match, match_all, replace_from}
use prompt_maker_studio.Sections.Chars.{is_name_start, is_name_char, PromptField}

infixl 5 ◌>>=◌
abbrev pub ◌>>=◌ {ℓ κ} : {A : Type ℓ} {B : Type κ} → Option A → (A → Option B) → Option B
none >>= k = none
some a >>= k = k a

pub >>=-eq-some {ℓ κ} :
    {A : Type ℓ} {B : Type κ} (m : Option A) (k : A → Option B) (b : B)
    → (m >>= k) ≡ some b
    → (a : A) × (m ≡ some a) × (k a ≡ some b)
>>=-eq-some none k b h = cc
>>=-eq-some (some a) k b h = (a, refl, h)

-- The group `([A-Za-z_][A-Za-z0-9_-]*)` and what follows it.
unfoldable pub identifier : Text → Option (Text × Text)
identifier [] = none
identifier (c ∷ s) =
    if is_name_start c
    then some (c ∷ take_while is_name_char s, drop_while is_name_char s)
    else none

-- The expression at the head of a text. No later step can give back what an earlier one took, so
-- the match is found without backtracking.
unfoldable pub variable_at : Text → Option (Hit Text)
variable_at s = do
  opened ← strip (text "{{") s
  found ← identifier (trim_start opened)
  rest ← strip (text "}}") (trim_start found.1)
  some (record { token = take (length s - length rest) s; group = found.0 })

-- `if (!names.includes(match[1])) names.push(match[1])` for each match.
unfoldable pub add_matches : List Text → List (Match Text) → List Text
add_matches names [] = names
add_matches names (m ∷ ms) = add_matches (push_new names m.group) ms

unfoldable pub add_sections : List Text → List PromptField → List Text
add_sections names [] = names
add_sections names (f ∷ fs) = add_sections (add_matches names (match_all variable_at f.content)) fs

unfoldable pub variables_in : List PromptField → List Text
unfolding add_sections add_matches
variables_in sections = add_sections [] sections

-- /^[A-Za-z_][A-Za-z0-9_-]*$/
unfoldable pub is_variable_name : Text → Bool
is_variable_name [] = false
is_variable_name (c ∷ s) = is_name_start c && all is_name_char s

-- What `insertVariable` returns.
pub record Insertion : Type 0 where
  pub text_after : Text
  pub replaced : Text
  pub caret : ℕ

unfoldable pub variable_token : Text → Text
variable_token name = text "{{" ++ (name ++ text "}}")

unfoldable pub insert_variable : Text → ℕ → ℕ → Text → Insertion
insert_variable s start end_at name = record {
  text_after = take start s ++ (variable_token name ++ drop end_at s);
  replaced = slice s start end_at;
  caret = start + length (variable_token name);
}

-- An object with text keys: its own properties only, as `Object.hasOwn` reads them.
abbrev pub Values : Type 0
Values = List (Text × Text)

unfoldable pub value_for : Values → Text → Option Text
value_for [] name = none
value_for ((k, v) ∷ values) name = if text_eq k name then some v else value_for values name

-- `valueFor(values, name) || token`: an empty value leaves the token.
unfoldable pub fill_token : Values → Text → Text → Text
fill_token values token name = elim (value_for values name) [
  | none ↦ token
  | some v ↦ if is_empty v then token else v
]

unfoldable pub fill_variables : Text → Values → Text
fill_variables s values =
    replace_from (λ m. fill_token values m.token m.group) s 0 (match_all variable_at s)

-- `TextPart`, by its `kind`.
pub data TextPart : Type 0 where
  plain : Text → TextPart
  variable : (token name : Text) → TextPart

abbrev pub part_text : TextPart → Text
part_text (plain s) = s
part_text (variable token name) = token

unfoldable pub parts_from : Text → ℕ → List (Match Text) → List TextPart
parts_from s last [] = if ltb last (length s) then plain (drop last s) ∷ [] else []
parts_from s last (m ∷ ms) =
    (if ltb last m.index then plain (slice s last m.index) ∷ [] else [])
    ++ variable m.token m.group ∷ parts_from s (m.index + length m.token) ms

unfoldable pub split_variables : Text → List TextPart
unfolding parts_from
split_variables s = parts_from s 0 (match_all variable_at s)

-- [\s-]
unfoldable pub is_gap : ℕ → Bool
is_gap c = is_space c || c == 45

-- `replace(/[\s-]+/g, '_')`; the flag says that the run has been replaced already.
unfoldable pub collapse_gaps : Bool → Text → Text
collapse_gaps in_gap [] = []
collapse_gaps in_gap (c ∷ s) =
    let gap = collapse_gaps true s in
    let letter = collapse_gaps false s in
    if is_gap c then (if in_gap then gap else 95 ∷ gap) else c ∷ letter

-- [a-z0-9_]
unfoldable pub is_plain_char : ℕ → Bool
is_plain_char c = (leb 97 c && leb c 122) || (leb 48 c && leb c 57) || c == 95

unfoldable pub to_variable_name : (Text → Text) → Text → Text
unfolding collapse_gaps
to_variable_name to_lower s = filter is_plain_char (collapse_gaps false (to_lower (trim s)))
