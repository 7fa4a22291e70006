-- ===== src/Import/Placeholders.antt =====
-- lib/promptImport.ts: the placeholders of a note, `PLACEHOLDER`, `placeholdersIn` and
-- `findPlaceholders`. The expression is matched at every place from left to right; `prev` is the
-- character before, which the lookbehind reads. The lower case is a parameter.
pub mod Laws
use prompt_maker_studio.Base.{
  contains, ltb, leb, ◌==◌, if◌then◌else◌, ==_iff, ==_refl, Bool-cases, Option-cases, both, either,
  eq_of_some, same, none_ne_some, false_ne_true, true_of_not, false_of_not, length, get_elem?, take,
  drop, filter, any, all, find?, All, concat, slice, drop-drop, length-append, take-append-drop,
  slice-append-drop, length-take, length-drop, take-append-length, drop-append-length,
  filter-append, length-filter-le, drop-all, slice-empty, concat-append, length-reverse, Text, text,
  text_eq, text_eq_refl, eq_of_text_eq, text_eq_iff, text_eq_comm, includes, is_space, trim_start,
  trim_end, trim, is_empty, join, take_while, drop_while, strip, length-strip, eq_of_strip,
  strip-append, length-drop_while, length-trim_start, push_new, push_all, set_of, first_uses,
  IsDistinct, includes-append, filter-filter, push_all-first_uses, set_of-first_uses,
  includes-first_uses, first_uses-IsDistinct, IsDistinct-snoc, push_new-cons, digits, decimal,
  decimal-is_digit, decimal_inj, trim_end-cons, trim_idem, ℕ, zero, suc, ◌+◌, ◌-◌, ◌*◌, ◌/◌, ◌%◌,
  ◌≤◌, ◌<◌, max, min, ◌≡◌, refl, sym, ap, ap₂, ◌∙◌, subst, fun_ext, ◌≢◌, ◌↔◌, ◌⊎◌, inl, inr, Bool,
  true, false, not, ◌&&◌, ◌||◌, Option, none, some, some-injective, List, [], ◌∷◌, ◌++◌, map,
  append-nil, append_assoc, map-append, arith,
}
use prompt_maker_studio.Sections.Chars.{PromptField, is_name_start, is_section_char}
use prompt_maker_studio.Sections.Variables.{is_plain_char, to_variable_name}
use prompt_maker_studio.Import.Validate.{ImportPrompt}

-- [topic], {topic} and <topic>
pub data Bracket : Type 0 where
  square curly angle : Bracket

pub record Token : Type 0 where
  pub bracket : Bracket
  pub inner : Text

abbrev pub opening_of : Bracket → ℕ
opening_of square = 91
opening_of curly = 123
opening_of angle = 60

abbrev pub closing_of : Bracket → ℕ
closing_of square = 93
closing_of curly = 125
closing_of angle = 62

abbrev pub token_text : Token → Text
token_text t = opening_of t.bracket ∷ t.inner ++ closing_of t.bracket ∷ []

-- [A-Za-z] and [a-z]
abbrev pub is_letter : ℕ → Bool
is_letter c = (leb 65 c && leb c 90) || (leb 97 c && leb c 122)

abbrev pub is_small : ℕ → Bool
is_small c = leb 97 c && leb c 122

-- \w and [a-z0-9_ -]
unfoldable pub is_word : ℕ → Bool
is_word c = is_name_start c || (leb 48 c && leb c 57)

unfoldable pub is_angle_char : ℕ → Bool
is_angle_char c = is_plain_char c || c == 32 || c == 45

abbrev pub starts_inner : Bracket → ℕ → Bool
starts_inner angle c = is_small c
starts_inner _ c = is_letter c

abbrev pub is_inner : Bracket → ℕ → Bool
is_inner angle c = is_angle_char c
is_inner _ c = is_section_char c

-- How many characters must follow the first one, `{1,40}` or `{0,40}`.
abbrev pub least : Bracket → ℕ
least curly = 0
least _ = 1

-- The lookbehinds `(?<![\w\][])` and `(?<![{\w])`.
abbrev pub may_follow : Bracket → Option ℕ → Bool
may_follow square (some c) = not (is_word c || c == 93 || c == 91)
may_follow curly (some c) = not (c == 123 || is_word c)
may_follow _ _ = true

-- The lookaheads `(?![\](])` and `(?!\})`.
abbrev pub may_precede : Bracket → Text → Bool
may_precede square (c ∷ s) = not (c == 93 || c == 40)
may_precede curly (c ∷ s) = not (c == 125)
may_precede _ _ = true

-- The run of inner characters behind the first one, and what stands behind the closing_of bracket.
abbrev pub close_token : Bracket → Text → Text → Option (Token × Text)
close_token b inner [] = none
close_token b inner (c ∷ rest) =
    if c == closing_of b && may_precede b rest
    then some (record { bracket = b; inner = inner }, rest)
    else none

abbrev pub token_after : Bracket → Text → Option (Token × Text)
token_after b [] = none
token_after b (c ∷ s) =
    let run = take_while (is_inner b) s in
    if starts_inner b c && leb (least b) (length run) && leb (length run) 40
    then close_token b (c ∷ run) (drop_while (is_inner b) s)
    else none

abbrev pub bracket_of : ℕ → Option Bracket
bracket_of c =
    if c == 91
    then some square
    else if c == 123
    then some curly
    else if c == 60
    then some angle
    else none

abbrev pub token_from : Option ℕ → Option Bracket → Text → Option (Token × Text)
token_from prev none s = none
token_from prev (some b) s = if may_follow b prev then token_after b s else none

unfoldable pub match_token : Option ℕ → Text → Option (Token × Text)
match_token prev [] = none
match_token prev (c ∷ s) = token_from prev (bracket_of c) s

pub data Piece : Type 0 where
  char : ℕ → Piece
  token : Token → Piece

-- What the matches leave and what they are, in order, with the length of the text as fuel.
unfoldable pub pieces_from : ℕ → Option ℕ → Text → List Piece
pieces_from zero prev s = []
pieces_from (suc fuel) prev [] = []
pieces_from (suc fuel) prev (c ∷ s) = elim (match_token prev (c ∷ s)) [
  | none ↦ char c ∷ pieces_from fuel (some c) s
  | some (t, rest) ↦ token t ∷ pieces_from fuel (some (closing_of t.bracket)) rest
]

unfoldable pub pieces : Text → List Piece
unfolding pieces_from
pieces s = pieces_from (length s) none s

-- /^[a-z_][a-z0-9_]*$/
unfoldable pub is_input_name : Text → Bool
is_input_name [] = false
is_input_name (c ∷ s) = (is_small c || c == 95) && all is_plain_char s

abbrev pub is_angle : Bracket → Bool
is_angle angle = true
is_angle _ = false

abbrev pub is_closed_tag : Text → Token → Bool
is_closed_tag content t =
    is_angle t.bracket && contains content (text "</" ++ (t.inner ++ text ">"))

module _ (to_lower : Text → Text) where
  -- The name that `placeholdersIn` finds for a token of that content.
  unfoldable pub name_of : Text → Token → Option Text
  name_of content t =
      let name = to_variable_name to_lower t.inner in
      if not (is_closed_tag content t) && is_input_name name then some name else none

  -- The map of `placeholdersIn`, as its entries: a token that comes again has the same name.
  unfoldable pub entries : Text → List Piece → List (Text × Text)
  entries content [] = []
  entries content (char c ∷ ps) = entries content ps
  entries content (token t ∷ ps) = elim (name_of content t) [
    | none ↦ entries content ps
    | some name ↦ (token_text t, name) ∷ entries content ps
  ]

  unfoldable pub placeholders_in : Text → List (Text × Text)
  unfolding entries pieces
  placeholders_in content = entries content (pieces content)

  unfoldable pub find_placeholders : List ImportPrompt → List Text
  unfolding placeholders_in
  find_placeholders prompts = set_of (
      concat (
        map (λ p. concat (map (λ f. map (λ e. e.0) (placeholders_in f.content)) p.fields)) prompts))
