-- ===== src/Library/Matching.antt =====
-- features/library/libraryState.ts: `searchMatch`, what a search finds in a prompt and the excerpt
-- that shows it. The Unicode decomposition, its marks and the lower case are parameters.
pub mod Found
pub mod Bounds
mod Examples
use prompt_maker_studio.Base.{
  text, ltb, leb, ◌==◌, if◌then◌else◌, ==_iff, ==_refl, Bool-cases, Option-cases, both, either,
  eq_of_some, same, none_ne_some, false_ne_true, true_of_not, false_of_not, length, get_elem?, take,
  drop, filter, any, all, find?, All, concat, slice, drop-drop, length-append, take-append-drop,
  slice-append-drop, length-take, length-drop, take-append-length, drop-append-length,
  filter-append, length-filter-le, drop-all, slice-empty, concat-append, length-reverse, Text,
  text_eq, text_eq_refl, eq_of_text_eq, text_eq_iff, text_eq_comm, includes, is_space, trim_start,
  trim_end, trim, is_empty, join, take_while, drop_while, strip, is_prefix, contains, length-strip,
  eq_of_strip, strip-append, length-drop_while, length-trim_start, push_new, push_all, set_of,
  first_uses, IsDistinct, includes-append, filter-filter, push_all-first_uses, set_of-first_uses,
  includes-first_uses, first_uses-IsDistinct, IsDistinct-snoc, push_new-cons, digits, decimal,
  decimal-is_digit, decimal-no_space, decimal_inj, trim_end-cons, trim_idem, ℕ, zero, suc, ◌+◌, ◌-◌,
  ◌*◌, ◌/◌, ◌%◌, ◌≤◌, ◌<◌, max, min, ◌≡◌, refl, sym, ap, ap₂, ◌∙◌, subst, fun_ext, ◌≢◌, ◌↔◌, ◌⊎◌,
  inl, inr, Bool, true, false, not, ◌&&◌, ◌||◌, Option, none, some, some-injective, List, [], ◌∷◌,
  ◌++◌, map, append-nil, append_assoc, map-append, arith,
}
use prompt_maker_studio.Sections.Chars.{PromptField}
use prompt_maker_studio.Sections.Names.{words_from}
use prompt_maker_studio.Sections.Variables.{TextPart, plain, variable, part_text, split_variables}
use prompt_maker_studio.Import.Validate.{collapse_from}
use prompt_maker_studio.Library.Prompts.{Prompt}

pub record Candidate : Type 0 where
  pub label : Text
  pub text : Text

pub record Excerpt : Type 0 where
  pub label : Text
  pub before : Text
  pub match : Text
  pub after : Text

abbrev pub or_blank : Option Text → Text
or_blank none = []
or_blank (some s) = s

-- A candidate with its white space collapsed.
abbrev pub candidate_of : Text → Text → Candidate
candidate_of label s = record { label = label; text = trim (collapse_from false s) }

abbrev pub field_candidates : List PromptField → List Candidate
field_candidates [] = []
field_candidates (f ∷ fs) =
    candidate_of (f.name ++ text " (section name)") f.name
    ∷ candidate_of f.name f.content
    ∷ field_candidates fs

unfoldable pub candidates_of : Prompt → List Candidate
unfolding collapse_from
candidates_of p =
    candidate_of (text "Title") (or_blank p.name)
    ∷ candidate_of (text "Folder") (or_blank p.folder)
    ∷ field_candidates p.fields

-- The characters of a text: a pair of surrogates is one.
unfoldable pub characters : Text → List Text
characters [] = []
characters (c ∷ []) = (c ∷ []) ∷ []
characters (c ∷ d ∷ s) =
    let pair = characters s in
    let single = characters (d ∷ s) in
    if leb 55296 c && leb c 56319 && leb 56320 d && leb d 57343
    then (c ∷ d ∷ []) ∷ pair
    else (c ∷ []) ∷ single

-- The first space from an index on, and the last one up to an index.
abbrev pub first_space : ℕ → ℕ → Text → Option ℕ
first_space at least [] = none
first_space at least (c ∷ s) =
    let later = first_space (at + 1) least s in if c == 32 && leb least at then some at else later

abbrev pub or_here : Option ℕ → Option ℕ → Option ℕ
or_here none here = here
or_here (some at) here = some at

abbrev pub last_space_at : ℕ → ℕ → Text → Option ℕ
last_space_at at most [] = none
last_space_at at most (c ∷ s) =
    or_here (last_space_at (at + 1) most s) (if c == 32 && leb at most then some at else none)

abbrev pub open_at : Option ℕ → ℕ → ℕ → ℕ
open_at none start from_at = from_at
open_at (some space) start from_at = if ltb 0 from_at && ltb space start then space + 1 else from_at

abbrev pub close_at : Option ℕ → ℕ → ℕ → ℕ → ℕ
close_at none end_at size to_at = to_at
close_at (some space) end_at size to_at =
    if ltb to_at size && leb end_at space then space else to_at

-- The loop that widens the excerpt to whole variables.
unfoldable pub widen : ℕ → List TextPart → ℕ × ℕ → ℕ × ℕ
widen at [] (from_at, to_at) = (from_at, to_at)
widen at (plain s ∷ parts) (from_at, to_at) = widen (at + length s) parts (from_at, to_at)
widen at (variable token name ∷ parts) (from_at, to_at) =
    let part_end = at + length token in
    widen part_end parts (
      if ltb at from_at && ltb from_at part_end then at else from_at,
      if ltb at to_at && ltb to_at part_end then part_end else to_at,
    )

-- Where the excerpt starts and ends, around the match.
unfoldable pub excerpt_bounds : Text → (start end_at : ℕ) → ℕ × ℕ
unfolding widen
excerpt_bounds s start end_at =
    let from_at = start - 24 in
    let to_at = min (length s) (end_at + 80) in
    widen 0 (split_variables s) (
      open_at (first_space 0 from_at s) start from_at,
      close_at (last_space_at 0 to_at s) end_at (length s) to_at,
    )

abbrev pub dots : Bool → Text
dots true = 8230 ∷ []
dots false = []

abbrev pub index_of : Text → ℕ → Text → ℕ
index_of term at [] = at
index_of term at (c ∷ s) =
    let later = index_of term (at + 1) s in if is_prefix term (c ∷ s) then at else later

module _ (decompose strip_marks to_lower : Text → Text) where
  unfoldable pub fold_search : Text → Text
  fold_search s = to_lower (strip_marks (decompose s))

  -- The loop over the characters, from the folded offset and the offset reached.
  unfoldable pub match_bounds :
      (index size : ℕ) → List Text → (folded offset start size_of_text : ℕ) → ℕ × ℕ
  unfolding fold_search
  match_bounds index size [] folded offset start last = (start, last)
  match_bounds index size (c ∷ cs) folded offset start last =
      let width = length (fold_search c) in
      let start_here = if leb folded index && ltb 0 width then offset else start in
      let rest = match_bounds index size cs (folded + width) (offset + length c) start_here last in
      if leb (index + size) folded && ltb 0 width then (start_here, offset) else rest

  unfoldable pub excerpt_around : Candidate → (index size : ℕ) → Excerpt
  unfolding match_bounds excerpt_bounds characters
  excerpt_around candidate index size =
      let s = candidate.text in
      let (start, end_at) = match_bounds index size (characters s) 0 0 0 (length s) in
      let (from_at, to_at) = excerpt_bounds s start end_at in
      record {
        label = candidate.label;
        before = dots (ltb 0 from_at) ++ slice s from_at start;
        match = slice s start end_at;
        after = slice s end_at to_at ++ dots (ltb to_at (length s));
      }

  -- The excerpt for a term, in the first candidate that holds it.
  unfoldable pub term_match : Text → List Candidate → Option Excerpt
  unfolding excerpt_around
  term_match term [] = none
  term_match term (c ∷ cs) =
      let folded = fold_search c.text in
      let later = term_match term cs in
      if contains folded term
      then some (excerpt_around c (index_of term 0 folded) (length term))
      else later

  unfoldable pub first_match : List Text → List Candidate → Option Excerpt
  unfolding term_match
  first_match [] cs = none
  first_match (term ∷ terms) cs = elim (term_match term cs) [
    | none ↦ first_match terms cs
    | some e ↦ some e
  ]

  abbrev pub is_in : List Candidate → Text → Bool
  is_in cs word = any (λ c. contains (fold_search c.text) word) cs

  -- The words of the folded search; joined by spaces they are the query.
  unfoldable pub search_words : Text → List Text
  unfolding words_from
  search_words search = words_from [] (fold_search search)

  unfoldable pub search_match : Prompt → Text → Option Excerpt
  unfolding search_words first_match candidates_of
  search_match p search =
      let words = search_words search in
      let query = join (text " ") words in
      let found = first_match (query ∷ words) (candidates_of p) in
      if is_empty query || not (all (is_in (candidates_of p)) words) then none else found
