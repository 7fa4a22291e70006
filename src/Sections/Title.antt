-- ===== src/Sections/Title.antt =====
-- `suggestTitle`: a short name from the first line of pasted text.
pub mod Laws
use prompt_maker_studio.Base.{
  ℕ, zero, suc, ◌+◌, Bool, true, false, ◌&&◌, ◌||◌, leb, ltb, ◌==◌, if◌then◌else◌, List, [], ◌∷◌,
  Option, none, some, Text, text, is_space, length, take, trim, trim_end, drop_while,
}
use mathlib.Core.List.{reverse}
use prompt_maker_studio.Scan.{match_all, replace_from}
use prompt_maker_studio.Sections.Variables.{variable_at}

-- `split(/\r?\n/)[0]`
unfoldable pub first_line : Text → Text
first_line [] = []
first_line (c ∷ []) = if c == 10 then [] else c ∷ []
first_line (c ∷ d ∷ s) = if c == 10 || (c == 13 && d == 10) then [] else c ∷ first_line (d ∷ s)

-- /^[\s#>*-]+/ without its `+`
unfoldable pub is_bullet : ℕ → Bool
is_bullet c = is_space c || c == 35 || c == 62 || c == 42 || c == 45

-- `replace(/\s+/g, ' ')`; the flag says that the run has been replaced already.
unfoldable pub collapse_spaces : Bool → Text → Text
collapse_spaces in_run [] = []
collapse_spaces in_run (c ∷ s) =
    let run = collapse_spaces true s in
    let letter = collapse_spaces false s in
    if is_space c then (if in_run then run else 32 ∷ run) else c ∷ letter

-- [.,;:!?]
unfoldable pub is_stop : ℕ → Bool
is_stop c = c == 46 || c == 44 || c == 59 || c == 58 || c == 33 || c == 63

-- `replace(/ ([.,;:!?])/g, '$1')`: a space is dropped before a stop.
unfoldable pub close_stops : Text → Text
close_stops [] = []
close_stops (c ∷ []) = c ∷ []
close_stops (c ∷ d ∷ s) =
    let rest = close_stops (d ∷ s) in if c == 32 && is_stop d then rest else c ∷ rest

-- `lastIndexOf(' ', max)`: the last space at an index of at most `max`, counted from `at`.
unfoldable pub last_space : ℕ → ℕ → Text → Option ℕ
last_space at most [] = none
last_space at most (c ∷ s) = elim (last_space (at + 1) most s) [
  | some i ↦ some i
  | none ↦ if c == 32 && leb at most then some at else none
]

-- [\s,;:-]
unfoldable pub is_tail_mark : ℕ → Bool
is_tail_mark c = is_space c || c == 44 || c == 59 || c == 58 || c == 45

unfoldable pub drop_end_while : (ℕ → Bool) → Text → Text
drop_end_while p s = reverse (drop_while p (reverse s))

-- `space > 0 ? space : max`
unfoldable pub cut_at : Option ℕ → ℕ → ℕ
cut_at none most = most
cut_at (some zero) most = most
cut_at (some (suc i)) most = suc i

unfoldable pub title_line : Text → Text
title_line s =
    let line = first_line (trim s) in
    let no_variables = replace_from (λ m. text " ") line 0 (match_all variable_at line) in
    trim (close_stops (collapse_spaces false (drop_while is_bullet no_variables)))

unfoldable pub suggest_title : Text → ℕ → Text
suggest_title s most =
    let line = title_line s in
    if leb (length line) most
    then line
    else drop_end_while is_tail_mark (take (cut_at (last_space 0 most line) most) line)
