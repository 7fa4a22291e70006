-- ===== src/Diff.antt =====
-- lib/diff.ts (frontend/src/lib/diff.ts): the word diff of two texts. The table of the lengths of
-- longest common subsequences is filled from the end, as in the source, and read by its indices.
pub mod Tokens
pub mod Runs
pub mod Table
pub mod Longest
pub mod Words
mod Examples
use prompt_maker_studio.Base.{
  ℕ, zero, suc, ◌+◌, ◌-◌, ◌*◌, max, Bool, true, false, not, ltb, leb, if◌then◌else◌, List, [], ◌∷◌,
  ◌++◌, Option, none, some, Text, text, text_eq, length, take, take_while, drop_while, is_space,
  is_empty, strip, filter, ◌&&◌, ◌==◌,
}
use prompt_maker_studio.Scan.{Hit, match_all, split_from}
use prompt_maker_studio.Sections.Variables.{◌>>=◌}

pub data Kind : Type 0 where
  added removed unchanged : Kind

pub record DiffToken : Type 0 where
  pub type : Kind
  pub text : Text

abbrev pub token : Kind → Text → DiffToken
token k s = record { type = k; text = s }

abbrev pub same_kind : Kind → Kind → Bool
same_kind added added = true
same_kind removed removed = true
same_kind unchanged unchanged = true
same_kind _ _ = false

-- [^{}]
unfoldable pub not_brace : ℕ → Bool
not_brace c = not (c == 123) && not (c == 125)

-- `[^{}]+\}\}` at the head of a text, and `\{\{[^{}]+\}\}`: what follows it.
unfoldable pub after_braced : Text → Option Text
after_braced s =
    if is_empty (take_while not_brace s) then none else strip (text "}}") (drop_while not_brace s)

unfoldable pub after_placeholder : Text → Option Text
unfolding after_braced
after_placeholder s = do opened ← strip (text "{{") s; after_braced opened

-- /(\s+|\{\{[^{}]+\}\})/ at the head of a text.
unfoldable pub separator_at : Text → Option (Hit (Unit {0}))
separator_at [] = none
separator_at (c ∷ s) =
    if is_space c then some (record { token = c ∷ take_while is_space s; group = tt }) else do
      rest ← after_placeholder (c ∷ s)
      some (record { token = take (length (c ∷ s) - length rest) (c ∷ s); group = tt })

unfoldable pub tokenize : Text → List Text
tokenize s = filter (λ t. not (is_empty t)) (split_from s 0 (match_all separator_at s))

abbrev pub row_head : List ℕ → ℕ
row_head [] = 0
row_head (n ∷ ns) = n

abbrev pub row_tail : List ℕ → List ℕ
row_tail [] = []
row_tail (n ∷ ns) = ns

-- The row of `old`, from the row below it.
unfoldable pub lcs_row : Text → List Text → List ℕ → List ℕ
lcs_row old [] below = 0 ∷ []
lcs_row old (new ∷ news) below =
    let rest = lcs_row old news (row_tail below) in
    (if text_eq old new
      then row_head (row_tail below) + 1
      else max (row_head below) (row_head rest))
    ∷ rest

unfoldable pub zero_row : List Text → List ℕ
zero_row [] = 0 ∷ []
zero_row (new ∷ news) = 0 ∷ zero_row news

abbrev pub first_row : List (List ℕ) → List ℕ
first_row [] = []
first_row (r ∷ rs) = r

unfoldable pub lcs_table : List Text → List Text → List (List ℕ)
lcs_table [] news = zero_row news ∷ []
lcs_table (old ∷ olds) news =
    let below = lcs_table olds news in lcs_row old news (first_row below) ∷ below

abbrev pub nth_row : List (List ℕ) → ℕ → List ℕ
nth_row [] i = []
nth_row (r ∷ rs) zero = r
nth_row (r ∷ rs) (suc i) = nth_row rs i

abbrev pub nth : List ℕ → ℕ → ℕ
nth [] j = 0
nth (n ∷ ns) zero = n
nth (n ∷ ns) (suc j) = nth ns j

abbrev pub cell : List (List ℕ) → ℕ → ℕ → ℕ
cell table i j = nth (nth_row table i) j

unfoldable pub all_of : Kind → List Text → List DiffToken
all_of k [] = []
all_of k (t ∷ ts) = token k t ∷ all_of k ts

-- The three loops: `olds` and `news` are what stands from `i` and from `j` on.
unfoldable pub walk : (ℕ → ℕ → ℕ) → ℕ → ℕ → List Text → List Text → List DiffToken
walk lcs i j [] news = all_of added news
walk lcs i j (old ∷ olds) [] = all_of removed (old ∷ olds)
walk lcs i j (old ∷ olds) (new ∷ news) =
    let keep = token unchanged old ∷ walk lcs (i + 1) (j + 1) olds news in
    let remove = token removed old ∷ walk lcs (i + 1) j olds (new ∷ news) in
    let add = token added new ∷ walk lcs i (j + 1) (old ∷ olds) news in
    if text_eq old new then keep else if leb (lcs i (j + 1)) (lcs (i + 1) j) then remove else add

unfoldable pub diff_tokens : List Text → List Text → List DiffToken
unfolding walk all_of lcs_table lcs_row zero_row
diff_tokens olds news = walk (cell (lcs_table olds news)) 0 0 olds news

-- `runs.at(-1)` grows by a token of its type; any other token starts a run.
unfoldable pub push_run : List DiffToken → DiffToken → List DiffToken
push_run [] t = t ∷ []
push_run (r ∷ []) t =
    if same_kind r.type t.type then token r.type (r.text ++ t.text) ∷ [] else r ∷ t ∷ []
push_run (r ∷ q ∷ rs) t = r ∷ push_run (q ∷ rs) t

unfoldable pub merge_runs : List DiffToken → List DiffToken → List DiffToken
merge_runs runs [] = runs
merge_runs runs (t ∷ ts) = merge_runs (push_run runs t) ts

unfoldable pub one_token : Kind → Text → List DiffToken
one_token k [] = []
one_token k (c ∷ s) = token k (c ∷ s) ∷ []

unfoldable pub diff_words : Text → Text → List DiffToken
diff_words old new =
    if text_eq old new
    then one_token unchanged old
    else if ltb 1000000 ((length (tokenize old) + 1) * (length (tokenize new) + 1))
    then one_token removed old ++ one_token added new
    else merge_runs [] (diff_tokens (tokenize old) (tokenize new))
