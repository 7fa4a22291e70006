-- ===== src/Diff/Table.antt =====
-- The table against the recursion that it tabulates.
use prompt_maker_studio.Base.{
  if◌then◌else◌, drop, Text, text_eq, ℕ, zero, suc, ◌+◌, max, ◌≡◌, refl, ap, List, [], ◌∷◌,
}
use prompt_maker_studio.Diff.{
  row_head, row_tail, lcs_row, zero_row, first_row, lcs_table, nth, cell,
}

-- The reference: the length of a longest common subsequence.
unfoldable pub lcs_length : List Text → List Text → ℕ
lcs_length [] news = 0
lcs_length (old ∷ olds) [] = 0
lcs_length (old ∷ olds) (new ∷ news) =
    let both_used = lcs_length olds news in
    let old_left = lcs_length olds (new ∷ news) in
    let new_left = lcs_length (old ∷ olds) news in
    if text_eq old new then both_used + 1 else max old_left new_left

-- A row holds the reference's values for the suffixes of `news`.
abbrev IsRow : List Text → List Text → List ℕ → Type 0
IsRow olds [] row = row ≡ 0 ∷ []
IsRow olds (new ∷ news) row =
    (row_head row ≡ lcs_length olds (new ∷ news)) × IsRow olds news (row_tail row)

IsRow-head :
    (olds news : List Text) (row : List ℕ)
    → IsRow olds news row
    → row_head row ≡ lcs_length olds news
unfolding lcs_length
IsRow-head [] [] row h = ap row_head h
IsRow-head (old ∷ olds) [] row h = ap row_head h
IsRow-head olds (new ∷ news) row h = h.0

zero_row-IsRow : (news : List Text) → IsRow [] news (zero_row news)
unfolding zero_row lcs_length
zero_row-IsRow [] = refl
zero_row-IsRow (new ∷ news) = (refl, zero_row-IsRow news)

lcs_row-IsRow :
    (old : Text) (olds news : List Text) (below : List ℕ)
    → IsRow olds news below
    → IsRow (old ∷ olds) news (lcs_row old news below)
unfolding lcs_row
lcs_row-IsRow old olds [] below h = refl
lcs_row-IsRow old olds (new ∷ news) below (here, h) =
    let later = lcs_row-IsRow old olds news (row_tail below) h in
    (
      cell_step old new olds news _ _ _ (IsRow-head olds news _ h) here
          (IsRow-head (old ∷ olds) news _ later),
      later,
    )
  where
    cell_step :
        (old new : Text) (olds news : List Text) (a b c : ℕ)
        → a ≡ lcs_length olds news
        → b ≡ lcs_length olds (new ∷ news)
        → c ≡ lcs_length (old ∷ olds) news
        → (if text_eq old new then a + 1 else max b c) ≡ lcs_length (old ∷ olds) (new ∷ news)
    cell_step old new olds news a b c e f g = unfold lcs_length in rw (e, f, g)

abbrev IsTable : List Text → List Text → List (List ℕ) → Type 0
IsTable [] news [] = ⊥
IsTable [] news (r ∷ rs) = IsRow [] news r × (rs ≡ [])
IsTable (old ∷ olds) news [] = ⊥
IsTable (old ∷ olds) news (r ∷ rs) = IsRow (old ∷ olds) news r × IsTable olds news rs

first_row-IsRow :
    (olds news : List Text) (rows : List (List ℕ))
    → IsTable olds news rows
    → IsRow olds news (first_row rows)
first_row-IsRow [] news [] h = absurd h
first_row-IsRow [] news (r ∷ rs) h = h.0
first_row-IsRow (old ∷ olds) news [] h = absurd h
first_row-IsRow (old ∷ olds) news (r ∷ rs) h = h.0

lcs_table-IsTable : (olds news : List Text) → IsTable olds news (lcs_table olds news)
unfolding lcs_table
lcs_table-IsTable [] news = (zero_row-IsRow news, refl)
lcs_table-IsTable (old ∷ olds) news =
    let below = lcs_table-IsTable olds news in
    (lcs_row-IsRow old olds news _ (first_row-IsRow olds news _ below), below)

lcs_length-nil : (olds : List Text) → lcs_length olds [] ≡ 0
unfolding lcs_length
lcs_length-nil [] = refl
lcs_length-nil (old ∷ olds) = refl

IsRow-nil : (olds news : List Text) → ¬ (IsRow olds news [])
IsRow-nil olds [] h = cc
IsRow-nil olds (new ∷ news) h = IsRow-nil olds news h.1

IsRow-nth :
    (olds news : List Text) (row : List ℕ) (j : ℕ)
    → IsRow olds news row
    → nth row j ≡ lcs_length olds (drop j news)
IsRow-nth olds [] row zero h = rw (h, lcs_length-nil olds)
IsRow-nth olds [] row (suc j) h = rw (h, lcs_length-nil olds)
IsRow-nth olds (new ∷ news) [] j h = absurd (IsRow-nil olds news h.1)
IsRow-nth olds (new ∷ news) (r ∷ row) zero h = h.0
IsRow-nth olds (new ∷ news) (r ∷ row) (suc j) h = IsRow-nth olds news row j h.1

cell-IsTable :
    (olds news : List Text) (rows : List (List ℕ)) (i j : ℕ)
    → IsTable olds news rows
    → cell rows i j ≡ lcs_length (drop i olds) (drop j news)
cell-IsTable [] news [] i j h = absurd h
cell-IsTable [] news (r ∷ rs) zero j h = IsRow-nth [] news r j h.0
cell-IsTable [] news (r ∷ rs) (suc i) j h = rw h.1 (unfold lcs_length in refl)
cell-IsTable (old ∷ olds) news [] i j h = absurd h
cell-IsTable (old ∷ olds) news (r ∷ rs) zero j h = IsRow-nth (old ∷ olds) news r j h.0
cell-IsTable (old ∷ olds) news (r ∷ rs) (suc i) j h = cell-IsTable olds news rs i j h.1

-- `lcs[i][j]` is the length of a longest common subsequence of `oldTokens[i:]` and `newTokens[j:]`.
pub cell-lcs_table :
    (olds news : List Text) (i j : ℕ)
    → cell (lcs_table olds news) i j ≡ lcs_length (drop i olds) (drop j news)
cell-lcs_table olds news i j = cell-IsTable olds news _ i j (lcs_table-IsTable olds news)
