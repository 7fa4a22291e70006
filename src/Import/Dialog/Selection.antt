-- ===== src/Import/Dialog/Selection.antt =====
-- What becomes of each row of the preview.
use prompt_maker_studio.Base.{
  length, Text, ℕ, ◌+◌, pos, ◌-ℤ◌, ◌≡◌, refl, Bool, false, not, ◌&&◌, ◌||◌, List, [], ◌∷◌, arith,
}
use prompt_maker_studio.Import.Dialog.{PreviewRow, Titles, updates, included, filter_from}
use prompt_maker_studio.Import.Dialog.Run.{is_skipped, left_out}

-- No row is in two of the three selections.
abbrev AreApart : (p q r : PreviewRow → ℕ → Bool) → Type 0
AreApart p q r =
    (row : PreviewRow) (i : ℕ)
    → ((p row i && q row i) ≡ false)
      × ((p row i && r row i) ≡ false)
      × ((q row i && r row i) ≡ false)

abbrev pub in_none : (p q r : PreviewRow → ℕ → Bool) → PreviewRow → ℕ → Bool
in_none p q r row i = not (p row i || q row i || r row i)

length-filter_from :
    (p q r : PreviewRow → ℕ → Bool) (apart : AreApart p q r) (n : ℕ) (rows : List PreviewRow)
    → length rows
      ≡ length (filter_from p n rows)
        + length (filter_from q n rows)
        + length (filter_from r n rows)
        + length (filter_from (in_none p q r) n rows)
length-filter_from p q r apart n [] = refl
length-filter_from p q r apart n (row ∷ rows) =
    let (pq, pr, qr) = apart row n in
    let rest = length-filter_from p q r apart (n + 1) rows in ground arith

module _ (to_lower to_upper : Text → Text) (titles : Titles) (toggled updating : List ℕ) where
  selections_apart :
      AreApart
        (is_skipped to_lower to_upper titles toggled updating)
        (included to_lower to_upper titles toggled updating)
        (updates to_lower to_upper titles updating)
  unfolding is_skipped included updates
  selections_apart row i = (ground arith, ground arith, ground arith)

-- An integer from which three counts are taken, when it is their sum and another count.
-ℤ_left : (all a b c rest : ℕ) → all ≡ a + b + c + rest → pos all -ℤ a -ℤ b -ℤ c ≡ pos rest
unfolding ◌-ℤ◌
-ℤ_left all a b c rest h = ground arith

-- The number of prompts that the message says were left out is that of the rows which are neither
-- imported, nor used for an update, nor skipped as duplicates: so no row is counted twice, and the
-- number, which the code gets by subtraction, is not negative.
pub left_out_exact :
    (to_lower to_upper : Text → Text) (titles : Titles) (toggled updating : List ℕ)
    (rows : List PreviewRow)
    → left_out to_lower to_upper titles toggled updating rows
      ≡ pos (
          length (
            filter_from
              (in_none
                (is_skipped to_lower to_upper titles toggled updating)
                (included to_lower to_upper titles toggled updating)
                (updates to_lower to_upper titles updating))
              0
              rows))
unfolding left_out
left_out_exact to_lower to_upper titles toggled updating rows =
    let skipped = is_skipped to_lower to_upper titles toggled updating in
    let chosen = included to_lower to_upper titles toggled updating in
    let changed = updates to_lower to_upper titles updating in
    -ℤ_left (length rows) (length (filter_from skipped 0 rows)) (length (filter_from chosen 0 rows))
      (length (filter_from changed 0 rows))
      (length (filter_from (in_none skipped chosen changed) 0 rows))
      (length-filter_from skipped chosen changed
        (selections_apart to_lower to_upper titles toggled updating) 0 rows)
