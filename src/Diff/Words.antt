-- ===== src/Diff/Words.antt =====
-- What `diffWords` returns, on every branch.
use prompt_maker_studio.Base.{
  ltb, leb, Bool-cases, length, All, concat, Text, text_eq, eq_of_text_eq, ℕ, ◌+◌, ◌*◌, ◌≡◌, refl,
  ap, ap₂, ◌∙◌, inl, inr, List, [], ◌∷◌, ◌++◌, append-nil,
}
use prompt_maker_studio.Diff.{
  added, removed, unchanged, cell, lcs_table, all_of, walk, diff_tokens, tokenize, one_token,
  diff_words,
}
use prompt_maker_studio.Diff.Tokens.{tokenize-concat, tokenize-IsNotEmpty, IsNotEmpty}
use prompt_maker_studio.Diff.Longest.{walk-same, walk-removed, walk-added}
use prompt_maker_studio.Diff.Runs.{
  side, in_old, in_new, side-merge_runs, Alternates, Alternates-merge_runs, HasText,
  HasText-merge_runs,
}

sides-all_of :
    (ts : List Text)
    → (side in_old (all_of added ts) ≡ [])
      × (side in_new (all_of added ts) ≡ concat ts)
      × (side in_old (all_of removed ts) ≡ concat ts)
      × (side in_new (all_of removed ts) ≡ [])
unfolding all_of
sides-all_of [] = (refl, refl, refl, refl)
sides-all_of (t ∷ ts) =
    let (a, b, c, d) = sides-all_of ts in (a, ap (λ u. t ++ u) b, ap (λ u. t ++ u) c, d)

-- The walk spends every old and every new token once, in order.
sides-walk :
    (lcs : ℕ → ℕ → ℕ) (i j : ℕ) (olds news : List Text)
    → (side in_old (walk lcs i j olds news) ≡ concat olds)
      × (side in_new (walk lcs i j olds news) ≡ concat news)
sides-walk lcs i j [] news = let (a, b, c, d) = sides-all_of news in unfold walk in (a, b)
sides-walk lcs i j (old ∷ olds) [] =
    let (a, b, c, d) = sides-all_of (old ∷ olds) in unfold walk in (c, d)
sides-walk lcs i j (old ∷ olds) (new ∷ news) = elim (Bool-cases (text_eq old new)) [
  | inl same_head ↦
      let (a, b) = sides-walk lcs (i + 1) (j + 1) olds news in
      rw (walk-same lcs i j old new olds news same_head)
        (ap (λ u. old ++ u) a, ap₂ (λ u v. u ++ v) (eq_of_text_eq old new same_head) b)
  | inr other ↦ elim (Bool-cases (leb (lcs i (j + 1)) (lcs (i + 1) j))) [
    | inl drop_old ↦
        let (a, b) = sides-walk lcs (i + 1) j olds (new ∷ news) in
        rw (walk-removed lcs i j old new olds news other drop_old) (ap (λ u. old ++ u) a, b)
    | inr add_new ↦
        let (a, b) = sides-walk lcs i (j + 1) (old ∷ olds) news in
        rw (walk-added lcs i j old new olds news other add_new) (a, ap (λ u. new ++ u) b)
  ]
]

HasText-all_of :
    (ts : List Text)
    → All IsNotEmpty ts
    → All HasText (all_of added ts) × All HasText (all_of removed ts)
unfolding all_of
HasText-all_of [] h = (tt, tt)
HasText-all_of (t ∷ ts) (h, hs) = let (a, b) = HasText-all_of ts hs in ((h, a), (h, b))

HasText-walk :
    (lcs : ℕ → ℕ → ℕ) (i j : ℕ) (olds news : List Text)
    → All IsNotEmpty olds
    → All IsNotEmpty news
    → All HasText (walk lcs i j olds news)
HasText-walk lcs i j [] news h k = unfold walk in (HasText-all_of news k).0
HasText-walk lcs i j (old ∷ olds) [] h k = unfold walk in (HasText-all_of (old ∷ olds) h).1
HasText-walk lcs i j (old ∷ olds) (new ∷ news) h k = elim (Bool-cases (text_eq old new)) [
  | inl same_head ↦
      rw (walk-same lcs i j old new olds news same_head)
        (h.0, HasText-walk lcs (i + 1) (j + 1) olds news h.1 k.1)
  | inr other ↦ elim (Bool-cases (leb (lcs i (j + 1)) (lcs (i + 1) j))) [
    | inl drop_old ↦
        rw (walk-removed lcs i j old new olds news other drop_old)
          (h.0, HasText-walk lcs (i + 1) j olds (new ∷ news) h.1 k)
    | inr add_new ↦
        rw (walk-added lcs i j old new olds news other add_new)
          (k.0, HasText-walk lcs i (j + 1) (old ∷ olds) news h k.1)
  ]
]

sides-one_token :
    (old new : Text)
    → (side in_old (one_token removed old ++ one_token added new) ≡ old)
      × (side in_new (one_token removed old ++ one_token added new) ≡ new)
unfolding one_token
sides-one_token [] [] = (refl, refl)
sides-one_token [] (d ∷ new) = (refl, append-nil (d ∷ new))
sides-one_token (c ∷ old) [] = (append-nil (c ∷ old), refl)
sides-one_token (c ∷ old) (d ∷ new) = (append-nil (c ∷ old), append-nil (d ∷ new))

sides-unchanged :
    (s : Text)
    → (side in_old (one_token unchanged s) ≡ s) × (side in_new (one_token unchanged s) ≡ s)
unfolding one_token
sides-unchanged [] = (refl, refl)
sides-unchanged (c ∷ s) = (append-nil (c ∷ s), append-nil (c ∷ s))

-- Whichever branch is taken: without the added runs the diff reads as the old text, and without
-- the removed runs as the new one.
pub sides-diff_words :
    (old new : Text)
    → (side in_old (diff_words old new) ≡ old) × (side in_new (diff_words old new) ≡ new)
unfolding diff_words diff_tokens
sides-diff_words old new =
    let olds = tokenize old in
    let news = tokenize new in
    let lcs = cell (lcs_table olds news) in
    elim (Bool-cases (text_eq old new)) [
      | inl equal ↦
          let (a, b) = sides-unchanged old in rw equal (a, b ∙ eq_of_text_eq old new equal)
      | inr other ↦ elim (Bool-cases (ltb 1000000 ((length olds + 1) * (length news + 1)))) [
        | inl long ↦ rw (other, long) (sides-one_token old new)
        | inr short ↦
            let (a, b) = sides-walk lcs 0 0 olds news in
            rw (other, short)
              (
                side-merge_runs in_old [] (walk lcs 0 0 olds news) ∙ a ∙ tokenize-concat old,
                side-merge_runs in_new [] (walk lcs 0 0 olds news) ∙ b ∙ tokenize-concat new,
              )
      ]
    ]

one_token-runs :
    (old new : Text)
    → Alternates (one_token removed old ++ one_token added new)
      × All HasText (one_token removed old ++ one_token added new)
      × Alternates (one_token unchanged old)
      × All HasText (one_token unchanged old)
unfolding one_token
one_token-runs [] [] = (tt, tt, tt, tt)
one_token-runs [] (d ∷ new) = (tt, (refl, tt), tt, tt)
one_token-runs (c ∷ old) [] = (tt, (refl, tt), tt, (refl, tt))
one_token-runs (c ∷ old) (d ∷ new) = ((refl, tt), (refl, (refl, tt)), tt, (refl, tt))

-- The runs are as few as can be: no run is empty, and no two neighbours have the same type.
pub diff_words-runs :
    (old new : Text) → Alternates (diff_words old new) × All HasText (diff_words old new)
unfolding diff_words diff_tokens
diff_words-runs old new =
    let olds = tokenize old in
    let news = tokenize new in
    let lcs = cell (lcs_table olds news) in
    let (a, b, c, d) = one_token-runs old new in
    elim (Bool-cases (text_eq old new)) [
      | inl equal ↦ rw equal (c, d)
      | inr other ↦ elim (Bool-cases (ltb 1000000 ((length olds + 1) * (length news + 1)))) [
        | inl long ↦ rw (other, long) (a, b)
        | inr short ↦
            rw (other, short)
              (
                Alternates-merge_runs [] (walk lcs 0 0 olds news) tt,
                HasText-merge_runs [] (walk lcs 0 0 olds news) tt (
                    HasText-walk lcs 0 0 olds news (tokenize-IsNotEmpty old)
                      (tokenize-IsNotEmpty new)),
              )
      ]
    ]
