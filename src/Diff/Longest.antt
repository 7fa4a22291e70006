-- ===== src/Diff/Longest.antt =====
-- The walk through the table keeps a longest common subsequence of the tokens.
use prompt_maker_studio.Base.{
  false_ne_true, leb, Bool-cases, length, drop, Text, text_eq, eq_of_text_eq, text_eq_iff, ℕ, suc,
  ◌+◌, ◌≤◌, max, ◌≡◌, refl, sym, ap, ap₂, ◌∙◌, ◌⊎◌, inl, inr, true, false, List, [], ◌∷◌, arith,
}
use prompt_maker_studio.Diff.{
  added, removed, unchanged, DiffToken, token, cell, lcs_table, all_of, walk, diff_tokens,
}
use prompt_maker_studio.Diff.Table.{lcs_length, cell-lcs_table}

-- `zs` is left of `xs` when some elements are dropped.
abbrev pub IsSubsequence : List Text → List Text → Type 0
IsSubsequence [] xs = Unit
IsSubsequence (z ∷ zs) [] = ⊥
IsSubsequence (z ∷ zs) (x ∷ xs) = ((z ≡ x) × IsSubsequence zs xs) ⊎ IsSubsequence (z ∷ zs) xs

IsSubsequence-tail :
    (z : Text) (zs xs : List Text) → IsSubsequence (z ∷ zs) xs → IsSubsequence zs xs
IsSubsequence-tail z [] xs h = tt
IsSubsequence-tail z (y ∷ zs) [] h = absurd h
IsSubsequence-tail z (y ∷ zs) (x ∷ xs) (inl (e, h)) = inr h
IsSubsequence-tail z (y ∷ zs) (x ∷ xs) (inr h) = inr (IsSubsequence-tail z (y ∷ zs) xs h)

-- What is left of `x ∷ xs` after its first element.
IsSubsequence-cons :
    (z x : Text) (zs xs : List Text) → IsSubsequence (z ∷ zs) (x ∷ xs) → IsSubsequence zs xs
IsSubsequence-cons z x zs xs (inl (e, h)) = h
IsSubsequence-cons z x zs xs (inr h) = IsSubsequence-tail z zs xs h

one_is_shorter :
    (z x y : Text) (zs xs ys : List Text) (n a b : ℕ)
    → IsSubsequence (z ∷ zs) (x ∷ xs)
    → IsSubsequence (z ∷ zs) (y ∷ ys)
    → text_eq x y ≡ false
    → (IsSubsequence (z ∷ zs) xs → IsSubsequence (z ∷ zs) (y ∷ ys) → n ≤ a)
    → (IsSubsequence (z ∷ zs) (x ∷ xs) → IsSubsequence (z ∷ zs) ys → n ≤ b)
    → n ≤ max a b
one_is_shorter z x y zs xs ys n a b (inr h) k ne left right = omega (arith, left h k)
one_is_shorter z x y zs xs ys n a b (inl h) (inr k) ne left right = omega (arith, right (inl h) k)
one_is_shorter z x y zs xs ys n a b (inl (e, h)) (inl (f, k)) ne left right =
    absurd (false_ne_true (sym ne ∙ (text_eq_iff x y).1 (sym e ∙ f)))

length-le-lcs_length :
    (zs xs ys : List Text)
    → IsSubsequence zs xs
    → IsSubsequence zs ys
    → length zs ≤ lcs_length xs ys
unfolding lcs_length
length-le-lcs_length [] xs ys h k = omega arith
length-le-lcs_length (z ∷ zs) [] ys h k = absurd h
length-le-lcs_length (z ∷ zs) (x ∷ xs) [] h k = absurd k
length-le-lcs_length (z ∷ zs) (x ∷ xs) (y ∷ ys) h k =
    let tails : length zs ≤ lcs_length xs ys =
      length-le-lcs_length zs xs ys (IsSubsequence-cons z x zs xs h)
        (IsSubsequence-cons z y zs ys k) in
    elim (Bool-cases (text_eq x y)) [
      | inl same_head ↦ rw same_head (omega (arith, tails))
      | inr other ↦ rw other (
          one_is_shorter z x y zs xs ys (suc (length zs)) _ _ h k other
            (length-le-lcs_length (z ∷ zs) xs (y ∷ ys)) (length-le-lcs_length (z ∷ zs) (x ∷ xs) ys))
    ]

-- The texts of the unchanged tokens, in order.
abbrev pub kept : List DiffToken → List Text
kept [] = []
kept (t ∷ ts) = elim t.type [ unchanged ↦ t.text ∷ kept ts | _ ↦ kept ts ]

kept-all_of : (ts : List Text) → (kept (all_of added ts) ≡ []) × (kept (all_of removed ts) ≡ [])
unfolding all_of
kept-all_of [] = (refl, refl)
kept-all_of (t ∷ ts) = kept-all_of ts

-- The table agrees with the reference from `i` and `j` on.
abbrev Agrees : (ℕ → ℕ → ℕ) → ℕ → ℕ → List Text → List Text → Type 0
Agrees lcs i j olds news = (a b : ℕ) → lcs (i + a) (j + b) ≡ lcs_length (drop a olds) (drop b news)

Agrees-old :
    (lcs : ℕ → ℕ → ℕ) (i j : ℕ) (old : Text) (olds news : List Text)
    → Agrees lcs i j (old ∷ olds) news
    → Agrees lcs (i + 1) j olds news
Agrees-old lcs i j old olds news h a b =
    ap (λ n. lcs n (j + b)) (let e : i + 1 + a ≡ i + suc a = omega arith in e) ∙ h (suc a) b

Agrees-new :
    (lcs : ℕ → ℕ → ℕ) (i j : ℕ) (new : Text) (olds news : List Text)
    → Agrees lcs i j olds (new ∷ news)
    → Agrees lcs i (j + 1) olds news
Agrees-new lcs i j new olds news h a b =
    ap (λ n. lcs (i + a) n) (let e : j + 1 + b ≡ j + suc b = omega arith in e) ∙ h a (suc b)

module _ (lcs : ℕ → ℕ → ℕ) (i j : ℕ) (old new : Text) (olds news : List Text) where
  pub walk-same :
      text_eq old new ≡ true
      → walk lcs i j (old ∷ olds) (new ∷ news)
        ≡ token unchanged old ∷ walk lcs (i + 1) (j + 1) olds news
  unfolding walk
  walk-same h = rw h

  pub walk-removed :
      text_eq old new ≡ false
      → leb (lcs i (j + 1)) (lcs (i + 1) j) ≡ true
      → walk lcs i j (old ∷ olds) (new ∷ news)
        ≡ token removed old ∷ walk lcs (i + 1) j olds (new ∷ news)
  unfolding walk
  walk-removed h k = rw (h, k)

  pub walk-added :
      text_eq old new ≡ false
      → leb (lcs i (j + 1)) (lcs (i + 1) j) ≡ false
      → walk lcs i j (old ∷ olds) (new ∷ news)
        ≡ token added new ∷ walk lcs i (j + 1) (old ∷ olds) news
  unfolding walk
  walk-added h k = rw (h, k)

length-kept-walk :
    (lcs : ℕ → ℕ → ℕ) (i j : ℕ) (olds news : List Text)
    → Agrees lcs i j olds news
    → length (kept (walk lcs i j olds news)) ≡ lcs_length olds news
unfolding lcs_length
length-kept-walk lcs i j [] news h = unfold walk in ap length (kept-all_of news).0
length-kept-walk lcs i j (old ∷ olds) [] h = unfold walk in ap length (kept-all_of (old ∷ olds)).1
length-kept-walk lcs i j (old ∷ olds) (new ∷ news) h = elim (Bool-cases (text_eq old new)) [
  | inl same_head ↦
      ap (λ ts. length (kept ts)) (walk-same lcs i j old new olds news same_head)
      ∙ ap suc (
          length-kept-walk lcs (i + 1) (j + 1) olds news
            (Agrees-old lcs i (j + 1) old olds news (Agrees-new lcs i j new (old ∷ olds) news h)))
      ∙ rw same_head (omega arith)
  | inr other ↦
      let at_old : lcs (i + 1) j ≡ lcs_length olds (new ∷ news) =
        ap (λ n. lcs (i + 1) n) (omega arith) ∙ h 1 0 in
      let at_new : lcs i (j + 1) ≡ lcs_length (old ∷ olds) news =
        ap (λ n. lcs n (j + 1)) (omega arith) ∙ h 0 1 in
      elim (Bool-cases (leb (lcs i (j + 1)) (lcs (i + 1) j))) [
        | inl drop_old ↦
            ap (λ ts. length (kept ts)) (walk-removed lcs i j old new olds news other drop_old)
            ∙ length-kept-walk lcs (i + 1) j olds (new ∷ news)
                (Agrees-old lcs i j old olds (new ∷ news) h)
            ∙ rw other (ground arith)
        | inr add_new ↦
            ap (λ ts. length (kept ts)) (walk-added lcs i j old new olds news other add_new)
            ∙ length-kept-walk lcs i (j + 1) (old ∷ olds) news
                (Agrees-new lcs i j new (old ∷ olds) news h)
            ∙ rw other (ground arith)
      ]
]

-- Kept tokens stand in both texts, in order.
IsSubsequence-skip :
    (zs xs : List Text) (x : Text) → IsSubsequence zs xs → IsSubsequence zs (x ∷ xs)
IsSubsequence-skip [] xs x h = tt
IsSubsequence-skip (z ∷ zs) xs x h = inr h

kept-walk-IsSubsequence :
    (lcs : ℕ → ℕ → ℕ) (i j : ℕ) (olds news : List Text)
    → IsSubsequence (kept (walk lcs i j olds news)) olds
      × IsSubsequence (kept (walk lcs i j olds news)) news
kept-walk-IsSubsequence lcs i j [] news =
    unfold walk in (rw (kept-all_of news).0 tt, rw (kept-all_of news).0 tt)
kept-walk-IsSubsequence lcs i j (old ∷ olds) [] =
    unfold walk in (rw (kept-all_of (old ∷ olds)).1 tt, rw (kept-all_of (old ∷ olds)).1 tt)
kept-walk-IsSubsequence lcs i j (old ∷ olds) (new ∷ news) = elim (Bool-cases (text_eq old new)) [
  | inl same_head ↦
      let (a, b) = kept-walk-IsSubsequence lcs (i + 1) (j + 1) olds news in
      rw (walk-same lcs i j old new olds news same_head)
        (inl (refl, a), inl (eq_of_text_eq old new same_head, b))
  | inr other ↦ elim (Bool-cases (leb (lcs i (j + 1)) (lcs (i + 1) j))) [
    | inl drop_old ↦
        let (a, b) = kept-walk-IsSubsequence lcs (i + 1) j olds (new ∷ news) in
        rw (walk-removed lcs i j old new olds news other drop_old)
          (IsSubsequence-skip _ olds old a, b)
    | inr add_new ↦
        let (a, b) = kept-walk-IsSubsequence lcs i (j + 1) (old ∷ olds) news in
        rw (walk-added lcs i j old new olds news other add_new) (a, IsSubsequence-skip _ news new b)
  ]
]

-- The unchanged tokens are a common subsequence of the two token lists, and no common subsequence
-- is longer.
pub kept-diff_tokens_longest :
    (olds news zs : List Text)
    → IsSubsequence zs olds
    → IsSubsequence zs news
    → IsSubsequence (kept (diff_tokens olds news)) olds
      × IsSubsequence (kept (diff_tokens olds news)) news
      × (length zs ≤ length (kept (diff_tokens olds news)))
unfolding diff_tokens
kept-diff_tokens_longest olds news zs h k =
    let lcs = cell (lcs_table olds news) in
    let (a, b) = kept-walk-IsSubsequence lcs 0 0 olds news in
    let size = length-kept-walk lcs 0 0 olds news (λ m n.
      ap₂ lcs (let e : 0 + m ≡ m = omega arith in e) (let e : 0 + n ≡ n = omega arith in e)
      ∙ cell-lcs_table olds news m n) in
    (a, b, omega (arith, size, length-le-lcs_length zs olds news h k))
