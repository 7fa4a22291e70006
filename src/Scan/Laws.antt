-- ===== src/Scan/Laws.antt =====
-- Where the matches of a scan lie in the text, and when a scan finds none.
use prompt_maker_studio.Base.{
  append-nil, concat, ℕ, zero, suc, ◌+◌, ◌-◌, ◌≤◌, ◌<◌, ◌≡◌, refl, sym, ap, ap₂, subst, inl, inr,
  All, ◌∙◌, List, [], ◌∷◌, ◌++◌, Option, some, Text, length, slice, drop, take, arith, Option-cases,
  append_assoc, slice-append-drop, drop-append-length, take-append-length, length-append,
  take-append-drop, length-take,
}
use prompt_maker_studio.Scan.{Hit, Match, match_from, match_all, replace_from, split_from}

-- A hit is a non-empty head of the text.
pub record IsHit {ℓ} {G : Type ℓ} (s : Text) (h : Hit G) : Type 0 where
  pub rest : Text
  pub whole : s ≡ h.token ++ rest
  pub not_empty : 1 ≤ length h.token

-- A hit is cut off the head where a shorter rest is left.
pub take-IsHit {ℓ} :
    {G : Type ℓ} (s rest : Text) (g : G)
    → length rest < length s
    → IsHit s (record { token = take (length s - length rest) s; group = g })
take-IsHit s rest g h = record {
  rest = drop (length s - length rest) s;
  whole = sym (take-append-drop (length s - length rest) s);
  not_empty = omega (arith, length-take (length s - length rest) s);
}

-- The matches lie in the text one after the other, from `last` on.
abbrev pub Located {ℓ} : {G : Type ℓ} → Text → ℕ → List (Match G) → Type 0
Located s last [] = Unit
Located s last (m ∷ ms) =
    (last ≤ m.index)
    × (slice s m.index (m.index + length m.token) ≡ m.token)
    × Located s (m.index + length m.token) ms

pub Located-weaken {ℓ} :
    {G : Type ℓ} (s : Text) (i j : ℕ) (ms : List (Match G))
    → i ≤ j
    → Located s j ms
    → Located s i ms
Located-weaken s i j [] h l = tt
Located-weaken s i j (m ∷ ms) h (le, same, l) = (omega arith, same, l)

slice-append :
    (at : ℕ) (t pre tok rest : Text)
    → t ≡ pre ++ (tok ++ rest)
    → at ≡ length pre
    → slice t at (at + length tok) ≡ tok
slice-append at t pre tok rest e f =
    ap₂ (λ n u. take n (drop at u)) (omega arith) e
    ∙ ap (λ n. take (length tok) (drop n (pre ++ (tok ++ rest)))) f
    ∙ ap (take (length tok)) (drop-append-length pre (tok ++ rest))
    ∙ take-append-length tok rest

module _ {ℓ} {G : Type ℓ} (find_at : Text → Option (Hit G))
    (find_at-IsHit : (s : Text) (h : Hit G) → find_at s ≡ some h → IsHit s h) where
  match_from-Located :
      (skip at : ℕ) (t pre s : Text)
      → t ≡ pre ++ s
      → at ≡ length pre
      → Located t (at + skip) (match_from find_at skip at s)
  unfolding match_from
  match_from-Located skip at t pre [] e f = tt
  match_from-Located (suc skip) at t pre (c ∷ s) e f =
      subst (λ n. Located t n (match_from find_at skip (at + 1) s)) (omega arith)
        (match_from-Located skip (at + 1) t (pre ++ c ∷ []) s
          (e ∙ sym (append_assoc pre (c ∷ []) s)) (omega (arith, length-append pre (c ∷ []))))
  match_from-Located zero at t pre (c ∷ s) e f =
      let later = λ (skip : ℕ).
        match_from-Located skip (at + 1) t (pre ++ c ∷ []) s (e ∙ sym (append_assoc pre (c ∷ []) s))
          (omega (arith, length-append pre (c ∷ []))) in
      elim (Option-cases (find_at (c ∷ s))) [
        | inl none_here ↦
            rw (none_here, match_from)
              (Located-weaken t (at + 0) (at + 1 + 0) _ (omega arith) (later 0))
        | inr (h, found) ↦
            let hit = find_at-IsHit (c ∷ s) h found in
            let ne : 1 ≤ length h.token = hit.not_empty in
            rw (found, match_from)
              (
                omega arith,
                slice-append at t pre h.token hit.rest (e ∙ ap (λ u. pre ++ u) hit.whole) f,
                subst (λ n. Located t n (match_from find_at (length h.token - 1) (at + 1) s))
                    (omega arith) (later (length h.token - 1)),
              )
      ]

  pub match_all-Located : (s : Text) → Located s 0 (match_all find_at s)
  unfolding match_all
  match_all-Located s = match_from-Located 0 0 s [] s refl refl

-- Putting every match back where it was gives the text from `last` on.
pub replace_from-token {ℓ} :
    {G : Type ℓ} (s : Text) (last : ℕ) (ms : List (Match G))
    → Located s last ms
    → replace_from (λ m. m.token) s last ms ≡ drop last s
unfolding replace_from
replace_from-token s last [] l = refl
replace_from-token s last (m ∷ ms) (le, same, l) =
    ap (λ u. slice s last m.index ++ u)
      (ap (λ u. m.token ++ u) (replace_from-token s (m.index + length m.token) ms l)
        ∙ ap (λ u. u ++ drop (m.index + length m.token) s) (sym same)
        ∙ slice-append-drop s m.index (m.index + length m.token) (omega arith))
    ∙ slice-append-drop s last m.index le

-- Replacing agrees where the two functions agree on every match.
pub replace_from-congr {ℓ} :
    {G : Type ℓ} (f g : Match G → Text) (s : Text) (last : ℕ) (ms : List (Match G))
    → All (λ m. f m ≡ g m) ms
    → replace_from f s last ms ≡ replace_from g s last ms
unfolding replace_from
replace_from-congr f g s last [] h = refl
replace_from-congr f g s last (m ∷ ms) (e, h) =
    ap₂ (λ u v. slice s last m.index ++ (u ++ v)) e
      (replace_from-congr f g s (m.index + length m.token) ms h)

-- The pieces of a split, put together again.
pub split_from-concat {ℓ} :
    {G : Type ℓ} (s : Text) (last : ℕ) (ms : List (Match G))
    → concat (split_from s last ms) ≡ replace_from (λ m. m.token) s last ms
unfolding split_from replace_from
split_from-concat s last [] = append-nil (drop last s)
split_from-concat s last (m ∷ ms) =
    ap (λ u. slice s last m.index ++ (m.token ++ u))
      (split_from-concat s (m.index + length m.token) ms)
