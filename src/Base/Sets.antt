-- ===== src/Base/Sets.antt =====
-- Lists of texts without repeats, as `new Set` and `if (!xs.includes(x)) xs.push(x)` build them.
use mathlib.Core.Path.{◌≡◌, refl, sym, ap, ◌∙◌, fun_ext}
use mathlib.Core.Logic.{inl, inr}
use mathlib.Core.Bool.{Bool, true, false, not, ◌&&◌, ◌||◌}
use mathlib.Core.List.{List, [], ◌∷◌, ◌++◌, append-nil, append_assoc}
use native.Mathlib.Omega.{arith}
use prompt_maker_studio.Base.Tests.{if◌then◌else◌, Bool-cases}
use prompt_maker_studio.Base.Lists.{filter}
use prompt_maker_studio.Base.Strings.{Text, text_eq, text_eq_iff, text_eq_refl, includes}

abbrev pub push_new : List Text → Text → List Text
push_new xs x = if includes xs x then xs else xs ++ x ∷ []

unfoldable pub push_all : List Text → List Text → List Text
push_all xs [] = xs
push_all xs (y ∷ ys) = push_all (push_new xs y) ys

-- `[...new Set(xs)]`
unfoldable pub set_of : List Text → List Text
unfolding push_all
set_of xs = push_all [] xs

-- The first occurrence of each text, in order: the reference for both.
unfoldable pub first_uses : List Text → List Text
first_uses [] = []
first_uses (x ∷ xs) = x ∷ filter (λ y. not (text_eq x y)) (first_uses xs)

abbrev pub IsDistinct : List Text → Type 0
IsDistinct [] = Unit
IsDistinct (x ∷ xs) = (includes xs x ≡ false) × IsDistinct xs

pub includes-append :
    (xs ys : List Text) (z : Text) → includes (xs ++ ys) z ≡ (includes xs z || includes ys z)
includes-append [] ys z = refl
includes-append (x ∷ xs) ys z = ground (arith, includes-append xs ys z)

pub filter-filter {ℓ} :
    {A : Type ℓ} (p q : A → Bool) (xs : List A)
    → filter p (filter q xs) ≡ filter (λ x. q x && p x) xs
filter-filter p q [] = refl
filter-filter p q (x ∷ xs) = ground (arith, filter-filter p q xs)

known-absorbs :
    (xs : List Text) (x y : Text)
    → includes xs x ≡ true
    → (not (text_eq x y) && not (includes xs y)) ≡ not (includes xs y)
known-absorbs xs x y h = elim (Bool-cases (text_eq x y)) [
  | inl same ↦ rw (same, ← (text_eq_iff x y).0 same, h)
  | inr other ↦ rw other
]

snoc-excludes :
    (xs : List Text) (x y : Text)
    → not (includes (xs ++ x ∷ []) y) ≡ (not (text_eq x y) && not (includes xs y))
snoc-excludes xs x y = rw (includes-append xs (x ∷ []) y) (ground arith)

-- Pushing keeps what is there and appends the first uses of what is new.
pub push_all-first_uses :
    (xs ys : List Text) → push_all xs ys ≡ xs ++ filter (λ y. not (includes xs y)) (first_uses ys)
unfolding push_all first_uses
push_all-first_uses xs [] = sym (append-nil xs)
push_all-first_uses xs (y ∷ ys) = elim (Bool-cases (includes xs y)) [
  | inl known ↦ rw known (
      push_all-first_uses xs ys
      ∙ ap (λ zs. xs ++ zs)
          (ap (λ p. filter p (first_uses ys)) (fun_ext (λ z. sym (known-absorbs xs y z known)))
            ∙ sym (
                filter-filter (λ z. not (includes xs z)) (λ z. not (text_eq y z)) (first_uses ys))))
  | inr new ↦ rw new (
      push_all-first_uses (xs ++ y ∷ []) ys
      ∙ append_assoc xs (y ∷ []) _
      ∙ ap (λ zs. xs ++ y ∷ zs)
          (ap (λ p. filter p (first_uses ys)) (fun_ext (λ z. snoc-excludes xs y z))
            ∙ sym (
                filter-filter (λ z. not (includes xs z)) (λ z. not (text_eq y z)) (first_uses ys))))
]

filter-true {ℓ} : {A : Type ℓ} (xs : List A) → filter (λ x. true) xs ≡ xs
filter-true [] = refl
filter-true (x ∷ xs) = ap (x ∷◌) (filter-true xs)

pub set_of-first_uses : (xs : List Text) → set_of xs ≡ first_uses xs
unfolding set_of
set_of-first_uses xs = push_all-first_uses [] xs ∙ filter-true (first_uses xs)

includes-filter :
    (p : Text → Bool) (xs : List Text) (z : Text)
    → includes (filter p xs) z ≡ (p z && includes xs z)
includes-filter p [] z = ground arith
includes-filter p (x ∷ xs) z = elim (Bool-cases (text_eq x z)) [
  | inl same ↦
      let e = (text_eq_iff x z).0 same in
      rw e (ground (arith, text_eq_refl z, includes-filter p xs z))
  | inr other ↦ ground (arith, includes-filter p xs z)
]

-- The same texts, whatever the order and the repeats.
pub includes-first_uses : (xs : List Text) (z : Text) → includes (first_uses xs) z ≡ includes xs z
unfolding first_uses
includes-first_uses [] z = refl
includes-first_uses (x ∷ xs) z =
    rw (includes-filter (λ y. not (text_eq x y)) (first_uses xs) z, includes-first_uses xs z)
      (ground arith)

IsDistinct-filter : (p : Text → Bool) (xs : List Text) → IsDistinct xs → IsDistinct (filter p xs)
IsDistinct-filter p [] d = tt
IsDistinct-filter p (x ∷ xs) (new, d) = elim (Bool-cases (p x)) [
  | inl keep ↦ rw keep (includes-filter p xs x ∙ rw new (ground arith), IsDistinct-filter p xs d)
  | inr cut ↦ rw cut (IsDistinct-filter p xs d)
]

pub first_uses-IsDistinct : (xs : List Text) → IsDistinct (first_uses xs)
unfolding first_uses
first_uses-IsDistinct [] = tt
first_uses-IsDistinct (x ∷ xs) = (
  includes-filter (λ y. not (text_eq x y)) (first_uses xs) x ∙ rw (text_eq_refl x),
  IsDistinct-filter _ (first_uses xs) (first_uses-IsDistinct xs),
)

pub IsDistinct-snoc :
    (xs : List Text) (x : Text) → IsDistinct xs → includes xs x ≡ false → IsDistinct (xs ++ x ∷ [])
IsDistinct-snoc [] x d h = (refl, tt)
IsDistinct-snoc (y ∷ xs) x (new, d) h = (
  includes-append xs (x ∷ []) y ∙ ground (arith, text_eq_iff x y, text_eq_iff y x),
  IsDistinct-snoc xs x d (ground arith),
)

pub push_new-cons :
    (x : Text) (xs : List Text) (y : Text)
    → text_eq x y ≡ false
    → x ∷ push_new xs y ≡ push_new (x ∷ xs) y
push_new-cons x xs y h = elim (Bool-cases (includes xs y)) [
  | inl old ↦ rw (h, old)
  | inr new ↦ rw (h, new)
]
