-- ===== src/Base/Numbering.antt =====
-- The search for a name that is not taken: a loop over numbered candidates. Among as many candidates
-- as there are taken names and one more, one is free, so that the loop ends.
use prompt_maker_studio.Base.Tests.{Bool-cases, if◌then◌else◌}
use prompt_maker_studio.Base.Lists.{length}
use prompt_maker_studio.Base.Strings.{Text, text_eq, eq_of_text_eq, includes}
use Prim.Native.Nat.{ℕ, zero, suc, ◌+◌, ◌≤◌, ◌<◌}
use mathlib.Core.Path.{◌≡◌, refl, sym, ap, ◌∙◌, subst}
use mathlib.Core.Logic.{inl, inr}
use mathlib.Core.Bool.{true, false}
use mathlib.Core.Option.{Option, none, some}
use mathlib.Core.List.{List, [], ◌∷◌}
use native.Mathlib.Omega.{arith}

-- The loop, with a round for each candidate; none means that all of them are taken.
unfoldable pub free_number : (ℕ → Text) → ℕ → List Text → ℕ → Option ℕ
free_number candidate zero taken n = none
free_number candidate (suc fuel) taken n =
    let rest = free_number candidate fuel taken (n + 1) in
    if includes taken (candidate n) then rest else some n

-- The list without one element.
abbrev remove_one : Text → List Text → List Text
remove_one x [] = []
remove_one x (y ∷ ys) = if text_eq y x then ys else y ∷ remove_one x ys

length-remove_one :
    (x : Text) (ys : List Text) → includes ys x ≡ true → length ys ≡ suc (length (remove_one x ys))
length-remove_one x [] h = cc
length-remove_one x (y ∷ ys) h = elim (Bool-cases (text_eq y x)) [
  | inl this_one ↦ rw this_one
  | inr other ↦ rw other (ap suc (length-remove_one x ys (rw other at h)))
]

includes-remove_one :
    (x z : Text) (ys : List Text)
    → text_eq x z ≡ false
    → includes (remove_one x ys) z ≡ includes ys z
includes-remove_one x z [] h = refl
includes-remove_one x z (y ∷ ys) h = elim (Bool-cases (text_eq y x)) [
  | inl this_one ↦
      rw (this_one, subst (λ t. text_eq t z ≡ false) (sym (eq_of_text_eq y x this_one)) h)
  | inr other ↦ rw (other, includes-remove_one x z ys h)
]

module _ (candidate : ℕ → Text) (least : ℕ)
    (apart : (m n : ℕ) → least ≤ m → m < n → text_eq (candidate m) (candidate n) ≡ false) where
  -- Without a candidate that stands before `n`, the loop from `n` on goes the same way.
  free_number-remove_one :
      (fuel : ℕ) (taken : List Text) (m n : ℕ)
      → least ≤ m
      → m < n
      → free_number candidate fuel (remove_one (candidate m) taken) n
        ≡ free_number candidate fuel taken n
  unfolding free_number
  free_number-remove_one zero taken m n least_le h = refl
  free_number-remove_one (suc fuel) taken m n least_le h = rw (
    includes-remove_one (candidate m) (candidate n) taken (apart m n least_le h),
    free_number-remove_one fuel taken m (n + 1) least_le (omega arith),
  )

  -- With more rounds than names are taken, the loop finds a number, and its name is not taken.
  pub free_number_found :
      (fuel : ℕ) (taken : List Text) (n : ℕ)
      → least ≤ n
      → length taken < fuel
      → (m : ℕ) × (free_number candidate fuel taken n ≡ some m)
        × (includes taken (candidate m) ≡ false)
        × (n ≤ m)
  unfolding free_number
  free_number_found zero taken n least_le h = elim h [ ]
  free_number_found (suc fuel) taken n least_le h =
      elim (Bool-cases (includes taken (candidate n))) [
        | inl used ↦
            let (m, found, free, le) =
              free_number_found fuel (remove_one (candidate n) taken) (n + 1) (omega arith)
                (omega (arith, length-remove_one (candidate n) taken used)) in
            (
              m,
              rw used (
                  sym (free_number-remove_one fuel taken n (n + 1) least_le (omega arith)) ∙ found),
              sym (
                    includes-remove_one (candidate n) (candidate m) taken
                      (apart n m least_le (omega arith)))
                  ∙ free,
              omega arith,
            )
        | inr free ↦ (n, rw free, free, omega arith)
      ]
