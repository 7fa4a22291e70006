-- ===== src/Base/Decimal.antt =====
-- `String(n)` of a natural number: its decimal digits, without leading zeros.
use Prim.Native.Nat.{ℕ, zero, suc, ◌+◌, ◌*◌, ◌/◌, ◌%◌, ◌<◌, ◌-◌}
use mathlib.Core.Path.{◌≡◌, refl, sym, ap, ◌∙◌}
use mathlib.Core.Logic.{inl, inr}
use mathlib.Core.Bool.{not, Bool, true}
use mathlib.Core.List.{[], ◌∷◌}
use native.Mathlib.Omega.{arith}
use prompt_maker_studio.Base.Tests.{◌==◌, ltb, if◌then◌else◌, Bool-cases}
use prompt_maker_studio.Base.Lists.{all}
use prompt_maker_studio.Base.Strings.{Text}

-- The digits of `n` before those in `acc`. `n` has at most `n` digits, so that `n + 1` is enough fuel.
unfoldable pub digits : ℕ → ℕ → Text → Text
digits zero n acc = acc
digits (suc fuel) n acc =
    let rest = digits fuel (n / 10) ((48 + n % 10) ∷ acc) in
    if ltb n 10 then (48 + n) ∷ acc else rest

unfoldable pub decimal : ℕ → Text
unfolding digits
decimal n = digits (suc n) n []

-- The number that digits stand for.
abbrev value : ℕ → Text → ℕ
value v [] = v
value v (c ∷ s) = value (v * 10 + (c - 48)) s

value-digits : (fuel n : ℕ) (acc : Text) → n < fuel → value 0 (digits fuel n acc) ≡ value n acc
unfolding digits
value-digits zero n acc h = elim h [ ]
value-digits (suc fuel) n acc h = elim (Bool-cases (ltb n 10)) [
  | inl small ↦ rw small (ap (λ v. value v acc) (omega arith))
  | inr large ↦ rw large (
      value-digits fuel (n / 10) ((48 + n % 10) ∷ acc) (ground arith)
      ∙ ap (λ v. value v acc) (omega arith))
]

abbrev is_digit : ℕ → Bool
is_digit c = ltb c 58

module _ (p : ℕ → Bool) (on_digits : (d : ℕ) → d < 10 → p (48 + d) ≡ true) where
  digits-all : (fuel n : ℕ) (acc : Text) → all p acc ≡ true → all p (digits fuel n acc) ≡ true
  unfolding digits
  digits-all zero n acc h = h
  digits-all (suc fuel) n acc h = elim (Bool-cases (ltb n 10)) [
    | inl small ↦ rw small (rw (on_digits n (ground arith)) h)
    | inr large ↦
        rw large
          (digits-all fuel (n / 10) ((48 + n % 10) ∷ acc) (rw (on_digits (n % 10) (omega arith)) h))
  ]

pub decimal-is_digit : (n : ℕ) → all (λ c. ltb c 58) (decimal n) ≡ true
unfolding decimal
decimal-is_digit n = digits-all is_digit (λ d h. ground arith) (suc n) n [] refl

pub decimal-no_space : (n : ℕ) → all (λ c. not (c == 32)) (decimal n) ≡ true
unfolding decimal
decimal-no_space n = digits-all (λ c. not (c == 32)) (λ d h. ground arith) (suc n) n [] refl

-- Two numbers with the same digits are one number.
pub decimal_inj : (m n : ℕ) → decimal m ≡ decimal n → m ≡ n
unfolding decimal
decimal_inj m n e =
    sym (value-digits (suc m) m [] (omega arith))
    ∙ (ap (value 0) e ∙ value-digits (suc n) n [] (omega arith))
