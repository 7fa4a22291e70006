-- ===== src/Base/Trim.antt =====
-- Trimming twice is trimming once.
use Prim.Native.Nat.{ℕ}
use mathlib.Core.Path.{◌≡◌, refl, ap, ◌∙◌}
use mathlib.Core.Logic.{inl, inr}
use mathlib.Core.Bool.{false}
use mathlib.Core.List.{[], ◌∷◌, ◌++◌, reverse, reverse-reverse, reverse-append}
use prompt_maker_studio.Base.Tests.{Bool-cases}
use prompt_maker_studio.Base.Strings.{Text, is_space, trim_start, trim_end, trim}

trim_start_idem : (s : Text) → trim_start (trim_start s) ≡ trim_start s
trim_start_idem [] = refl
trim_start_idem (c ∷ s) = elim (Bool-cases (is_space c)) [
  | inl space ↦ rw space (trim_start_idem s)
  | inr letter ↦ rw (letter, letter)
]

trim_start-snoc :
    (s : Text) (c : ℕ) → is_space c ≡ false → trim_start (s ++ c ∷ []) ≡ trim_start s ++ c ∷ []
trim_start-snoc [] c h = rw h
trim_start-snoc (d ∷ s) c h = elim (Bool-cases (is_space d)) [
  | inl space ↦ rw space (trim_start-snoc s c h)
  | inr letter ↦ rw letter
]

pub trim_end-cons : (c : ℕ) (s : Text) → is_space c ≡ false → trim_end (c ∷ s) ≡ c ∷ trim_end s
trim_end-cons c s h =
    ap (λ t. reverse (trim_start t)) (reverse-append (c ∷ []) s)
    ∙ (ap reverse (trim_start-snoc (reverse s) c h)
        ∙ reverse-append (trim_start (reverse s)) (c ∷ []))

trim_start-trim_end : (s : Text) → trim_start (trim_end (trim_start s)) ≡ trim_end (trim_start s)
trim_start-trim_end [] = refl
trim_start-trim_end (c ∷ s) = elim (Bool-cases (is_space c)) [
  | inl space ↦ rw space (trim_start-trim_end s)
  | inr letter ↦ rw (letter, trim_end-cons c s letter, letter)
]

trim_end_idem : (s : Text) → trim_end (trim_end s) ≡ trim_end s
trim_end_idem s =
    ap (λ t. reverse (trim_start t)) (reverse-reverse (trim_start (reverse s)))
    ∙ ap reverse (trim_start_idem (reverse s))

pub trim_idem : (s : Text) → trim (trim s) ≡ trim s
trim_idem s = ap trim_end (trim_start-trim_end s) ∙ trim_end_idem (trim_start s)
