-- ===== src/Scan.antt =====
-- `matchAll`, `replace` and the slices between matches, for a global regular expression that
-- never matches the empty string. The expression is given by what it matches at the head of a text.
pub mod Laws
use prompt_maker_studio.Base.{
  ℕ, zero, suc, ◌+◌, ◌-◌, ltb, if◌then◌else◌, List, [], ◌∷◌, ◌++◌, Option, none, some, Text, length,
  slice, drop,
}

-- The matched text, and what its groups captured.
pub record Hit {ℓ} (G : Type ℓ) : Type ℓ where
  pub token : Text
  pub group : G

-- A hit with its index in the whole text.
pub record Match {ℓ} (G : Type ℓ) : Type ℓ where
  pub index : ℕ
  pub token : Text
  pub group : G

module _ {ℓ} {G : Type ℓ} (find_at : Text → Option (Hit G)) where
  -- From `at` on, after passing over `skip` characters that the last match has taken.
  unfoldable pub match_from : ℕ → ℕ → Text → List (Match G)
  match_from skip at [] = []
  match_from (suc skip) at (c ∷ s) = match_from skip (at + 1) s
  match_from zero at (c ∷ s) = elim (find_at (c ∷ s)) [
    | none ↦ match_from zero (at + 1) s
    | some h ↦
        record { index = at; token = h.token; group = h.group }
        ∷ match_from (length h.token - 1) (at + 1) s
  ]

  unfoldable pub match_all : Text → List (Match G)
  unfolding match_from
  match_all s = match_from zero zero s

-- `replace` with a function, from `last` on: the text between the matches stays.
unfoldable pub replace_from {ℓ} : {G : Type ℓ} → (Match G → Text) → Text → ℕ → List (Match G) → Text
replace_from f s last [] = drop last s
replace_from f s last (m ∷ ms) =
    slice s last m.index ++ (f m ++ replace_from f s (m.index + length m.token) ms)

-- `split` by an expression that is one group: the pieces between the matches and the matches.
unfoldable pub split_from {ℓ} : {G : Type ℓ} → Text → ℕ → List (Match G) → List Text
split_from s last [] = drop last s ∷ []
split_from s last (m ∷ ms) =
    slice s last m.index ∷ m.token ∷ split_from s (m.index + length m.token) ms
