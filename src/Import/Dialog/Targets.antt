-- ===== src/Import/Dialog/Targets.antt =====
-- A prompt that was validated has the title of its row, so that an update still has its target.
use prompt_maker_studio.Base.{
  Bool-cases, All, Text, text, trim, trim_idem, ℕ, ◌+◌, ◌≡◌, refl, sym, ap, ◌∙◌, subst, inl, inr,
  true, false, Option, none, some, List, [], ◌∷◌, map, arith,
}
use prompt_maker_studio.Import.Json.{Json, Members, to_items, items, ok}
use prompt_maker_studio.Import.Items.{as_object, or_fail, bad_title, not_an_object}
use prompt_maker_studio.Import.Validate.{ImportPrompt, string_at, read_prompts}
use prompt_maker_studio.Import.Validate.Reading.{ok_injective}
use prompt_maker_studio.Import.Validate.Prompts.{read_prompt_ok}
use prompt_maker_studio.Import.Validate.Laws.{read_prompts_cons, validate_ok}
use prompt_maker_studio.Import.Dialog.{
  Saved, PreviewRow, Titles, matches, update_target, is_present, only, titled, updates, filter_from,
}
use prompt_maker_studio.Import.Dialog.Values.{to_json}
use prompt_maker_studio.Import.Dialog.Run.{validated}

items_eq : (js : List Json) → items (to_items js) ≡ js
items_eq [] = refl
items_eq (j ∷ js) = ap (j ∷◌) (items_eq js)

name_of_object :
    (p : ImportPrompt) (ms : Members)
    → or_fail (as_object (to_json p)) not_an_object ≡ ok ms
    → string_at ms (text "name") ≡ some p.name
unfolding to_json
name_of_object p ms h = ap (λ m. string_at m (text "name")) (sym (ok_injective h))

or_fail-some {ℓ κ} :
    {E : Type ℓ} {A : Type κ} (o : Option A) (e : E) (a b : A)
    → o ≡ some a
    → or_fail o e ≡ ok b
    → a ≡ b
or_fail-some none e a b h k = cc
or_fail-some (some c) e a b h k = cc

some_of {ℓ} : {A : Type ℓ} (o : Option A) → is_present o ≡ true → (a : A) × (o ≡ some a)
some_of none h = cc
some_of (some a) h = (a, refl)

-- The titles of the prompts read, from those of the rows.
abbrev pub HaveTitles : List PreviewRow → List ImportPrompt → Type 0
HaveTitles [] [] = Unit
HaveTitles [] (p ∷ ps) = ⊥
HaveTitles (row ∷ rows) [] = ⊥
HaveTitles (row ∷ rows) (p ∷ ps) = (trim row.prompt.name ≡ p.name) × HaveTitles rows ps

module _ (to_lower to_upper : Text → Text) where
  read_prompts-HaveTitles :
      (n : ℕ) (rows : List PreviewRow) (ps : List ImportPrompt)
      → read_prompts to_upper false n (map (λ r. to_json r.prompt) rows) ≡ ok ps
      → HaveTitles rows ps
  unfolding read_prompts
  read_prompts-HaveTitles n [] [] h = tt
  read_prompts-HaveTitles n [] (p ∷ ps) h = cc
  read_prompts-HaveTitles n (row ∷ rows) ps h =
      let (p, rest, first, others, e) =
        read_prompts_cons to_upper false n (to_json row.prompt) (map (λ r. to_json r.prompt) rows)
          ps h in
      let ((ms, raw, _, is_obj, is_text, _, is_trimmed, _, _, _, _, _, _), _) =
        read_prompt_ok to_upper false (to_json row.prompt) p first in
      let is_name : row.prompt.name ≡ raw =
        or_fail-some _ bad_title row.prompt.name raw (name_of_object row.prompt ms is_obj)
          is_text in
      subst (HaveTitles (row ∷ rows)) e
        (ap trim is_name ∙ is_trimmed, read_prompts-HaveTitles (n + 1) rows rest others)

  pub validated-HaveTitles :
      (rows : List PreviewRow) (ps : List ImportPrompt)
      → validated to_lower to_upper rows ≡ ok ps
      → HaveTitles rows ps
  validated-HaveTitles [] [] h = tt
  validated-HaveTitles [] (p ∷ ps) h = cc
  validated-HaveTitles (row ∷ rows) ps h =
      let (js, is_array, _, are_read) = validate_ok to_upper false _ ps h in
      let same_items = ok_injective is_array in
      read_prompts-HaveTitles 1 (row ∷ rows) ps (
        ap (read_prompts to_upper false 1)
          (sym (items_eq (map (λ r. to_json r.prompt) (row ∷ rows))) ∙ same_items)
        ∙ are_read)

  module _ (titles : Titles) where
    abbrev pub HaveTargets : List ImportPrompt → Type 0
    HaveTargets ps = All (λ p. (c : Saved) × (update_target to_lower to_upper titles p ≡ some c)) ps

    update_target-trim :
        (p q : ImportPrompt)
        → trim p.name ≡ q.name
        → update_target to_lower to_upper titles q ≡ update_target to_lower to_upper titles p
    unfolding update_target matches
    update_target-trim p q h =
        ap (λ n. only (titled titles (to_lower n))) (ap trim (sym h) ∙ trim_idem p.name)

    updates_target :
        (updating : List ℕ) (row : PreviewRow) (index : ℕ)
        → updates to_lower to_upper titles updating row index ≡ true
        → (c : Saved) × (update_target to_lower to_upper titles row.prompt ≡ some c)
    unfolding updates
    updates_target updating row index h =
        let targeted : is_present (update_target to_lower to_upper titles row.prompt) ≡ true =
          ground arith in
        some_of (update_target to_lower to_upper titles row.prompt) targeted

    pub filter_updates-HaveTargets :
        (updating : List ℕ) (index : ℕ) (rows : List PreviewRow)
        → All
            (λ r. (c : Saved) × (update_target to_lower to_upper titles r.prompt ≡ some c))
            (filter_from (updates to_lower to_upper titles updating) index rows)
    filter_updates-HaveTargets updating index [] = tt
    filter_updates-HaveTargets updating index (row ∷ rows) =
        let rest = filter_updates-HaveTargets updating (index + 1) rows in
        elim (Bool-cases (updates to_lower to_upper titles updating row index)) [
          | inl chosen ↦ rw chosen (updates_target updating row index chosen, rest)
          | inr other ↦ rw other rest
        ]

    pub titles-HaveTargets :
        (rows : List PreviewRow) (ps : List ImportPrompt)
        → HaveTitles rows ps
        → All (λ r. (c : Saved) × (update_target to_lower to_upper titles r.prompt ≡ some c)) rows
        → HaveTargets ps
    titles-HaveTargets [] [] h k = tt
    titles-HaveTargets [] (p ∷ ps) h k = elim h [ ]
    titles-HaveTargets (row ∷ rows) [] h k = elim h [ ]
    titles-HaveTargets (row ∷ rows) (p ∷ ps) (e, h) ((c, target), k) =
        ((c, update_target-trim row.prompt p e ∙ target), titles-HaveTargets rows ps h k)
