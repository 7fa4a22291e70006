-- ===== src/Library/Prompts.antt =====
-- `PromptHistoryResponse` of types/prompt.ts, and the list operations of useLibrary.ts.
use prompt_maker_studio.Base.{
  ◌==◌, if◌then◌else◌, filter, Text, ℕ, Bool, false, not, ◌||◌, Option, none, some, List, [], ◌∷◌,
  ◌++◌,
}
use prompt_maker_studio.Sections.Chars.{PromptField}

pub record Prompt : Type 0 where
  pub id : ℕ
  pub name : Option Text
  pub fields : List PromptField
  pub generated_prompt : Text
  pub created_at : Text
  pub updated_at : Option Text
  pub folder : Option Text
  pub is_favorite : Bool

abbrev pub has_id : List Prompt → ℕ → Bool
has_id [] id = false
has_id (p ∷ ps) id = p.id == id || has_id ps id

-- `current.map(p => p.id === updated.id ? updated : p)`
unfoldable pub replace : Prompt → List Prompt → List Prompt
replace updated [] = []
replace updated (p ∷ ps) = (if p.id == updated.id then updated else p) ∷ replace updated ps

-- `current.filter(p => !ids.has(p.id))` for the ids of `targets`.
unfoldable pub without : List Prompt → List Prompt → List Prompt
without targets = filter (λ p. not (has_id targets p.id))

-- `setPrompts(current => current ? ... : current)`; the list is null until it has loaded.
abbrev pub update {ℓ} : {A : Type ℓ} → (A → A) → Option A → Option A
update f none = none
update f (some a) = some (f a)

-- `current ?? []`
abbrev pub or_empty : Option (List Prompt) → List Prompt
or_empty none = []
or_empty (some ps) = ps

abbrev pub includes_id : List ℕ → ℕ → Bool
includes_id [] id = false
includes_id (i ∷ is) id = i == id || includes_id is id

-- `prompts.filter(prompt => selected.includes(prompt.id))`
unfoldable pub selected_prompts : List ℕ → List Prompt → List Prompt
selected_prompts selected = filter (λ p. includes_id selected p.id)

unfoldable pub toggle_selected : ℕ → List ℕ → List ℕ
toggle_selected id selected =
    if includes_id selected id then filter (λ i. not (i == id)) selected else selected ++ id ∷ []

-- `[...created, ...current.filter(prompt => !created.some(item => item.id === prompt.id))]`
unfoldable pub add_imported : List Prompt → Option (List Prompt) → List Prompt
unfolding without
add_imported created current = created ++ without created (or_empty current)
