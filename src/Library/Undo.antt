-- ===== src/Library/Undo.antt =====
-- Undo puts back what was deleted.
use mathlib.Core.List.Perm
use mathlib.Core.List.{Perm, perm_middle}
use prompt_maker_studio.Base.{
  ◌==◌, ==_iff, ==_refl, Bool-cases, filter, All, ℕ, ◌≡◌, refl, sym, ap, ◌∙◌, subst, inl, inr, Bool,
  true, false, not, ◌&&◌, Option, none, some, List, [], ◌∷◌, ◌++◌, arith,
}
use prompt_maker_studio.Library.Prompts.{
  Prompt, has_id, without, includes_id, update, or_empty, selected_prompts,
}
use prompt_maker_studio.Library.Deletion.{
  Pending, Library, commit_delete, commit_earlier, hide_targets, remove_many, delete_selected,
  undo_from, undo,
}

-- The elements that pass a test, and then those that do not, are all of them.
filter-Perm {ℓ} :
    {A : Type ℓ} (p q : A → Bool)
    → ((x : A) → q x ≡ not (p x))
    → (xs : List A) → Perm (filter p xs ++ filter q xs) xs
filter-Perm p q e [] = Perm.refl []
filter-Perm p q e (x ∷ xs) = elim (Bool-cases (p x)) [
  | inl keep ↦ rw (e x, keep) (Perm.cons x (filter-Perm p q e xs))
  | inr cut ↦
      rw (e x, cut)
        (Perm.trans (perm_middle (filter p xs) (filter q xs)) (Perm.cons x (filter-Perm p q e xs)))
]

filter_same {ℓ} :
    {A : Type ℓ} (p q : A → Bool) (P : A → Bool) (xs : List A)
    → All (λ x. P x ≡ true) xs
    → ((x : A) → P x ≡ true → p x ≡ q x)
    → filter p xs ≡ filter q xs
filter_same p q P [] h e = refl
filter_same p q P (x ∷ xs) (here, h) e = rw (e x here, filter_same p q P xs h e)

has_id-filter :
    (sel : List ℕ) (ps : List Prompt) (id : ℕ)
    → has_id (filter (λ q. includes_id sel q.id) ps) id ≡ (includes_id sel id && has_id ps id)
has_id-filter sel [] id = ground arith
has_id-filter sel (q ∷ ps) id = elim (Bool-cases (q.id == id)) [
  | inl this_one ↦
      let e = (==_iff q.id id).0 this_one in
      elim (Bool-cases (includes_id sel q.id)) [
        | inl keep ↦ rw (keep, this_one) (sym (rw (subst (λ n. includes_id sel n ≡ true) e keep)))
        | inr cut ↦
            let n = subst (λ n. includes_id sel n ≡ false) e cut in
            rw cut (has_id-filter sel ps id ∙ rw n)
      ]
  | inr other ↦ elim (Bool-cases (includes_id sel q.id)) [
    | inl keep ↦ rw (keep, other) (has_id-filter sel ps id)
    | inr cut ↦ rw (cut, other) (has_id-filter sel ps id)
  ]
]

All-has_id :
    (qs ps : List Prompt)
    → ((id : ℕ) → has_id ps id ≡ true → has_id qs id ≡ true)
    → All (λ x. has_id qs x.id ≡ true) ps
All-has_id qs [] h = tt
All-has_id qs (p ∷ ps) h = (
  h p.id (rw (==_refl p.id)),
  All-has_id qs ps
      (λ id k. h id (elim (Bool-cases (p.id == id)) [ inl e ↦ rw e | inr e ↦ rw (e, k) ])),
)

-- Hiding the selected prompts leaves those that are not selected.
without-selected_prompts :
    (sel : List ℕ) (ps : List Prompt)
    → without (selected_prompts sel ps) ps ≡ filter (λ p. not (includes_id sel p.id)) ps
unfolding without selected_prompts
without-selected_prompts sel ps =
    filter_same _ _ (λ x. has_id ps x.id) ps (All-has_id ps ps (λ id h. h))
      (λ x known. ap not (has_id-filter sel ps x.id ∙ rw known (ground arith)))

commit_delete-prompts : (ts : List Prompt) (s : Library) → (commit_delete ts s).prompts ≡ s.prompts
unfolding commit_delete
commit_delete-prompts [] s = refl
commit_delete-prompts (t ∷ ts) s = refl

commit_earlier-prompts :
    (w : Option Pending) (s : Library) → (commit_earlier w s).prompts ≡ s.prompts
unfolding commit_earlier
commit_earlier-prompts none s = refl
commit_earlier-prompts (some w) s = commit_delete-prompts w.prompts s

shown :
    (sel : List ℕ) (o now : Option (List Prompt)) (ps : List Prompt)
    → o ≡ some ps
    → now ≡ o
    → update
        (λ qs. selected_prompts sel (or_empty o) ++ qs)
        (update (without (selected_prompts sel (or_empty o))) now)
      ≡ some (selected_prompts sel ps ++ without (selected_prompts sel ps) ps)
shown sel o now ps e f = rw (f, e)

restored :
    (sel : List ℕ) (ps : List Prompt)
    → Perm (selected_prompts sel ps ++ filter (λ p. not (includes_id sel p.id)) ps) ps
unfolding selected_prompts
restored sel ps = filter-Perm (λ p. includes_id sel p.id) _ (λ x. refl) ps

-- Undo after deleting the selection of a loaded list: it has exactly its prompts again, each as
-- often as before, and nothing waits to be deleted.
pub undo-delete_selected :
    (s : Library) (ps : List Prompt)
    → s.prompts ≡ some ps
    → ((qs : List Prompt) × ((undo (delete_selected s)).prompts ≡ some qs) × Perm qs ps)
      × ((undo (delete_selected s)).pending ≡ none)
unfolding delete_selected undo undo_from remove_many hide_targets
undo-delete_selected s ps h = (
  (
    selected_prompts s.selected ps ++ without (selected_prompts s.selected ps) ps,
    shown s.selected s.prompts _ ps h (commit_earlier-prompts s.pending s),
    rw (without-selected_prompts s.selected ps) (restored s.selected ps),
  ),
  refl,
)
