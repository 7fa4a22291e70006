-- ===== src/Editor/Drafts/Laws.antt =====
-- Sections written as fields, and what the browser keeps of a draft.
use prompt_maker_studio.Base.{
  ltb, if◌then◌else◌, Bool-cases, false_ne_true, false_of_not, length, drop, all,
  drop-append-length, Text, text, text_eq, text_eq_refl, eq_of_text_eq, text_eq_comm, decimal,
  decimal_inj, decimal-is_digit, ℕ, ◌+◌, ◌≡◌, refl, sym, ap, ap₂, ◌∙◌, ◌≢◌, inl, inr, Bool, true,
  false, ◌||◌, Option, none, some, List, [], ◌∷◌, ◌++◌, map,
}
use prompt_maker_studio.Sections.Chars.{PromptField}
use prompt_maker_studio.Sections.Names.{normalize_section_name}
use prompt_maker_studio.Sections.Names.Laws.{normalize_section_name_idem}
use prompt_maker_studio.Session.Storage.{get_item, set_item, remove_item, storage_key, app_slug}
use prompt_maker_studio.Session.Storage.Laws.{get_item-remove_item, get_item-set_item}
use prompt_maker_studio.Editor.Metadata.{Snapshot, same_snapshot, same_snapshot_iff}
use prompt_maker_studio.Editor.Drafts.{
  EditorSection, DraftState, Drafts, to_fields, to_editor_sections, no_hint, persist, draft_of,
  needs_draft, draft_key, persist_at,
}

-- Fields with their names as `normalizeSectionName` writes them.
abbrev pub normal : PromptField → PromptField
normal f = record { name = normalize_section_name f.name; content = f.content }

abbrev pub named : Text → Text → PromptField
named name content = record { name = name; content = content }

unfoldable pub normal_fields : List PromptField → List PromptField
normal_fields fs = map normal fs

pub to_fields-to_editor_sections :
    (key : ℕ) (fs : List PromptField) (touched : Bool)
    → to_fields (to_editor_sections key (map no_hint fs) touched) ≡ normal_fields fs
unfolding to_fields to_editor_sections normal_fields
to_fields-to_editor_sections key [] touched = refl
to_fields-to_editor_sections key (f ∷ fs) touched =
    ap (λ rest. normal f ∷ rest) (to_fields-to_editor_sections (key + 1) fs touched)

pub normal_fields-to_fields :
    (ss : List EditorSection) → normal_fields (to_fields ss) ≡ to_fields ss
unfolding to_fields normal_fields
normal_fields-to_fields [] = refl
normal_fields-to_fields (s ∷ ss) =
    ap₂ (λ n rest. named n s.content ∷ rest) (normalize_section_name_idem s.name)
      (normal_fields-to_fields ss)

pub same_snapshot_refl : (a : Snapshot) → same_snapshot a a ≡ true
same_snapshot_refl a = (same_snapshot_iff a a).1 refl

abbrev kept : DraftState → Drafts → Text → Drafts
kept d drafts key =
    if needs_draft d then set_item key (draft_of d) drafts else remove_item key drafts

-- The draft is kept under its key while there is something to keep.
pub persist-get_item :
    (d : DraftState) (drafts : Drafts) (key : Text)
    → d.draft_key ≡ some key
    → d.loading ≡ false
    → d.load_error ≡ false
    → needs_draft d ≡ true
    → get_item (persist d drafts) key ≡ some (draft_of d)
unfolding persist
persist-get_item d drafts key k l e n =
    ap (λ o. get_item (persist_at o d drafts) key) k
    ∙ ap (λ b. get_item (if b || d.load_error then drafts else kept d drafts key) key) l
    ∙ ap (λ b. get_item (if b then drafts else kept d drafts key) key) e
    ∙ ap
        (λ b. get_item (if b then set_item key (draft_of d) drafts else remove_item key drafts) key)
        n
    ∙ get_item-set_item key (draft_of d) key drafts
    ∙ rw (text_eq_refl key) refl

-- And dropped when there is nothing to keep.
pub persist-drops :
    (d : DraftState) (drafts : Drafts) (key : Text)
    → d.draft_key ≡ some key
    → d.loading ≡ false
    → d.load_error ≡ false
    → needs_draft d ≡ false
    → get_item (persist d drafts) key ≡ none
unfolding persist
persist-drops d drafts key k l e n =
    rw (k, l, e, n) (get_item-remove_item key key drafts ∙ rw (text_eq_refl key) refl)

append_cancel : (xs ys zs : Text) → xs ++ ys ≡ xs ++ zs → ys ≡ zs
append_cancel xs ys zs e =
    sym (drop-append-length xs ys) ∙ ap (drop (length xs)) e ∙ drop-append-length xs zs

-- `${promptId ?? 'new'}`
abbrev id_text : Option ℕ → Text
id_text id = elim id [ none ↦ text "new" | some n ↦ decimal n ]

decimal-new : (n : ℕ) → decimal n ≢ text "new"
decimal-new n e = false_ne_true (ap (all (λ c. ltb c 58)) (sym e) ∙ decimal-is_digit n)

id_text_inj : (a b : Option ℕ) → id_text a ≡ id_text b → a ≡ b
id_text_inj none none e = refl
id_text_inj none (some n) e = absurd (decimal-new n (sym e))
id_text_inj (some m) none e = absurd (decimal-new m e)
id_text_inj (some m) (some n) e = ap some (decimal_inj m n e)

-- The drafts of a user's prompts have keys of their own, and so has the new prompt's.
pub draft_key_inj : (user : Text) (a b : Option ℕ) → draft_key user a ≡ draft_key user b → a ≡ b
unfolding draft_key storage_key
draft_key_inj user a b e =
    let slug = append_cancel app_slug _ _ e in
    let colon = append_cancel (text ":") _ _ slug in
    let kind = append_cancel (text "editor-draft:") _ _ colon in
    id_text_inj a b (append_cancel (text ":") _ _ (append_cancel user _ _ kind))

-- What is kept of one prompt leaves the draft of another as it is.
pub persist-other :
    (user : Text) (id other : Option ℕ) (d : DraftState) (drafts : Drafts)
    → d.draft_key ≡ some (draft_key user id)
    → id ≢ other
    → get_item (persist d drafts) (draft_key user other) ≡ get_item drafts (draft_key user other)
unfolding persist
persist-other user id other d drafts k differ =
    let key = draft_key user id in
    let there = draft_key user other in
    let apart =
      false_of_not (text_eq key there)
        (λ t. differ (draft_key_inj user id other (eq_of_text_eq key there t))) in
    let stored : get_item (set_item key (draft_of d) drafts) there ≡ get_item drafts there =
      get_item-set_item key (draft_of d) there drafts ∙ rw apart refl in
    let removed : get_item (remove_item key drafts) there ≡ get_item drafts there =
      get_item-remove_item key there drafts ∙ rw (text_eq_comm there key, apart) refl in
    ap (λ o. get_item (persist_at o d drafts) there) k
    ∙ elim (Bool-cases (d.loading || d.load_error)) [
      | inl away ↦ rw away refl
      | inr here ↦ rw here (elim (Bool-cases (needs_draft d)) [
        | inl needed ↦ rw needed stored
        | inr dropped ↦ rw dropped removed
      ])
    ]
