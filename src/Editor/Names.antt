-- ===== src/Editor/Names.antt =====
-- `uniqueName` of features/editor/editorState.ts: the name of an added section. Among the next
-- numbers, one more than there are sections, one is free, so that the loop ends.
use prompt_maker_studio.Base.{
  free_number, free_number_found, false_of_not, length, drop, Text, text, text_eq, eq_of_text_eq,
  includes, decimal, decimal_inj, ℕ, suc, ◌+◌, ◌≤◌, ◌<◌, ◌≡◌, refl, ap, false, Option, none, some,
  List, [], ◌∷◌, ◌++◌, map, arith,
}
use prompt_maker_studio.Sections.Names.{normalize_section_name}
use prompt_maker_studio.Editor.Drafts.{EditorSection}

abbrev pub candidate : ℕ → Text
candidate n = text "section " ++ decimal n

module _ (to_lower : Text → Text) where
  abbrev pub taken_names : List EditorSection → List Text
  taken_names sections = map (λ s. to_lower (normalize_section_name s.name)) sections

  unfoldable pub unique_name : List EditorSection → Option Text
  unfolding free_number
  unique_name sections =
      elim (free_number candidate (length sections + 1) (taken_names sections)
        (length sections + 1)) [ none ↦ none | some n ↦ some (text "Section " ++ decimal n) ]

candidates_apart : (m n : ℕ) → 0 ≤ m → m < n → text_eq (candidate m) (candidate n) ≡ false
candidates_apart m n _ h = false_of_not _ (λ e.
    let same_digits = ap (drop 8) (eq_of_text_eq (candidate m) (candidate n) e) in
    absurd (omega (arith, decimal_inj m n same_digits)))

length-taken_names :
    (to_lower : Text → Text) (ss : List EditorSection)
    → length (taken_names to_lower ss) ≡ length ss
length-taken_names to_lower [] = refl
length-taken_names to_lower (s ∷ ss) = ap suc (length-taken_names to_lower ss)

-- The loop ends, and the name found is `Section n` for an `n` above the number of sections; in lower
-- case it is the name of none of them.
pub unique_name_is_free :
    (to_lower : Text → Text) (sections : List EditorSection)
    → (n : ℕ) × (unique_name to_lower sections ≡ some (text "Section " ++ decimal n))
      × (length sections < n)
      × (includes (taken_names to_lower sections) (text "section " ++ decimal n) ≡ false)
unfolding unique_name
unique_name_is_free to_lower sections =
    let (n, found, free, le) =
      free_number_found candidate 0 candidates_apart (length sections + 1)
        (taken_names to_lower sections) (length sections + 1) (omega arith)
        (omega (arith, length-taken_names to_lower sections)) in
    (n, rw (found, unique_name), omega arith, free)
