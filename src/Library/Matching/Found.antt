-- ===== src/Library/Matching/Found.antt =====
-- When a search finds nothing in a prompt.
use prompt_maker_studio.Base.{
  Bool-cases, Option-cases, both, none_ne_some, length, all, Text, text, is_empty, join, contains,
  ◌≡◌, refl, sym, ◌∙◌, ◌↔◌, ◌⊎◌, inl, inr, true, false, none, some, List, [], ◌∷◌, arith,
}
use prompt_maker_studio.Library.Prompts.{Prompt}
use prompt_maker_studio.Library.Matching.{
  Candidate, Excerpt, candidates_of, fold_search, excerpt_around, index_of, term_match, first_match,
  is_in, search_words, search_match,
}

module _ (decompose strip_marks to_lower : Text → Text) where
  term_match_found :
      (term : Text) (cs : List Candidate)
      → is_in decompose strip_marks to_lower cs term ≡ true
      → (e : Excerpt) × (term_match decompose strip_marks to_lower term cs ≡ some e)
  unfolding term_match
  term_match_found term [] h = cc
  term_match_found term (c ∷ cs) h =
      elim (Bool-cases (contains (fold_search decompose strip_marks to_lower c.text) term)) [
        | inl here ↦
            let folded = fold_search decompose strip_marks to_lower c.text in
            (
              excerpt_around decompose strip_marks to_lower c (index_of term 0 folded)
                  (length term),
              rw here refl,
            )
        | inr not_here ↦
            let (e, found) = term_match_found term cs (rw not_here at h) in (e, rw not_here found)
      ]

  first_match-some :
      (term : Text) (terms : List Text) (cs : List Candidate) (e : Excerpt)
      → term_match decompose strip_marks to_lower term cs ≡ some e
      → first_match decompose strip_marks to_lower (term ∷ terms) cs ≡ some e
  unfolding first_match
  first_match-some term terms cs e h = rw (h, first_match)

  first_match-none :
      (term : Text) (terms : List Text) (cs : List Candidate)
      → term_match decompose strip_marks to_lower term cs ≡ none
      → first_match decompose strip_marks to_lower (term ∷ terms) cs
        ≡ first_match decompose strip_marks to_lower terms cs
  unfolding first_match
  first_match-none term terms cs h = rw (h, first_match)

  -- Whether or not the query is found as a whole, a word that is found is enough.
  first_match_found :
      (query word : Text) (words : List Text) (cs : List Candidate)
      → is_in decompose strip_marks to_lower cs word ≡ true
      → (e : Excerpt) × (first_match decompose strip_marks to_lower (query ∷ word ∷ words) cs
          ≡ some e)
  first_match_found query word words cs h =
      elim (Option-cases (term_match decompose strip_marks to_lower query cs)) [
        | inl absent ↦
            let (e, found) = term_match_found word cs h in
            (
              e,
              first_match-none query (word ∷ words) cs absent
                  ∙ first_match-some word words cs e found,
            )
        | inr (e, found) ↦ (e, first_match-some query (word ∷ words) cs e found)
      ]

  words_found :
      (words : List Text) (cs : List Candidate)
      → is_empty (join (text " ") words) ≡ false
      → all (is_in decompose strip_marks to_lower cs) words ≡ true
      → (e : Excerpt) × (first_match decompose strip_marks to_lower
            (join (text " ") words ∷ words)
            cs
          ≡ some e)
  words_found [] cs h k = cc
  words_found (word ∷ words) cs h k =
      let (here, _) = both (is_in decompose strip_marks to_lower cs word) _ k in
      first_match_found (join (text " ") (word ∷ words)) word words cs here

-- A search finds nothing in a prompt exactly if, folded, it has no word, or one of its words is in
-- none of the title, the folder, the section names and the sections: an excerpt is shown for every
-- prompt that the filter keeps, whatever the Unicode tables are.
pub search_match-none :
    (decompose strip_marks to_lower : Text → Text) (p : Prompt) (search : Text)
    → (search_match decompose strip_marks to_lower p search ≡ none) ↔ (
        (is_empty (join (text " ") (search_words decompose strip_marks to_lower search)) ≡ true)
        ⊎ (all
              (is_in decompose strip_marks to_lower (candidates_of p))
              (search_words decompose strip_marks to_lower search)
            ≡ false))
unfolding search_match
search_match-none decompose strip_marks to_lower p search =
    let words = search_words decompose strip_marks to_lower search in
    let found = all (is_in decompose strip_marks to_lower (candidates_of p)) words in
    elim (Bool-cases (is_empty (join (text " ") words))) [
      | inl no_query ↦ (λ h. inl no_query, λ h. rw no_query refl)
      | inr query ↦ elim (Bool-cases found) [
        | inl all_found ↦
            let (e, matched) =
              words_found decompose strip_marks to_lower words (candidates_of p) query all_found in
            (
              λ h. absurd (none_ne_some (sym (rw (query, all_found) at h) ∙ matched)),
              λ h. absurd (ground arith),
            )
        | inr missing ↦ (λ h. inr missing, λ h. rw (query, missing) refl)
      ]
    ]
