-- ===== src/Import/Conversion/Unchosen.antt =====
-- A conversion leaves a prompt alone that has none of the chosen placeholders.
use prompt_maker_studio.Base.{
  Bool-cases, Option-cases, All, concat, Text, includes, ◌≡◌, refl, ap, ◌∙◌, subst, inl, inr, false,
  Option, none, some, List, [], ◌∷◌, map,
}
use prompt_maker_studio.Sections.Chars.{PromptField}
use prompt_maker_studio.Import.Validate.{ImportPrompt}
use prompt_maker_studio.Import.Placeholders.{
  Token, token_text, Piece, char, token, pieces, name_of, entries, placeholders_in,
}
use prompt_maker_studio.Import.Placeholders.Laws.{piece_text, concat-pieces}
use prompt_maker_studio.Import.Conversion.{
  ImportSettings, or_no_settings, new_name, convert_pieces, convert_fields, convert_prompt,
  settings_or, prepend,
}

settings_or_same : (old : Option ImportSettings) → settings_or old (or_no_settings old) ≡ old
settings_or_same none = refl
settings_or_same (some []) = refl
settings_or_same (some (entry ∷ md)) = refl

module _ (to_lower to_upper : Text → Text) (chosen : List Text) where
  -- None of the placeholders is chosen.
  abbrev pub AreUnchosen : List (Text × Text) → Type 0
  AreUnchosen found = All (λ e. includes chosen e.0 ≡ false) found

  new_name_unchosen :
      (content : Text) (t : Token)
      → includes chosen (token_text t) ≡ false
      → new_name to_lower to_upper (some chosen) content t ≡ none
  unfolding new_name
  new_name_unchosen content t h = rw h

  new_name_unnamed :
      (content : Text) (t : Token)
      → name_of to_lower content t ≡ none
      → new_name to_lower to_upper (some chosen) content t ≡ none
  unfolding new_name
  new_name_unnamed content t h = elim (Bool-cases (includes chosen (token_text t))) [
    | inl picked ↦ rw picked h
    | inr other ↦ rw other
  ]

  convert_pieces-token :
      (content : Text) (t : Token) (ps : List Piece) (md : ImportSettings)
      → new_name to_lower to_upper (some chosen) content t ≡ none
      → convert_pieces to_lower to_upper (some chosen) content (token t ∷ ps) md
        ≡ prepend (token_text t) (convert_pieces to_lower to_upper (some chosen) content ps md)
  unfolding convert_pieces
  convert_pieces-token content t ps md h = rw (h, convert_pieces)

  entries-token :
      (content : Text) (t : Token) (ps : List Piece) (name : Text)
      → name_of to_lower content t ≡ some name
      → entries to_lower content (token t ∷ ps) ≡ (token_text t, name) ∷ entries to_lower content ps
  unfolding entries
  entries-token content t ps name h = rw (h, entries)

  entries_unnamed :
      (content : Text) (t : Token) (ps : List Piece)
      → name_of to_lower content t ≡ none
      → entries to_lower content (token t ∷ ps) ≡ entries to_lower content ps
  unfolding entries
  entries_unnamed content t ps h = rw (h, entries)

  convert_pieces_unchosen :
      (content : Text) (ps : List Piece) (md : ImportSettings)
      → AreUnchosen (entries to_lower content ps)
      → convert_pieces to_lower to_upper (some chosen) content ps md
        ≡ (concat (map piece_text ps), md)
  unfolding convert_pieces entries
  convert_pieces_unchosen content [] md h = refl
  convert_pieces_unchosen content (char c ∷ ps) md h =
      ap (prepend (c ∷ [])) (convert_pieces_unchosen content ps md h)
  convert_pieces_unchosen content (token t ∷ ps) md h =
      elim (Option-cases (name_of to_lower content t)) [
        | inl unnamed ↦
            let rest = subst AreUnchosen (entries_unnamed content t ps unnamed) h in
            convert_pieces-token content t ps md (new_name_unnamed content t unnamed)
            ∙ ap (prepend (token_text t)) (convert_pieces_unchosen content ps md rest)
        | inr (name, named) ↦
            let (other, rest) = subst AreUnchosen (entries-token content t ps name named) h in
            convert_pieces-token content t ps md (new_name_unchosen content t other)
            ∙ ap (prepend (token_text t)) (convert_pieces_unchosen content ps md rest)
      ]

  convert_fields_unchosen :
      (fs : List PromptField) (md : ImportSettings)
      → All (λ f. AreUnchosen (placeholders_in to_lower f.content)) fs
      → convert_fields to_lower to_upper (some chosen) fs md ≡ (fs, md)
  unfolding convert_fields placeholders_in
  convert_fields_unchosen [] md h = refl
  convert_fields_unchosen (f ∷ fs) md (here, later) =
      let e =
        convert_pieces_unchosen f.content (pieces f.content) md here
        ∙ ap (λ s. (s, md)) (concat-pieces f.content) in
      ap
        (λ r. (
          record f { content = r.0 } ∷ (convert_fields to_lower to_upper (some chosen) fs r.1).0,
          (convert_fields to_lower to_upper (some chosen) fs r.1).1,
        ))
        e
      ∙ ap (λ r. (f ∷ r.0, r.1)) (convert_fields_unchosen fs md later)

-- Converting chosen placeholders leaves a prompt as it is, text and settings, when none of the
-- placeholders found in its sections is among those chosen.
pub convert_prompt_unchosen :
    (to_lower to_upper : Text → Text) (chosen : List Text) (p : ImportPrompt)
    → All (λ f. AreUnchosen to_lower to_upper chosen (placeholders_in to_lower f.content)) p.fields
    → convert_prompt to_lower to_upper (some chosen) p ≡ p
unfolding convert_prompt
convert_prompt_unchosen to_lower to_upper chosen p h =
    ap {A = List PromptField × ImportSettings} {B = ImportPrompt}
      (λ r. record p { fields = r.0; variable_metadata = settings_or p.variable_metadata r.1 })
      (convert_fields_unchosen to_lower to_upper chosen p.fields
        (or_no_settings p.variable_metadata) h)
    ∙ ap {A = Option ImportSettings} {B = ImportPrompt} (λ m. record p { variable_metadata = m })
        (settings_or_same p.variable_metadata)
