-- ===== src/Import/Validate/Prompts.antt =====
-- What it takes to read the fields of a prompt, a prompt and a list of prompts.
use prompt_maker_studio.Base.{
  leb, length, All, Text, text, trim, is_empty, ◌≡◌, refl, sym, ap, ◌∙◌, subst, ◌↔◌, Bool, true,
  false, ◌&&◌, ◌||◌, List, [], ◌∷◌,
}
use prompt_maker_studio.Sections.Chars.{PromptField}
use prompt_maker_studio.Import.Json.{Json, Members, get, ok, bind_ok, check_ok}
use prompt_maker_studio.Import.Items.{
  as_object, or_fail, read_metadata, bad_title, not_an_object, bad_sections,
}
use prompt_maker_studio.Import.Validate.{
  ImportPrompt, max_title, max_section, as_items, string_at, folder_of, tag_of, read_fields,
  is_true, read_prompt,
}
use prompt_maker_studio.Import.Validate.Reading.{
  ok_bind, ok_check, ok_injective, read_title_ok, ok_read_title, IsReadFrom, read_field_ok,
  ok_read_field,
}

-- The length of the content is tested by the strict reading only.
abbrev pub AreShort : Bool → List PromptField → Type 0
AreShort lenient fs = All (λ f. (lenient || leb (length f.content) max_section) ≡ true) fs

AreShort-lenient : (fs : List PromptField) → AreShort true fs
AreShort-lenient [] = tt
AreShort-lenient (f ∷ fs) = (refl, AreShort-lenient fs)

module _ (to_upper : Text → Text) where
  abbrev pub AreRead : List Text → List Json → List PromptField → Type 0
  AreRead tags [] [] = Unit
  AreRead tags [] (f ∷ fs) = ⊥
  AreRead tags (j ∷ js) [] = ⊥
  AreRead tags (j ∷ js) (f ∷ fs) =
      IsReadFrom to_upper tags j f × AreRead (tag_of to_upper f.name ∷ tags) js fs

  pub read_fields_ok :
      (lenient : Bool) (tags : List Text) (js : List Json) (fs : List PromptField)
      → read_fields to_upper lenient tags js ≡ ok fs
      → AreRead tags js fs × AreShort lenient fs
  unfolding read_fields
  read_fields_ok lenient tags [] [] h = (tt, tt)
  read_fields_ok lenient tags [] (f ∷ fs) h = cc
  read_fields_ok lenient tags (j ∷ js) fs h =
      let (g, first, h1) = bind_ok _ _ h in
      let (gs, others, h2) = bind_ok _ _ h1 in
      let (is_read, short) = read_field_ok to_upper lenient tags j g first in
      let (are_read, are_short) =
        read_fields_ok lenient (tag_of to_upper g.name ∷ tags) js gs others in
      subst (λ l. AreRead tags (j ∷ js) l × AreShort lenient l) (ok_injective h2)
        ((is_read, are_read), (short, are_short))

  pub ok_read_fields :
      (lenient : Bool) (tags : List Text) (js : List Json) (fs : List PromptField)
      → AreRead tags js fs
      → AreShort lenient fs
      → read_fields to_upper lenient tags js ≡ ok fs
  unfolding read_fields
  ok_read_fields lenient tags [] [] r s = refl
  ok_read_fields lenient tags [] (f ∷ fs) r s = elim r [ ]
  ok_read_fields lenient tags (j ∷ js) [] r s = elim r [ ]
  ok_read_fields lenient tags (j ∷ js) (f ∷ fs) (r, rs) (s, ss) =
      ok_bind _ _ (ok_read_field to_upper lenient tags j f r s)
        (ok_bind _ _ (ok_read_fields lenient (tag_of to_upper f.name ∷ tags) js fs rs ss) refl)

  -- What holds of a prompt that is read from `j`, but for the lengths that only the strict reading
  -- tests.
  abbrev pub IsPromptOf : Json → ImportPrompt → Type 0
  IsPromptOf j p =
      (ms : Members) × (raw : Text) × (raw_fields : List Json) × (or_fail (as_object j)
          not_an_object
        ≡ ok ms)
      × (or_fail (string_at ms (text "name")) bad_title ≡ ok raw)
      × (is_empty (trim raw) ≡ false)
      × (trim raw ≡ p.name)
      × (folder_of (get ms (text "folder")) ≡ ok p.folder)
      × (or_fail (as_items (get ms (text "fields"))) bad_sections ≡ ok raw_fields)
      × ((leb 1 (length raw_fields) && leb (length raw_fields) 100) ≡ true)
      × AreRead [] raw_fields p.fields
      × (read_metadata (get ms (text "variable_metadata")) ≡ ok p.variable_metadata)
      × (is_true (get ms (text "is_favorite")) ≡ p.is_favorite)

  abbrev pub IsShort : Bool → ImportPrompt → Type 0
  IsShort lenient p =
      ((lenient || leb (length p.name) max_title) ≡ true) × AreShort lenient p.fields

  pub read_prompt_ok :
      (lenient : Bool) (j : Json) (p : ImportPrompt)
      → read_prompt to_upper lenient j ≡ ok p
      → IsPromptOf j p × IsShort lenient p
  unfolding read_prompt
  read_prompt_ok lenient j p h =
      let (ms, is_obj, h1) = bind_ok _ _ h in
      let (title, titled, h2) = bind_ok _ _ h1 in
      let (folder, in_folder, h3) = bind_ok _ _ h2 in
      let (raw_fields, is_array, h4) = bind_ok _ _ h3 in
      let (count, h5) = check_ok _ bad_sections _ h4 in
      let (fields, are_fields, h6) = bind_ok _ _ h5 in
      let (settings, are_set, h7) = bind_ok _ _ h6 in
      let (raw, is_text, filled, short, is_trimmed) = read_title_ok lenient ms title titled in
      let (are_read, are_short) = read_fields_ok lenient [] raw_fields fields are_fields in
      subst (λ q. IsPromptOf j q × IsShort lenient q) (ok_injective h7)
        (
          (
            ms, raw, raw_fields, is_obj, is_text, filled, is_trimmed, in_folder, is_array, count,
            are_read, are_set, refl,
          ),
          (subst (λ t. (lenient || leb (length t) max_title) ≡ true) is_trimmed short, are_short),
        )

  pub ok_read_prompt :
      (lenient : Bool) (j : Json) (p : ImportPrompt)
      → IsPromptOf j p
      → IsShort lenient p
      → read_prompt to_upper lenient j ≡ ok p
  unfolding read_prompt
  ok_read_prompt lenient j p
        (
          ms, raw, raw_fields, is_obj, is_text, filled, is_trimmed, in_folder, is_array, count,
          are_read, are_set, favorite,
        )
        (short, are_short) =
      let title =
        ok_read_title lenient ms raw is_text filled
          (subst (λ t. (lenient || leb (length t) max_title) ≡ true) (sym is_trimmed) short) in
      ok_bind _ _ is_obj (
        ok_bind _ _ (title ∙ ap ok is_trimmed) (
          ok_bind _ _ in_folder (
            ok_bind _ _ is_array (
              ok_check _ bad_sections _ count (
                ok_bind _ _ (ok_read_fields lenient [] raw_fields p.fields are_read are_short) (
                  ok_bind _ _ are_set (
                    ap
                      (λ b. ok (record {
                        name = p.name;
                        folder = p.folder;
                        fields = p.fields;
                        is_favorite = b;
                        variable_metadata = p.variable_metadata;
                      }))
                      favorite)))))))

  -- The strict reading of a prompt is the lenient one of a short prompt.
  pub read_prompt_strict :
      (j : Json) (p : ImportPrompt)
      → (read_prompt to_upper false j ≡ ok p)
        ↔ ((read_prompt to_upper true j ≡ ok p) × IsShort false p)
  read_prompt_strict j p = (
    λ h.
        (let (is_prompt, short) = read_prompt_ok false j p h in
          (ok_read_prompt true j p is_prompt (refl, AreShort-lenient p.fields), short)),
    λ (h, short).
        (let (is_prompt, _) = read_prompt_ok true j p h in
          ok_read_prompt false j p is_prompt short),
  )
