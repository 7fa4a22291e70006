-- ===== src/Import/Validate/Sound.antt =====
-- What holds of the prompts that an import is read as.
use prompt_maker_studio.Base.{
  leb, both, false_ne_true, false_of_not, length, All, length-reverse, Text, text, text_eq,
  text_eq_refl, eq_of_text_eq, includes, trim_start, trim, is_empty, length-trim_start, IsDistinct,
  trim_idem, suc, ◌≤◌, ◌≡◌, refl, sym, ap, ap₂, ◌∙◌, subst, Bool, true, false, Option, none, some,
  List, [], ◌∷◌, map, arith,
}
use mathlib.Core.List.{reverse}
use prompt_maker_studio.Sections.Chars.{PromptField}
use prompt_maker_studio.Sections.Names.{normalize_section_name, section_tag, is_valid_name}
use prompt_maker_studio.Sections.Names.Laws.{normalize_section_name_idem}
use prompt_maker_studio.Import.Json.{
  Json, null, number, bool, string, array, object, get, ok, check_ok,
}
use prompt_maker_studio.Import.Items.{bad_folder}
use prompt_maker_studio.Import.Validate.{
  ImportPrompt, max_import_prompts, folder_of, field_name, tag_of, validate_import_prompts,
}
use prompt_maker_studio.Import.Validate.Names.{field_name-normalize_section_name}
use prompt_maker_studio.Import.Validate.Reading.{ok_injective}
use prompt_maker_studio.Import.Validate.Prompts.{IsPromptOf}
use prompt_maker_studio.Import.Validate.Prompts
use prompt_maker_studio.Import.Validate.Settings.{AreSettings, metadata_fits}
use prompt_maker_studio.Import.Validate.Laws.{validate_ok, are_prompts}

-- A section that the editor accepts, with its name as the editor spells it.
abbrev pub IsField : PromptField → Type 0
IsField f =
    (normalize_section_name f.name ≡ f.name) × (is_valid_name f.name ≡ true) × (length f.name ≤ 100)

abbrev pub FitsFolder : Option Text → Type 0
FitsFolder none = Unit
FitsFolder (some folder) = (trim folder ≡ folder) × (length folder ≤ 255)

abbrev pub IsSound : (Text → Text) → ImportPrompt → Type 0
IsSound to_upper p =
    (trim p.name ≡ p.name)
    × (is_empty p.name ≡ false)
    × FitsFolder p.folder
    × (1 ≤ length p.fields)
    × (length p.fields ≤ 100)
    × All IsField p.fields
    × IsDistinct (map (λ f. section_tag to_upper f.name) p.fields)
    × AreSettings p.variable_metadata

pub length-trim : (s : Text) → length (trim s) ≤ length s
length-trim s = omega (
  arith,
  length-trim_start s,
  length-trim_start (reverse (trim_start s)),
  length-reverse (trim_start s),
  length-reverse (trim_start (reverse (trim_start s))),
)

folder_fits : (o : Option Json) (folder : Option Text) → folder_of o ≡ ok folder → FitsFolder folder
folder_fits none none h = tt
folder_fits none (some f) h = cc
folder_fits (some null) none h = tt
folder_fits (some null) (some f) h = cc
folder_fits (some (string s)) folder h =
    let (short, e) = check_ok (leb (length s) 255) bad_folder _ h in
    let fits : FitsFolder (some (trim s)) = (trim_idem s, ground (arith, length-trim s)) in
    subst FitsFolder (ok_injective e) fits
folder_fits (some number) folder h = cc
folder_fits (some (bool b)) folder h = cc
folder_fits (some (array js)) folder h = cc
folder_fits (some (object ms)) folder h = cc

module _ (to_upper : Text → Text) where
  name_stays : (raw name : Text) → field_name raw ≡ name → normalize_section_name name ≡ name
  name_stays raw name e =
      let spelt : normalize_section_name raw ≡ name =
        sym (field_name-normalize_section_name raw) ∙ e in
      ap normalize_section_name (sym spelt) ∙ (normalize_section_name_idem raw ∙ spelt)

  fields-IsField :
      (tags : List Text) (js : List Json) (fs : List PromptField)
      → Prompts.AreRead to_upper tags js fs
      → (length fs ≡ length js) × All IsField fs
  fields-IsField tags [] [] r = (refl, tt)
  fields-IsField tags [] (f ∷ fs) r = elim r [ ]
  fields-IsField tags (j ∷ js) [] r = elim r [ ]
  fields-IsField tags (j ∷ js) (f ∷ fs) ((ms, raw, _, _, _, good, _, e), rs) =
      let (short, valid) = both (leb (length (field_name raw)) 100) _ good in
      let (len, sound) = fields-IsField (tag_of to_upper f.name ∷ tags) js fs rs in
      (
        ap suc len,
        (
          (name_stays raw f.name e, ap is_valid_name (sym e) ∙ valid, ground (arith, ap length e)),
          sound,
        ),
      )

  -- A tag that is given away is the tag of no later field.
  tags_fresh :
      (tags : List Text) (js : List Json) (fs : List PromptField) (t : Text)
      → Prompts.AreRead to_upper tags js fs
      → includes tags t ≡ true
      → includes (map (λ f. tag_of to_upper f.name) fs) t ≡ false
  tags_fresh tags [] [] t r h = refl
  tags_fresh tags [] (f ∷ fs) t r h = elim r [ ]
  tags_fresh tags (j ∷ js) [] t r h = elim r [ ]
  tags_fresh tags (j ∷ js) (f ∷ fs) t ((ms, raw, _, _, _, _, fresh, e), rs) h =
      let new : includes tags (tag_of to_upper f.name) ≡ false =
        ap (λ n. includes tags (tag_of to_upper n)) (sym e) ∙ fresh in
      let apart : text_eq (tag_of to_upper f.name) t ≡ false = false_of_not _ (λ found.
        false_ne_true
          (sym new ∙ (ap (includes tags) (eq_of_text_eq (tag_of to_upper f.name) t found) ∙ h))) in
      rw apart (tags_fresh (tag_of to_upper f.name ∷ tags) js fs t rs (rw apart h))

  tags-IsDistinct :
      (tags : List Text) (js : List Json) (fs : List PromptField)
      → Prompts.AreRead to_upper tags js fs
      → IsDistinct (map (λ f. tag_of to_upper f.name) fs)
  tags-IsDistinct tags [] [] r = tt
  tags-IsDistinct tags [] (f ∷ fs) r = elim r [ ]
  tags-IsDistinct tags (j ∷ js) [] r = elim r [ ]
  tags-IsDistinct tags (j ∷ js) (f ∷ fs) (r, rs) =
      let t = tag_of to_upper f.name in
      (tags_fresh (t ∷ tags) js fs t rs (rw (text_eq_refl t)), tags-IsDistinct (t ∷ tags) js fs rs)

  section_tags :
      (fs : List PromptField)
      → All IsField fs
      → map (λ f. tag_of to_upper f.name) fs ≡ map (λ f. section_tag to_upper f.name) fs
  unfolding section_tag
  section_tags [] h = refl
  section_tags (f ∷ fs) ((stays, _, _), h) =
      ap₂ (λ t ts. t ∷ ts) (ap (tag_of to_upper) (sym stays)) (section_tags fs h)

  prompt-IsSound : (j : Json) (p : ImportPrompt) → IsPromptOf to_upper j p → IsSound to_upper p
  prompt-IsSound j p
        (ms, raw, raw_fields, _, _, filled, is_trimmed, in_folder, _, count, are_read, are_set, _) =
      let (len, sound) = fields-IsField [] raw_fields p.fields are_read in
      let (least, most) = both (leb 1 (length raw_fields)) _ count in
      (
        ap trim (sym is_trimmed) ∙ (trim_idem raw ∙ is_trimmed),
        ap is_empty (sym is_trimmed) ∙ filled,
        folder_fits (get ms (text "folder")) p.folder in_folder,
        ground (arith, len),
        ground (arith, len),
        sound,
        subst IsDistinct (section_tags p.fields sound)
            (tags-IsDistinct [] raw_fields p.fields are_read),
        metadata_fits (get ms (text "variable_metadata")) p.variable_metadata are_set,
      )

  prompts-IsSound :
      (ps : List ImportPrompt)
      → All (λ p. (j : Json) × IsPromptOf to_upper j p) ps
      → All (IsSound to_upper) ps
  prompts-IsSound [] h = tt
  prompts-IsSound (p ∷ ps) ((j, is_prompt), h) =
      (prompt-IsSound j p is_prompt, prompts-IsSound ps h)

-- What the validation of any JSON value gives, strict or lenient, are 1 to 1000 prompts, and each
-- has a trimmed title that is not empty, a trimmed folder of at most 255 characters or none, 1 to
-- 100 sections whose names the editor accepts as they stand and whose tags are distinct, and
-- settings within their limits.
pub validate_import_prompts-IsSound :
    (to_upper : Text → Text) (lenient : Bool) (value : Json) (ps : List ImportPrompt)
    → validate_import_prompts to_upper lenient value ≡ ok ps
    → (1 ≤ length ps) × (length ps ≤ max_import_prompts) × All (IsSound to_upper) ps
validate_import_prompts-IsSound to_upper lenient value ps h =
    let (js, _, count, are_read) = validate_ok to_upper lenient value ps h in
    let (len, are_of) = are_prompts to_upper lenient 1 js ps are_read in
    let (least, most) = both (leb 1 (length js)) _ count in
    (ground (arith, len), ground (arith, len), prompts-IsSound to_upper ps are_of)
