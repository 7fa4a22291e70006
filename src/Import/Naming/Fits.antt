-- ===== src/Import/Naming/Fits.antt =====
-- The sections that `splitLongSections` gives are short enough to be imported.
use prompt_maker_studio.Base.{
  ltb, leb, Bool-cases, length, all, All, concat, Text, trim, is_empty, ◌≤◌, ◌≡◌, sym, ap, subst,
  inl, inr, true, false, none, some, List, [], ◌∷◌, ◌++◌, map, map-append, arith,
}
use prompt_maker_studio.Sections.Chars.{PromptField}
use prompt_maker_studio.Sections.Variables.{split_variables}
use prompt_maker_studio.Import.SplitText.{split_text, spans_from}
use prompt_maker_studio.Import.SplitText.Laws.{split_text-fits}
use prompt_maker_studio.Import.Validate.{ImportPrompt, max_section, max_title, import_problem}
use prompt_maker_studio.Import.Validate.Prompts.{AreShort}
use prompt_maker_studio.Import.Validate.Laws.{find_long}
use prompt_maker_studio.Import.Validate.Sound.{length-trim}
use prompt_maker_studio.Import.Naming.{split_field, with_fields, split_long_sections}
use prompt_maker_studio.Import.Naming.Laws.{name_fields-AreNamed}

abbrev pub HasNoInput : PromptField → Type 0
HasNoInput f = spans_from 0 (split_variables f.content) ≡ []

abbrev FitContents : List PromptField → Type 0
FitContents fs = All (λ s. length s ≤ max_section) (map (λ f. f.content) fs)

parts_fit :
    (name : Text) (parts : List Text)
    → All (λ s. length s ≤ max_section) parts
    → FitContents (map (λ s. record { name = name; content = trim s }) parts)
parts_fit name [] h = tt
parts_fit name (s ∷ parts) (short, h) = (omega (arith, length-trim s), parts_fit name parts h)

split_field_fits : (f : PromptField) → HasNoInput f → FitContents (split_field f)
split_field_fits f h = elim (Bool-cases (leb (length f.content) max_section)) [
  | inl short ↦ rw short (ground arith, tt)
  | inr long ↦ rw long (
      parts_fit f.name (split_text max_section f.content)
        (split_text-fits max_section f.content (omega arith) h))
]

All-append {ℓ κ} :
    {A : Type ℓ} (P : A → Type κ) (xs ys : List A) → All P xs → All P ys → All P (xs ++ ys)
All-append P [] ys h k = k
All-append P (x ∷ xs) ys (here, h) k = (here, All-append P xs ys h k)

fields_fit : (fs : List PromptField) → All HasNoInput fs → FitContents (concat (map split_field fs))
fields_fit [] h = tt
fields_fit (f ∷ fs) (here, h) =
    subst (All (λ s. length s ≤ max_section))
      (sym (map-append (λ g. g.content) (split_field f) (concat (map split_field fs))))
      (All-append (λ s. length s ≤ max_section) (map (λ g. g.content) (split_field f))
        (map (λ g. g.content) (concat (map split_field fs))) (split_field_fits f here)
        (fields_fit fs h))

short_fields : (fs : List PromptField) → FitContents fs → AreShort false fs
short_fields [] h = tt
short_fields (f ∷ fs) (here, h) = (ground arith, short_fields fs h)

no_problem :
    (p : ImportPrompt)
    → is_empty (trim p.name) ≡ false
    → length (trim p.name) ≤ max_title
    → AreShort false p.fields
    → import_problem p ≡ none
unfolding import_problem
no_problem p filled short h =
    let fits : ltb max_title (length (trim p.name)) ≡ false = ground arith in
    rw (filled, fits) ((find_long p.fields).1 h)

-- Splitting the long sections of a prompt leaves nothing for `importProblem` to find, if the title
-- is not blank and has at most 100 characters and no section has a placeholder. The upper case is as
-- in `split_long_sections_named`.
pub split_long_sections_problem :
    (decompose to_upper : Text → Text)
    (joins : (s t : Text) → to_upper (s ++ 95 ∷ t) ≡ to_upper s ++ 95 ∷ to_upper t)
    (caseless : (s : Text) → all (λ c. ltb c 58) s ≡ true → to_upper s ≡ s) (p : ImportPrompt)
    → is_empty (trim p.name) ≡ false
    → length (trim p.name) ≤ max_title
    → All HasNoInput p.fields
    → (q : ImportPrompt) × (split_long_sections decompose to_upper p ≡ some q)
      × (import_problem q ≡ none)
unfolding split_long_sections
split_long_sections_problem decompose to_upper joins caseless p filled short h =
    let (named, e, (texts, _, _)) =
      name_fields-AreNamed decompose to_upper joins caseless []
        (concat (map split_field p.fields)) in
    let fits = subst (All (λ s. length s ≤ max_section)) (sym texts) (fields_fit p.fields h) in
    (
      record p { fields = named },
      ap (with_fields p) e,
      no_problem (record p { fields = named }) filled short (short_fields named fits),
    )
