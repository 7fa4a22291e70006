-- ===== src/Import/Validate/Laws.antt =====
-- The strict reading of an import, compared with the lenient one that the preview shows.
use prompt_maker_studio.Base.{
  ltb, leb, Bool-cases, none_ne_some, length, find?, All, Text, trim, is_empty, trim_idem, ℕ, suc,
  ◌+◌, ◌≡◌, refl, sym, ap, ◌∙◌, subst, ◌↔◌, inl, inr, Bool, true, false, ◌&&◌, none, some, List, [],
  ◌∷◌, arith,
}
use prompt_maker_studio.Sections.Chars.{PromptField}
use prompt_maker_studio.Import.Json.{Json, Result, ok, err, bind_ok, check_ok}
use prompt_maker_studio.Import.Items.{Invalid, or_fail}
use prompt_maker_studio.Import.Validate.{
  ImportPrompt, max_title, max_section, max_import_prompts, as_items, of_prompt, read_prompt,
  read_prompts, validate_import_prompts, import_problem, problem_of, bad_count,
}
use prompt_maker_studio.Import.Validate.Reading.{ok_bind, ok_check, ok_injective}
use prompt_maker_studio.Import.Validate.Prompts.{
  AreShort, IsShort, IsPromptOf, read_prompt_ok, read_prompt_strict,
}

of_prompt_ok {ℓ} :
    {A : Type ℓ} (n : ℕ) (r : Result Invalid A) (a : A) → of_prompt n r ≡ ok a → r ≡ ok a
of_prompt_ok n (ok b) a h = cc
of_prompt_ok n (err e) a h = cc

pub find_long :
    (fs : List PromptField)
    → (problem_of (find? (λ f. ltb max_section (length f.content)) fs) ≡ none) ↔ AreShort false fs
find_long [] = (λ h. tt, λ h. refl)
find_long (f ∷ fs) = elim (Bool-cases (ltb max_section (length f.content))) [
  | inl long ↦ (λ h. absurd (none_ne_some (sym (rw long at h))), λ (short, shorts). ground arith)
  | inr short ↦ (
    λ h. (ground arith, (find_long fs).0 (rw short at h)),
    λ (_, shorts). rw short ((find_long fs).1 shorts),
  )
]

module _ (to_upper : Text → Text) where
  pub read_prompts_cons :
      (lenient : Bool) (n : ℕ) (j : Json) (js : List Json) (ps : List ImportPrompt)
      → read_prompts to_upper lenient n (j ∷ js) ≡ ok ps
      → (p : ImportPrompt) × (rest : List ImportPrompt) × (read_prompt to_upper lenient j ≡ ok p)
        × (read_prompts to_upper lenient (n + 1) js ≡ ok rest)
        × (p ∷ rest ≡ ps)
  unfolding read_prompts
  read_prompts_cons lenient n j js ps h =
      let (p, first, h1) = bind_ok _ _ h in
      let (rest, others, h2) = bind_ok _ _ h1 in
      (p, rest, of_prompt_ok n _ p first, others, ok_injective h2)

  cons_read_prompts :
      (lenient : Bool) (n : ℕ) (j : Json) (js : List Json) (p : ImportPrompt)
      (rest : List ImportPrompt)
      → read_prompt to_upper lenient j ≡ ok p
      → read_prompts to_upper lenient (n + 1) js ≡ ok rest
      → read_prompts to_upper lenient n (j ∷ js) ≡ ok (p ∷ rest)
  unfolding read_prompts
  cons_read_prompts lenient n j js p rest h k =
      ok_bind _ _ (ap (of_prompt n) h) (ok_bind _ _ k refl)

  -- A prompt that was read has a problem exactly if it is too long.
  import_problem-IsShort :
      (j : Json) (p : ImportPrompt)
      → IsPromptOf to_upper j p
      → (import_problem p ≡ none) ↔ IsShort to_upper false p
  unfolding import_problem
  import_problem-IsShort j p (ms, raw, raw_fields, _, _, filled, is_trimmed, _, _, _, _, _, _) =
      let still : trim p.name ≡ p.name = ap trim (sym is_trimmed) ∙ (trim_idem raw ∙ is_trimmed) in
      let is_filled : is_empty p.name ≡ false = ap is_empty (sym is_trimmed) ∙ filled in
      elim (Bool-cases (ltb max_title (length p.name))) [
        | inl long ↦ (
          λ h. absurd (none_ne_some (sym (rw (still, is_filled, long) at h))),
          λ (short, _). absurd (ground arith),
        )
        | inr short ↦ (
          λ h. (ground arith, (find_long p.fields).0 (rw (still, is_filled, short) at h)),
          λ (_, shorts). rw (still, is_filled, short) ((find_long p.fields).1 shorts),
        )
      ]

  -- As many prompts are read as there are, and each is one of the list's items.
  pub are_prompts :
      (lenient : Bool) (n : ℕ) (js : List Json) (ps : List ImportPrompt)
      → read_prompts to_upper lenient n js ≡ ok ps
      → (length ps ≡ length js) × All (λ p. (j : Json) × IsPromptOf to_upper j p) ps
  unfolding read_prompts
  are_prompts lenient n [] [] h = (refl, tt)
  are_prompts lenient n [] (p ∷ ps) h = cc
  are_prompts lenient n (j ∷ js) ps h =
      let (p, rest, first, others, e) = read_prompts_cons lenient n j js ps h in
      let (is_prompt, _) = read_prompt_ok to_upper lenient j p first in
      let (len, all_prompts) = are_prompts lenient (n + 1) js rest others in
      subst (λ l. (length l ≡ suc (length js)) × All (λ q. (k : Json) × IsPromptOf to_upper k q) l)
        e (ap suc len, ((j, is_prompt), all_prompts))

  read_prompts_to_lenient :
      (n : ℕ) (js : List Json) (ps : List ImportPrompt)
      → read_prompts to_upper false n js ≡ ok ps
      → (read_prompts to_upper true n js ≡ ok ps) × All (λ p. import_problem p ≡ none) ps
  unfolding read_prompts
  read_prompts_to_lenient n [] [] h = (refl, tt)
  read_prompts_to_lenient n [] (p ∷ ps) h = cc
  read_prompts_to_lenient n (j ∷ js) ps h =
      let (p, rest, first, others, e) = read_prompts_cons false n j js ps h in
      let (leniently, short) = (read_prompt_strict to_upper j p).0 first in
      let (is_prompt, _) = read_prompt_ok to_upper false j p first in
      let (rest_leniently, no_problems) = read_prompts_to_lenient (n + 1) js rest others in
      subst
        (λ l. (read_prompts to_upper true n (j ∷ js) ≡ ok l) × All (λ q. import_problem q ≡ none) l)
        e
        (
          cons_read_prompts true n j js p rest leniently rest_leniently,
          ((import_problem-IsShort j p is_prompt).1 short, no_problems),
        )

  read_prompts_to_strict :
      (n : ℕ) (js : List Json) (ps : List ImportPrompt)
      → read_prompts to_upper true n js ≡ ok ps
      → All (λ p. import_problem p ≡ none) ps
      → read_prompts to_upper false n js ≡ ok ps
  unfolding read_prompts
  read_prompts_to_strict n [] ps h no_problems = h
  read_prompts_to_strict n (j ∷ js) ps h no_problems =
      let (p, rest, first, others, e) = read_prompts_cons true n j js ps h in
      let (none_here, none_later) =
        subst (All (λ q. import_problem q ≡ none)) (sym e) no_problems in
      let (is_prompt, _) = read_prompt_ok to_upper true j p first in
      let strictly =
        (read_prompt_strict to_upper j p).1
          (first, (import_problem-IsShort j p is_prompt).0 none_here) in
      cons_read_prompts false n j js p rest strictly
        (read_prompts_to_strict (n + 1) js rest others none_later)
      ∙ ap ok e

-- What it takes to validate a value.
abbrev pub AreRead : (Text → Text) → Bool → Json → List ImportPrompt → Type 0
AreRead to_upper lenient value ps =
    (js : List Json) × (or_fail (as_items (some value)) bad_count ≡ ok js)
    × ((leb 1 (length js) && leb (length js) max_import_prompts) ≡ true)
    × (read_prompts to_upper lenient 1 js ≡ ok ps)

pub validate_ok :
    (to_upper : Text → Text) (lenient : Bool) (value : Json) (ps : List ImportPrompt)
    → validate_import_prompts to_upper lenient value ≡ ok ps
    → AreRead to_upper lenient value ps
unfolding validate_import_prompts
validate_ok to_upper lenient value ps h =
    let (js, is_array, h1) = bind_ok (or_fail (as_items (some value)) bad_count) _ h in
    let (count, h2) = check_ok _ bad_count _ h1 in (js, is_array, count, h2)

ok_validate :
    (to_upper : Text → Text) (lenient : Bool) (value : Json) (ps : List ImportPrompt)
    → AreRead to_upper lenient value ps
    → validate_import_prompts to_upper lenient value ≡ ok ps
unfolding validate_import_prompts
ok_validate to_upper lenient value ps (js, is_array, count, h) =
    ok_bind (or_fail (as_items (some value)) bad_count) _ is_array (ok_check _ bad_count _ count h)

-- The strict validation of any JSON value gives some prompts exactly if the lenient one gives the
-- same prompts and `importProblem` finds nothing in any of them, whatever `toUpperCase` does: what
-- the preview shows as a problem is exactly what the lenient reading lets pass.
pub strict_iff :
    (to_upper : Text → Text) (value : Json) (ps : List ImportPrompt)
    → (validate_import_prompts to_upper false value ≡ ok ps) ↔ (
        (validate_import_prompts to_upper true value ≡ ok ps)
        × All (λ p. import_problem p ≡ none) ps)
strict_iff to_upper value ps = (
  λ h.
      (let (js, is_array, count, strictly) = validate_ok to_upper false value ps h in
        let (leniently, no_problems) = read_prompts_to_lenient to_upper 1 js ps strictly in
        (ok_validate to_upper true value ps (js, is_array, count, leniently), no_problems)),
  λ (h, no_problems).
      (let (js, is_array, count, leniently) = validate_ok to_upper true value ps h in
        ok_validate to_upper false value ps
          (js, is_array, count, read_prompts_to_strict to_upper 1 js ps leniently no_problems)),
)
