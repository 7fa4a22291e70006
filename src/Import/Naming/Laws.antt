-- ===== src/Import/Naming/Laws.antt =====
-- The names found are free, so that splitting the sections of a prompt gives each its own tag.
use prompt_maker_studio.Base.{
  free_number_found, ltb, leb, ◌==◌, if◌then◌else◌, Bool-cases, both, false_of_not, length, drop,
  all, All, concat, length-append, drop-append-length, Text, text_eq, eq_of_text_eq, text_eq_comm,
  includes, IsDistinct, decimal, decimal-is_digit, decimal-no_space, decimal_inj, ℕ, ◌+◌, ◌≤◌, ◌<◌,
  ◌≡◌, refl, sym, ap, ◌∙◌, inl, inr, true, false, not, some, List, [], ◌∷◌, ◌++◌, map, arith,
}
use prompt_maker_studio.Sections.Chars.{PromptField}
use prompt_maker_studio.Sections.Names.{underscores}
use prompt_maker_studio.Import.Validate.{ImportPrompt, tag_of}
use prompt_maker_studio.Import.Naming.{
  base_name, numbered, section_name, name_fields, split_field, with_fields, split_long_sections,
}

underscores-append : (s t : Text) → underscores (s ++ t) ≡ underscores s ++ underscores t
unfolding underscores
underscores-append [] t = refl
underscores-append (c ∷ s) t = ap ((if c == 32 then 95 else c) ∷◌) (underscores-append s t)

underscores_solid : (s : Text) → all (λ c. not (c == 32)) s ≡ true → underscores s ≡ s
unfolding underscores
underscores_solid [] h = refl
underscores_solid (c ∷ s) h =
    let (here, later) = both (not (c == 32)) (all (λ d. not (d == 32)) s) h in
    let no_space : (c == 32) ≡ false = ground arith in
    rw no_space (ap (c ∷◌) (underscores_solid s later))

spaced : (n : ℕ) → underscores (32 ∷ decimal n) ≡ 95 ∷ decimal n
unfolding underscores
spaced n = ap (95 ∷◌) (underscores_solid (decimal n) (decimal-no_space n))

none_taken : (taken : List Text) → All (λ t. includes [] t ≡ false) taken
none_taken [] = tt
none_taken (t ∷ taken) = (refl, none_taken taken)

no_others :
    (x : Text) (ts taken : List Text)
    → includes taken x ≡ false
    → All (λ t. includes ts t ≡ false) taken
    → All (λ t. includes (x ∷ ts) t ≡ false) taken
no_others x ts [] h k = tt
no_others x ts (t ∷ taken) h (here, later) =
    let apart : text_eq x t ≡ false = text_eq_comm x t ∙ ground arith in
    (rw apart here, no_others x ts taken (ground arith) later)

module _ (decompose to_upper : Text → Text)
    (joins : (s t : Text) → to_upper (s ++ 95 ∷ t) ≡ to_upper s ++ 95 ∷ to_upper t)
    (caseless : (s : Text) → all (λ c. ltb c 58) s ≡ true → to_upper s ≡ s) where
  tag_of-numbered :
      (base : Text) (n : ℕ)
      → 2 ≤ n
      → tag_of to_upper (numbered base n) ≡ tag_of to_upper base ++ 95 ∷ decimal n
  tag_of-numbered base n h =
      let later : leb n 1 ≡ false = ground arith in
      ap (λ b. tag_of to_upper (if b then base else base ++ 32 ∷ decimal n)) later
      ∙ (ap to_upper (underscores-append base (32 ∷ decimal n))
          ∙ (ap (λ t. to_upper (underscores base ++ t)) (spaced n)
              ∙ (joins (underscores base) (decimal n)
                  ∙ ap (λ t. to_upper (underscores base) ++ 95 ∷ t)
                      (caseless (decimal n) (decimal-is_digit n)))))

  tags_apart :
      (base : Text) (m n : ℕ)
      → 1 ≤ m
      → m < n
      → text_eq (tag_of to_upper (numbered base m)) (tag_of to_upper (numbered base n)) ≡ false
  tags_apart base m n h k = false_of_not _ (λ e.
      let same_tags : tag_of to_upper (numbered base m) ≡ tag_of to_upper base ++ 95 ∷ decimal n =
        eq_of_text_eq (tag_of to_upper (numbered base m)) (tag_of to_upper (numbered base n)) e
        ∙ tag_of-numbered base n (omega arith) in
      elim (Bool-cases (leb m 1)) [
        | inl first ↦
            let e_first : tag_of to_upper base ≡ tag_of to_upper base ++ 95 ∷ decimal n =
              ap (λ b. tag_of to_upper (if b then base else base ++ 32 ∷ decimal m)) (sym first)
              ∙ same_tags in
            absurd (
              omega
                (arith, ap length e_first, length-append (tag_of to_upper base) (95 ∷ decimal n)))
        | inr later ↦
            let e_later : tag_of to_upper base ++ 95 ∷ decimal m
                ≡ tag_of to_upper base ++ 95 ∷ decimal n =
              sym (tag_of-numbered base m (ground arith)) ∙ same_tags in
            let e_digits : 95 ∷ decimal m ≡ 95 ∷ decimal n =
              sym (drop-append-length (tag_of to_upper base) (95 ∷ decimal m))
              ∙ (ap (drop (length (tag_of to_upper base))) e_later
                  ∙ drop-append-length (tag_of to_upper base) (95 ∷ decimal n)) in
            absurd (omega (arith, decimal_inj m n (ap (drop 1) e_digits)))
      ])

  -- The loop ends, with a name whose tag is not taken.
  section_name_free :
      (heading : Text) (taken : List Text)
      → (name : Text) × (section_name decompose to_upper heading taken ≡ some name)
        × (includes taken (tag_of to_upper name) ≡ false)
  unfolding section_name
  section_name_free heading taken =
      let base = base_name decompose heading in
      let (n, found, free, _) =
        free_number_found (λ k. tag_of to_upper (numbered base k)) 1 (tags_apart base)
          (length taken + 1) taken 1 (omega arith) (omega arith) in
      (numbered base n, rw (found, section_name), free)

  abbrev pub AreNamed : List Text → List PromptField → List PromptField → Type 0
  AreNamed taken fs named =
      (map (λ f. f.content) named ≡ map (λ f. f.content) fs)
      × IsDistinct (map (λ f. tag_of to_upper f.name) named)
      × All (λ t. includes (map (λ f. tag_of to_upper f.name) named) t ≡ false) taken

  name_fields_cons :
      (taken : List Text) (f : PromptField) (fs named : List PromptField) (name : Text)
      → section_name decompose to_upper f.name taken ≡ some name
      → name_fields decompose to_upper (tag_of to_upper name ∷ taken) fs ≡ some named
      → name_fields decompose to_upper taken (f ∷ fs) ≡ some (record f { name = name } ∷ named)
  unfolding name_fields
  name_fields_cons taken f fs named name h k = rw (h, k, name_fields)

  pub name_fields-AreNamed :
      (taken : List Text) (fs : List PromptField)
      → (named : List PromptField) × (name_fields decompose to_upper taken fs ≡ some named)
        × AreNamed taken fs named
  unfolding name_fields
  name_fields-AreNamed taken [] = ([], refl, (refl, tt, none_taken taken))
  name_fields-AreNamed taken (f ∷ fs) =
      let (name, named, free) = section_name_free f.name taken in
      let (rest, named_rest, (texts, distinct, (fresh, others))) =
        name_fields-AreNamed (tag_of to_upper name ∷ taken) fs in
      (
        record f { name = name } ∷ rest,
        name_fields_cons taken f fs rest name named named_rest,
        (
          ap (f.content ∷◌) texts,
          (fresh, distinct),
          no_others (tag_of to_upper name) _ taken free others,
        ),
      )

-- Splitting the long sections of a prompt ends, gives each section a tag of its own, and gives
-- the contents of the sections of the prompt, in order, each long one as its trimmed parts. The
-- upper case is taken to be that of the parts of a text around an underscore, and to leave alone a
-- text of characters up to the digit 9.
pub split_long_sections_named :
    (decompose to_upper : Text → Text)
    (joins : (s t : Text) → to_upper (s ++ 95 ∷ t) ≡ to_upper s ++ 95 ∷ to_upper t)
    (caseless : (s : Text) → all (λ c. ltb c 58) s ≡ true → to_upper s ≡ s) (p : ImportPrompt)
    → (q : ImportPrompt) × (split_long_sections decompose to_upper p ≡ some q)
      × IsDistinct (map (λ f. tag_of to_upper f.name) q.fields)
      × (map (λ f. f.content) q.fields ≡ map (λ f. f.content) (concat (map split_field p.fields)))
unfolding split_long_sections
split_long_sections_named decompose to_upper joins caseless p =
    let (named, e, (texts, distinct, _)) =
      name_fields-AreNamed decompose to_upper joins caseless []
        (concat (map split_field p.fields)) in
    (record p { fields = named }, ap (with_fields p) e, distinct, texts)
