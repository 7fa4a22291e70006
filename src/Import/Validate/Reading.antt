-- ===== src/Import/Validate/Reading.antt =====
-- What it takes to read a field, a title and a prompt, in both directions.
use prompt_maker_studio.Base.{
  leb, both, length, Text, text, includes, trim, is_empty, ◌≡◌, refl, ap, ◌∙◌, subst, Bool, true,
  false, not, ◌&&◌, ◌||◌, List, arith,
}
use prompt_maker_studio.Sections.Chars.{PromptField}
use prompt_maker_studio.Sections.Names.{is_valid_name}
use prompt_maker_studio.Import.Json.{
  Json, Members, Result, ok, err, ◌>>=◌, check, ◌>>◌, bind_ok, check_ok,
}
use prompt_maker_studio.Import.Items.{
  as_object, or_fail, bad_title, bad_section, bad_name, repeated_name, long_text,
}
use prompt_maker_studio.Import.Validate.{
  max_title, max_section, string_at, read_title, field_name, tag_of, read_field,
}

-- A computation with both its parts.
pub ok_bind {ℓ κ μ} :
    {E : Type ℓ} {A : Type κ} {B : Type μ} (m : Result E A) (f : A → Result E B) {a : A} {b : B}
    → m ≡ ok a
    → f a ≡ ok b
    → (m >>= f) ≡ ok b
ok_bind (ok a) f h k = cc
ok_bind (err e) f h k = cc

pub ok_check {ℓ κ} :
    {E : Type ℓ} {B : Type κ} (c : Bool) (e : E) (k : Result E B) {b : B}
    → c ≡ true
    → k ≡ ok b
    → (check c e >> k) ≡ ok b
ok_check true e k c_holds h = h
ok_check false e k c_holds h = cc

pub ok_injective {ℓ κ} :
    {E : Type ℓ} {A : Type κ} {a b : A} → Path (Result E A) (ok a) (ok b) → a ≡ b
ok_injective h = cc

-- The title, when it is read at all.
pub read_title_ok :
    (lenient : Bool) (ms : Members) (title : Text)
    → read_title lenient ms ≡ ok title
    → (raw : Text) × (or_fail (string_at ms (text "name")) bad_title ≡ ok raw)
      × (is_empty (trim raw) ≡ false)
      × ((lenient || leb (length (trim raw)) max_title) ≡ true)
      × (trim raw ≡ title)
unfolding read_title
read_title_ok lenient ms title h =
    let (raw, is_text, h1) = bind_ok (or_fail (string_at ms (text "name")) bad_title) _ h in
    let (good, h2) = check_ok _ bad_title _ h1 in
    let (filled, short) = both (not (is_empty (trim raw))) _ good in
    (raw, is_text, ground arith, short, ok_injective h2)

pub ok_read_title :
    (lenient : Bool) (ms : Members) (raw : Text)
    → or_fail (string_at ms (text "name")) bad_title ≡ ok raw
    → is_empty (trim raw) ≡ false
    → (lenient || leb (length (trim raw)) max_title) ≡ true
    → read_title lenient ms ≡ ok (trim raw)
unfolding read_title
ok_read_title lenient ms raw is_text filled short =
    ok_bind _ _ is_text (ok_check _ bad_title _ (rw (filled, short)) refl)

module _ (to_upper : Text → Text) where
  -- What holds of a field that is read from `j`, but for the length of its content.
  abbrev pub IsReadFrom : List Text → Json → PromptField → Type 0
  IsReadFrom tags j f =
      (ms : Members) × (raw : Text) × (or_fail (as_object j) bad_section ≡ ok ms)
      × (or_fail (string_at ms (text "name")) bad_section ≡ ok raw)
      × (or_fail (string_at ms (text "content")) bad_section ≡ ok f.content)
      × ((leb (length (field_name raw)) 100 && is_valid_name (field_name raw)) ≡ true)
      × (includes tags (tag_of to_upper (field_name raw)) ≡ false)
      × (field_name raw ≡ f.name)

  pub read_field_ok :
      (lenient : Bool) (tags : List Text) (j : Json) (f : PromptField)
      → read_field to_upper lenient tags j ≡ ok f
      → IsReadFrom tags j f × ((lenient || leb (length f.content) max_section) ≡ true)
  unfolding read_field
  read_field_ok lenient tags j f h =
      let (ms, is_obj, h1) = bind_ok (or_fail (as_object j) bad_section) _ h in
      let (raw, is_name, h2) = bind_ok (or_fail (string_at ms (text "name")) bad_section) _ h1 in
      let (content, is_content, h3) =
        bind_ok (or_fail (string_at ms (text "content")) bad_section) _ h2 in
      let (good, h4) = check_ok _ bad_name _ h3 in
      let (fresh, h5) = check_ok _ repeated_name _ h4 in
      let (short, h6) = check_ok _ long_text _ h5 in
      let same_content : content ≡ f.content = ap (λ g. g.content) (ok_injective h6) in
      (
        (
          ms,
          raw,
          is_obj,
          is_name,
          is_content ∙ ap ok same_content,
          good,
          ground arith,
          ap (λ g. g.name) (ok_injective h6),
        ),
        subst (λ c. (lenient || leb (length c) max_section) ≡ true) same_content short,
      )

  pub ok_read_field :
      (lenient : Bool) (tags : List Text) (j : Json) (f : PromptField)
      → IsReadFrom tags j f
      → (lenient || leb (length f.content) max_section) ≡ true
      → read_field to_upper lenient tags j ≡ ok f
  unfolding read_field
  ok_read_field lenient tags j f (ms, raw, is_obj, is_name, is_content, good, fresh, e) short =
      ok_bind _ _ is_obj (
        ok_bind _ _ is_name (
          ok_bind _ _ is_content (
            ok_check _ bad_name _ good (
              ok_check _ repeated_name _ (rw fresh) (
                ok_check _ long_text _ short
                  (ap (λ n. ok (record { name = n; content = f.content })) e))))))
