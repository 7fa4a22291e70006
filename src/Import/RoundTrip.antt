-- ===== src/Import/RoundTrip.antt =====
-- Rows written with every field in quotes are read back.
use prompt_maker_studio.Base.{
  ◌==◌, if◌then◌else◌, ==_iff, Bool-cases, filter, Text, text, ℕ, ◌≡◌, refl, sym, ap, ◌∙◌, inl, inr,
  true, false, List, [], ◌∷◌, ◌++◌, map, append-nil, append_assoc,
}
use prompt_maker_studio.Import.{Csv, next_is, csv_step, csv_loop, is_filled, all_rows, csv_rows}

-- A field's text with its quotes doubled.
abbrev pub escape : Text → Text
escape [] = []
escape (c ∷ s) = if c == 34 then 34 ∷ 34 ∷ escape s else c ∷ escape s

abbrev pub quoted_field : Text → Text
quoted_field s = 34 ∷ (escape s ++ text "\"")

-- The fields of a row behind its first, each behind a comma.
abbrev pub more_fields : List Text → Text
more_fields [] = []
more_fields (cell ∷ cells) = 44 ∷ (quoted_field cell ++ more_fields cells)

pub record Row : Type 0 where
  pub first : Text
  pub others : List Text

abbrev pub cells : Row → List Text
cells r = r.first ∷ r.others

abbrev pub row_text : Row → Text
row_text r = quoted_field r.first ++ more_fields r.others

abbrev pub more_rows : List Row → Text
more_rows [] = []
more_rows (r ∷ rs) = 10 ∷ (row_text r ++ more_rows rs)

abbrev pub csv_text : Row → List Row → Text
csv_text r rs = row_text r ++ more_rows rs

abbrev in_quotes : List (List Text) → List Text → Text → Csv
in_quotes done row field = record {
  rows = done;
  row = row;
  field = field;
  quoted = true;
  skip = false;
}

abbrev outside : List (List Text) → List Text → Text → Csv
outside done row field = record {
  rows = done;
  row = row;
  field = field;
  quoted = false;
  skip = false;
}

step-char :
    (done : List (List Text)) (row : List Text) (field : Text) (c : ℕ) (after : Text)
    → c == 34 ≡ false
    → csv_step c after (in_quotes done row field) ≡ in_quotes done row (field ++ c ∷ [])
unfolding csv_step
step-char done row field c after h = rw h

step-close :
    (done : List (List Text)) (row : List Text) (field after : Text)
    → next_is 34 after ≡ false
    → csv_step 34 after (in_quotes done row field) ≡ outside done row field
unfolding csv_step
step-close done row field after h = rw h

-- Inside quotes the loop reads the text up to the closing quote.
loop-escape :
    (done : List (List Text)) (row : List Text) (field s after : Text)
    → next_is 34 after ≡ false
    → csv_loop (in_quotes done row field) (escape s ++ 34 ∷ after)
      ≡ csv_loop (outside done row (field ++ s)) after
unfolding csv_loop csv_step
loop-escape done row field [] after h =
    ap (λ st. csv_loop st after) (step-close done row field after h) ∙ rw (append-nil field)
loop-escape done row field (c ∷ s) after h = elim (Bool-cases (c == 34)) [
  | inl quote ↦ rw quote (
      loop-escape done row (field ++ 34 ∷ []) s after h
      ∙ ap (λ f. csv_loop (outside done row f) after)
          (append_assoc field (34 ∷ []) s ∙ ap (λ d. field ++ d ∷ s) (sym ((==_iff c 34).0 quote))))
  | inr other ↦ rw other (
      ap (λ st. csv_loop st (escape s ++ 34 ∷ after))
        (step-char done row field c (escape s ++ 34 ∷ after) other)
      ∙ loop-escape done row (field ++ c ∷ []) s after h
      ∙ ap (λ f. csv_loop (outside done row f) after) (append_assoc field (c ∷ []) s))
]

loop-quoted_field :
    (done : List (List Text)) (row : List Text) (s after : Text)
    → next_is 34 after ≡ false
    → csv_loop (outside done row []) (quoted_field s ++ after) ≡ csv_loop (outside done row s) after
unfolding csv_loop csv_step
loop-quoted_field done row s after h =
    rw (append_assoc (escape s) (34 ∷ []) after) (loop-escape done row [] s after h)

-- A text behind a field is a comma, a line break or the end.
abbrev IsBreak : Text → Type 0
IsBreak after = next_is 34 after ≡ false

next_is-more_fields :
    (cs : List Text) (after : Text) → IsBreak after → IsBreak (more_fields cs ++ after)
next_is-more_fields [] after h = h
next_is-more_fields (c ∷ cs) after h = refl

next_is-more_rows : (rs : List Row) → IsBreak (more_rows rs)
next_is-more_rows [] = refl
next_is-more_rows (r ∷ rs) = refl

loop-more_fields :
    (done : List (List Text)) (row : List Text) (field : Text) (cs : List Text) (after : Text)
    → IsBreak after
    → ((last : Text) × (front : List Text) × (csv_loop
            (outside done row field)
            (more_fields cs ++ after)
          ≡ csv_loop (outside done front last) after)
        × (front ++ last ∷ [] ≡ row ++ field ∷ cs))
unfolding csv_loop csv_step
loop-more_fields done row field [] after h = (field, row, refl, refl)
loop-more_fields done row field (c ∷ cs) after h =
    let (last, front, e, f) = loop-more_fields done (row ++ field ∷ []) c cs after h in
    (
      last,
      front,
      ap (csv_loop (outside done (row ++ field ∷ []) []))
            (append_assoc (quoted_field c) (more_fields cs) after)
          ∙ loop-quoted_field done (row ++ field ∷ []) c (more_fields cs ++ after)
              (next_is-more_fields cs after h)
          ∙ e,
      f ∙ append_assoc row (field ∷ []) (c ∷ cs),
    )

-- A row is read into a row and a last field that is still open.
loop-row_text :
    (done : List (List Text)) (r : Row) (after : Text)
    → IsBreak after
    → ((last : Text) × (front : List Text) × (csv_loop (outside done [] []) (row_text r ++ after)
          ≡ csv_loop (outside done front last) after)
        × (front ++ last ∷ [] ≡ cells r))
loop-row_text done r after h =
    let (last, front, e, f) = loop-more_fields done [] r.first r.others after h in
    (
      last,
      front,
      ap (csv_loop (outside done [] []))
            (append_assoc (quoted_field r.first) (more_fields r.others) after)
          ∙ loop-quoted_field done [] r.first (more_fields r.others ++ after)
              (next_is-more_fields r.others after h)
          ∙ e,
      f,
    )

all_rows-more_rows :
    (done : List (List Text)) (front : List Text) (last : Text) (rs : List Row)
    → all_rows (csv_loop (outside done front last) (more_rows rs))
      ≡ done ++ (front ++ last ∷ []) ∷ map cells rs
unfolding csv_loop csv_step
all_rows-more_rows done front last [] = refl
all_rows-more_rows done front last (r ∷ rs) =
    let done' = done ++ (front ++ last ∷ []) ∷ [] in
    let (last', front', e, f) = loop-row_text done' r (more_rows rs) (next_is-more_rows rs) in
    ap all_rows e
    ∙ all_rows-more_rows done' front' last' rs
    ∙ ap (λ row. done' ++ row ∷ map cells rs) f
    ∙ append_assoc done ((front ++ last ∷ []) ∷ []) (cells r ∷ map cells rs)

-- Rows written with every field in quotes, quotes doubled, are read back: all of them, in order, but
-- those whose fields are all blank.
pub csv_rows-csv_text :
    (r : Row) (rs : List Row) → csv_rows (csv_text r rs) ≡ filter is_filled (map cells (r ∷ rs))
unfolding csv_rows
csv_rows-csv_text r rs =
    let (last, front, e, f) = loop-row_text [] r (more_rows rs) (next_is-more_rows rs) in
    ap (filter is_filled)
      (ap all_rows e ∙ all_rows-more_rows [] front last rs ∙ ap (λ row. row ∷ map cells rs) f)
