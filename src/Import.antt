-- ===== src/Import.antt =====
-- lib/promptImport.ts (under frontend/src): the rows of a CSV file (RFC 4180: quoted fields may hold
-- commas, quotes and line breaks). The loop is a fold over the characters; `i++` inside it is the
-- flag that skips one.
pub mod RoundTrip
pub mod Json
pub mod Items
pub mod Validate
pub mod SplitText
pub mod Naming
pub mod Markdown
pub mod Placeholders
pub mod Conversion
pub mod Dialog
mod Examples
mod Samples
mod Trials
use prompt_maker_studio.Base.{
  ltb, leb, ◌==◌, if◌then◌else◌, ==_iff, ==_refl, Bool-cases, Option-cases, both, either,
  eq_of_some, same, none_ne_some, false_ne_true, true_of_not, false_of_not, length, get_elem?, take,
  drop, filter, any, all, find?, All, concat, slice, drop-drop, length-append, take-append-drop,
  slice-append-drop, length-take, length-drop, take-append-length, drop-append-length,
  filter-append, length-filter-le, drop-all, slice-empty, concat-append, length-reverse, Text, text,
  text_eq, text_eq_refl, eq_of_text_eq, text_eq_iff, includes, is_space, trim_start, trim_end, trim,
  is_empty, join, take_while, drop_while, strip, length-strip, eq_of_strip, strip-append,
  length-drop_while, length-trim_start, push_new, push_all, set_of, first_uses, IsDistinct,
  includes-append, filter-filter, push_all-first_uses, set_of-first_uses, includes-first_uses,
  first_uses-IsDistinct, IsDistinct-snoc, push_new-cons, ℕ, zero, suc, ◌+◌, ◌-◌, ◌*◌, ◌/◌, ◌%◌, ◌≤◌,
  ◌<◌, max, min, ◌≡◌, refl, sym, ap, ap₂, ◌∙◌, subst, fun_ext, ◌≢◌, ◌↔◌, ◌⊎◌, inl, inr, Bool, true,
  false, not, ◌&&◌, ◌||◌, Option, none, some, some-injective, List, [], ◌∷◌, ◌++◌, map, append-nil,
  append_assoc, map-append, arith,
}

-- The locals of `csvRows`; `rows` without its last row, which is `row`.
pub record Csv : Type 0 where
  pub rows : List (List Text)
  pub row : List Text
  pub field : Text
  pub quoted : Bool
  pub skip : Bool

-- `text[i + 1] === char`
abbrev pub next_is : ℕ → Text → Bool
next_is c [] = false
next_is c (d ∷ s) = d == c

abbrev pub add_char : ℕ → Csv → Csv
add_char c st = record st { field = st.field ++ c ∷ [] }

abbrev pub end_field : Csv → Csv
end_field st = record st { row = st.row ++ st.field ∷ []; field = [] }

abbrev pub end_row : Csv → Csv
end_row st = record st { rows = st.rows ++ (st.row ++ st.field ∷ []) ∷ []; row = []; field = [] }

-- The body of the loop at `c`, with the text behind it.
unfoldable pub csv_step : ℕ → Text → Csv → Csv
csv_step c after st =
    if st.skip
    then record st { skip = false }
    else if st.quoted
    then (if c == 34
        then (if next_is 34 after
            then record (add_char 34 st) { skip = true }
            else record st { quoted = false })
        else add_char c st)
    else if c == 34
    then record st { quoted = true }
    else if c == 44
    then end_field st
    else if c == 10 || c == 13
    then record (end_row st) { skip = c == 13 && next_is 10 after }
    else add_char c st

unfoldable pub csv_loop : Csv → Text → Csv
csv_loop st [] = st
csv_loop st (c ∷ s) = csv_loop (csv_step c s st) s

-- `rows.filter(row => row.some(cell => cell.trim()))`
unfoldable pub is_filled : List Text → Bool
is_filled row = any (λ cell. not (is_empty (trim cell))) row

abbrev pub csv_start : Csv
csv_start = record { rows = []; row = []; field = []; quoted = false; skip = false }

abbrev pub all_rows : Csv → List (List Text)
all_rows st = (end_row st).rows

unfoldable pub csv_rows : Text → List (List Text)
unfolding csv_loop
csv_rows s = filter is_filled (all_rows (csv_loop csv_start s))
