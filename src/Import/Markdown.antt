-- ===== src/Import/Markdown.antt =====
-- lib/promptImport.ts: the loop of `parsePromptImport` over the lines of a Markdown note, where a
-- `# Title` starts a prompt and a `## Section` a section, but for lines inside a code fence. None is
-- the failure of a note that does not start with a title.
pub mod Bodies
pub mod Laws
use prompt_maker_studio.Base.{
  ltb, leb, ◌==◌, if◌then◌else◌, ==_iff, ==_refl, Bool-cases, Option-cases, both, either,
  eq_of_some, same, none_ne_some, false_ne_true, true_of_not, false_of_not, length, get_elem?, take,
  drop, filter, any, all, find?, All, concat, slice, drop-drop, length-append, take-append-drop,
  slice-append-drop, length-take, length-drop, take-append-length, drop-append-length,
  filter-append, length-filter-le, drop-all, slice-empty, concat-append, length-reverse, Text, text,
  text_eq, text_eq_refl, eq_of_text_eq, text_eq_iff, text_eq_comm, includes, is_space, trim_start,
  trim_end, trim, is_empty, join, take_while, drop_while, strip, is_prefix, contains, length-strip,
  eq_of_strip, strip-append, length-drop_while, length-trim_start, push_new, push_all, set_of,
  first_uses, IsDistinct, includes-append, filter-filter, push_all-first_uses, set_of-first_uses,
  includes-first_uses, first_uses-IsDistinct, IsDistinct-snoc, push_new-cons, digits, decimal,
  decimal-is_digit, decimal-no_space, decimal_inj, trim_end-cons, trim_idem, ℕ, zero, suc, ◌+◌, ◌-◌,
  ◌*◌, ◌/◌, ◌%◌, ◌≤◌, ◌<◌, max, min, ◌≡◌, refl, sym, ap, ap₂, ◌∙◌, subst, fun_ext, ◌≢◌, ◌↔◌, ◌⊎◌,
  inl, inr, Bool, true, false, not, ◌&&◌, ◌||◌, Option, none, some, some-injective, List, [], ◌∷◌,
  ◌++◌, map, append-nil, append_assoc, map-append, arith,
}
use prompt_maker_studio.Sections.Chars.{PromptField}

-- A prompt as it is read.
pub record Note : Type 0 where
  pub name : Text
  pub fields : List PromptField

-- The run of backticks or tildes that a line starts with.
pub record Marker : Type 0 where
  pub char : ℕ
  pub count : ℕ

pub data Heading : Type 0 where
  title section : Text → Heading

-- The locals of the loop; the section is the last field of the prompt, if there is one.
pub record Reader : Type 0 where
  pub prompts : List Note
  pub current : Option Note
  pub in_section : Bool
  pub fence : Option Marker

abbrev pub marker_run : ℕ → Text → Option Marker
marker_run c s =
    let run = length (take_while (λ d. d == c) s) in
    if leb 2 run then some (record { char = c; count = 1 + run }) else none

-- `line.match(/^\s{0,3}(`{3,}|~{3,})/)`, with the spaces that may still come.
abbrev pub marker_after : ℕ → Text → Option Marker
marker_after spaces [] = none
marker_after zero (c ∷ s) = if c == 96 || c == 126 then marker_run c s else none
marker_after (suc spaces) (c ∷ s) =
    let rest = marker_after spaces s in
    if c == 96 || c == 126 then marker_run c s else if is_space c then rest else none

unfoldable pub marker_of : Text → Option Marker
marker_of line = marker_after 3 line

abbrev pub is_line_end : ℕ → Bool
is_line_end c = c == 10 || c == 13 || c == 8232 || c == 8233

-- `(.+)$` behind the marks of a heading.
abbrev pub heading_text : Option Text → Option Text
heading_text none = none
heading_text (some s) =
    if not (is_empty s) && all (λ c. not (is_line_end c)) s then some s else none

abbrev pub heading_from : Option Text → Option Text → Option Heading
heading_from (some s) other = some (title (trim s))
heading_from none (some s) = some (section (trim s))
heading_from none none = none

-- `line.match(/^(#{1,2}) (.+)$/)`
unfoldable pub heading_of : Text → Option Heading
heading_of line =
    heading_from (heading_text (strip (text "# ") line)) (heading_text (strip (text "## ") line))

abbrev pub unmarked : Option Marker → Option Marker → Option Heading → Option Heading
unmarked none none h = h
unmarked _ _ h = none

-- The heading of a line that is neither in a fence nor a marker.
unfoldable pub line_heading : Option Marker → Text → Option Heading
unfolding marker_of heading_of
line_heading fence line = unmarked fence (marker_of line) (heading_of line)

abbrev pub repeat : ℕ → ℕ → Text
repeat zero c = []
repeat (suc n) c = c ∷ repeat n c

abbrev pub fence_with : Option Marker → Option Marker → Text → Option Marker
fence_with fence none line = fence
fence_with none (some m) line = some m
fence_with (some f) (some m) line =
    if m.char == f.char && leb f.count m.count && text_eq (trim line) (repeat m.count m.char)
    then none
    else some f

unfoldable pub next_fence : Option Marker → Text → Option Marker
unfolding marker_of
next_fence fence line = fence_with fence (marker_of line) line

-- `section.content += line` on the last field.
abbrev pub add_to_last : Text → List PromptField → List PromptField
add_to_last s [] = []
add_to_last s (f ∷ []) = record f { content = f.content ++ s } ∷ []
add_to_last s (f ∷ g ∷ fs) = f ∷ add_to_last s (g ∷ fs)

abbrev pub add_line : Bool → Text → Note → Note
add_line true line p = record p { fields = add_to_last (line ++ text "\n") p.fields }
add_line false line p = record p {
  fields = p.fields ++ record { name = text "Prompt"; content = line ++ text "\n" } ∷ [];
}

abbrev pub with_current : Option Note → List Note
with_current none = []
with_current (some p) = p ∷ []

abbrev pub add_body : Text → Reader → Option Note → Option Reader
add_body line st none = if is_empty (trim line) then some st else none
add_body line st (some p) = some (record st {
  current = some (add_line st.in_section line p);
  in_section = true;
  fence = next_fence st.fence line;
})

abbrev pub add_heading : Text → Reader → Option Heading → Option Note → Option Reader
add_heading line st (some (title name)) current = some (record st {
  prompts = st.prompts ++ with_current current;
  current = some (record { name = name; fields = [] });
  in_section = false;
})
add_heading line st (some (section name)) (some p) = some (record st {
  current = some (record p { fields = p.fields ++ record { name = name; content = [] } ∷ [] });
  in_section = true;
})
add_heading line st (some (section name)) none = add_body line st none
add_heading line st none current = add_body line st current

unfoldable pub read_line : Text → Reader → Option Reader
unfolding next_fence line_heading
read_line line st = add_heading line st (line_heading st.fence line) st.current

unfoldable pub read_lines : List Text → Reader → Option Reader
unfolding read_line
read_lines [] st = some st
read_lines (line ∷ lines) st = elim (read_line line st) [
  | none ↦ none
  | some next ↦ read_lines lines next
]

abbrev pub no_lines_read : Reader
no_lines_read = record { prompts = []; current = none; in_section = false; fence = none }

abbrev pub notes_of : Reader → List Note
notes_of st = st.prompts ++ with_current st.current
