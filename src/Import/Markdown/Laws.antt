-- ===== src/Import/Markdown/Laws.antt =====
-- A Markdown note is read without losing a line.
use prompt_maker_studio.Base.{
  Text, ◌≡◌, sym, ap, ◌∙◌, Bool, false, Option, some, List, [], ◌∷◌, ◌++◌, map, append-nil,
  append_assoc, map-append,
}
use prompt_maker_studio.Import.Markdown.{
  Note, Marker, Heading, title, Reader, line_heading, next_fence, add_heading, read_line,
  read_lines, notes_of,
}
use prompt_maker_studio.Import.Markdown.Bodies.{
  bodies, body_of, line_body, line_titles, titles_of, bodies_snoc,
}

read_lines-cons :
    (line : Text) (lines : List Text) (st next : Reader)
    → read_line line st ≡ some next
    → read_lines (line ∷ lines) st ≡ read_lines lines next
unfolding read_lines
read_lines-cons line lines st next h = rw (h, read_lines)

read_line_heading :
    (line : Text) (st : Reader) (h : Option Heading)
    → line_heading st.fence line ≡ h
    → read_line line st ≡ add_heading line st h st.current
unfolding read_line
read_line_heading line st h e = ap (λ o. add_heading line st o st.current) e

abbrev reader : List Note → Note → Bool → Option Marker → Reader
reader done p b fence = record { prompts = done; current = some p; in_section = b; fence = fence }

-- What reading further lines adds to the bodies and the titles.
abbrev Adds : List Note → Option Marker → List Text → Option Reader → Type 0
Adds notes fence lines result =
    (end : Reader) × (result ≡ some end)
    × (bodies (notes_of end) ≡ bodies notes ++ body_of fence lines)
    × (map (λ p. p.name) (notes_of end) ≡ map (λ p. p.name) notes ++ titles_of fence lines)

carry :
    (notes later : List Note) (fence fence_later : Option Marker) (line : Text) (lines : List Text)
    (result result_later : Option Reader)
    → result ≡ result_later
    → bodies later ++ body_of fence_later lines ≡ bodies notes ++ body_of fence (line ∷ lines)
    → map (λ p. p.name) later ++ titles_of fence_later lines
      ≡ map (λ p. p.name) notes ++ titles_of fence (line ∷ lines)
    → Adds later fence_later lines result_later
    → Adds notes fence (line ∷ lines) result
carry notes later fence fence_later line lines result result_later e f g (end, h, a, b) =
    (end, e ∙ h, a ∙ f, b ∙ g)

read_title :
    (line t : Text) (lines : List Text) (done : List Note) (p : Note) (b : Bool)
    (fence : Option Marker)
    → line_heading fence line ≡ some (title t)
    → Adds
        ((done ++ p ∷ []) ++ record { name = t; fields = [] } ∷ [])
        fence
        lines
        (read_lines lines (reader (done ++ p ∷ []) (record { name = t; fields = [] }) false fence))
    → Adds (done ++ p ∷ []) fence (line ∷ lines) (read_lines (line ∷ lines) (reader done p b fence))
read_title line t lines done p b fence e next =
    let st = reader done p b fence in
    let q : Note = record { name = t; fields = [] } in
    let notes = done ++ p ∷ [] in
    let rest = body_of (next_fence fence line) lines in
    let rest_titles = titles_of (next_fence fence line) lines in
    carry notes (notes ++ q ∷ []) fence fence line lines (read_lines (line ∷ lines) st)
      (read_lines lines (reader notes q false fence))
      (read_lines-cons line lines st (reader notes q false fence)
        (read_line_heading line st (some (title t)) e))
      (ap (λ u. u ++ body_of fence lines) (bodies_snoc notes q ∙ append-nil (bodies notes))
        ∙ ap (λ o. bodies notes ++ line_body o line (body_of fence lines) rest) (sym e))
      (ap (λ u. u ++ titles_of fence lines) (map-append (λ n. n.name) notes (q ∷ []))
        ∙ (append_assoc (map (λ n. n.name) notes) (t ∷ []) (titles_of fence lines)
            ∙ ap (λ o. map (λ n. n.name) notes ++ line_titles o (titles_of fence lines) rest_titles)
                (sym e)))
      next
