-- ===== src/Import/Markdown/Bodies.antt =====
-- The text and the titles of prompts that are read from a Markdown note.
use prompt_maker_studio.Base.{
  concat, Text, text, ◌≡◌, refl, sym, ap, ◌∙◌, Bool, true, false, Option, none, some, List, [], ◌∷◌,
  ◌++◌, map, append-nil, append_assoc,
}
use prompt_maker_studio.Sections.Chars.{PromptField}
use prompt_maker_studio.Import.Markdown.{
  Note, Marker, Heading, title, section, line_heading, next_fence, add_to_last, add_line,
}

-- The text of a prompt, its sections joined.
abbrev pub body : Note → Text
body p = concat (map (λ f. f.content) p.fields)

abbrev pub bodies : List Note → Text
bodies ps = concat (map body ps)

abbrev pub line_body : Option Heading → Text → Text → Text → Text
line_body none line rest rest_fenced = (line ++ text "\n") ++ rest_fenced
line_body (some h) line rest rest_fenced = rest

-- The lines that are no headings, each with its line break.
abbrev pub body_of : Option Marker → List Text → Text
body_of fence [] = []
body_of fence (line ∷ lines) =
    let rest = body_of fence lines in
    let rest_fenced = body_of (next_fence fence line) lines in
    line_body (line_heading fence line) line rest rest_fenced

abbrev pub line_titles : Option Heading → List Text → List Text → List Text
line_titles none rest rest_fenced = rest_fenced
line_titles (some (title t)) rest rest_fenced = t ∷ rest
line_titles (some (section t)) rest rest_fenced = rest

-- The titles of the lines that are title headings.
abbrev pub titles_of : Option Marker → List Text → List Text
titles_of fence [] = []
titles_of fence (line ∷ lines) =
    let rest = titles_of fence lines in
    let rest_fenced = titles_of (next_fence fence line) lines in
    line_titles (line_heading fence line) rest rest_fenced

-- A reader inside a section has a section.
abbrev pub IsReady : Bool → List PromptField → Type 0
IsReady false fs = Unit
IsReady true [] = ⊥
IsReady true (f ∷ fs) = Unit

pub body-add_to_last :
    (s : Text) (f : PromptField) (fs : List PromptField)
    → concat (map (λ g. g.content) (add_to_last s (f ∷ fs)))
      ≡ concat (map (λ g. g.content) (f ∷ fs)) ++ s
body-add_to_last s f [] =
    append-nil (f.content ++ s) ∙ ap (λ t. t ++ s) (sym (append-nil f.content))
body-add_to_last s f (g ∷ fs) =
    ap (λ t. f.content ++ t) (body-add_to_last s g fs)
    ∙ sym (append_assoc f.content (concat (map (λ h. h.content) (g ∷ fs))) s)

pub body-add_field :
    (fs : List PromptField) (f : PromptField)
    → concat (map (λ g. g.content) (fs ++ f ∷ [])) ≡ concat (map (λ g. g.content) fs) ++ f.content
body-add_field [] f = append-nil f.content
body-add_field (g ∷ fs) f =
    ap (λ t. g.content ++ t) (body-add_field fs f)
    ∙ sym (append_assoc g.content (concat (map (λ h. h.content) fs)) f.content)

pub body-add_line :
    (b : Bool) (line name : Text) (fs : List PromptField)
    → IsReady b fs
    → body (add_line b line (record { name = name; fields = fs }))
      ≡ concat (map (λ g. g.content) fs) ++ (line ++ text "\n")
body-add_line false line name fs h =
    body-add_field fs (record { name = text "Prompt"; content = line ++ text "\n" })
body-add_line true line name [] h = elim h [ ]
body-add_line true line name (f ∷ fs) h = body-add_to_last (line ++ text "\n") f fs

pub snoc-IsReady : (fs : List PromptField) (f : PromptField) → IsReady true (fs ++ f ∷ [])
snoc-IsReady [] f = tt
snoc-IsReady (g ∷ fs) f = tt

pub add_line-IsReady :
    (b : Bool) (line name : Text) (fs : List PromptField)
    → IsReady b fs
    → IsReady true (add_line b line (record { name = name; fields = fs })).fields
add_line-IsReady false line name fs h = snoc-IsReady fs _
add_line-IsReady true line name [] h = elim h [ ]
add_line-IsReady true line name (f ∷ []) h = tt
add_line-IsReady true line name (f ∷ g ∷ fs) h = tt

pub add_line_name : (b : Bool) (line : Text) (p : Note) → (add_line b line p).name ≡ p.name
add_line_name false line p = refl
add_line_name true line p = refl

pub bodies_snoc : (done : List Note) (p : Note) → bodies (done ++ p ∷ []) ≡ bodies done ++ body p
bodies_snoc [] p = append-nil (body p)
bodies_snoc (q ∷ done) p =
    ap (λ t. body q ++ t) (bodies_snoc done p) ∙ sym (append_assoc (body q) (bodies done) (body p))

pub replace_body :
    (done : List Note) (p q : Note) (s rest : Text)
    → body q ≡ body p ++ s
    → bodies (done ++ q ∷ []) ++ rest ≡ bodies (done ++ p ∷ []) ++ (s ++ rest)
replace_body done p q s rest e =
    ap (λ t. t ++ rest)
      (bodies_snoc done q
        ∙ (ap (λ t. bodies done ++ t) e
            ∙ (sym (append_assoc (bodies done) (body p) s)
                ∙ ap (λ t. t ++ s) (sym (bodies_snoc done p)))))
    ∙ append_assoc (bodies (done ++ p ∷ [])) s rest

pub replace_name :
    (done : List Note) (p q : Note)
    → q.name ≡ p.name
    → map (λ n. n.name) (done ++ q ∷ []) ≡ map (λ n. n.name) (done ++ p ∷ [])
replace_name [] p q e = ap (λ n. n ∷ []) e
replace_name (n ∷ done) p q e = ap (n.name ∷◌) (replace_name done p q e)
