-- ===== src/Sections/Variables/Collect.antt =====
-- Which names `variablesIn` lists, and in which order.
use prompt_maker_studio.Base.{
  ◌≡◌, refl, ap, ◌∙◌, sym, List, [], ◌∷◌, ◌++◌, map, Text, push_new, push_all, first_uses,
  IsDistinct, set_of, set_of-first_uses, first_uses-IsDistinct, concat,
}
use prompt_maker_studio.Scan.{Match, match_all}
use prompt_maker_studio.Sections.Chars.{PromptField}
use prompt_maker_studio.Sections.Variables.{variable_at, add_matches, add_sections, variables_in}

-- Every use of a variable, in the order of the text.
abbrev pub uses_in : PromptField → List Text
uses_in f = map (λ m. m.group) (match_all variable_at f.content)

add_matches-push_all :
    (names : List Text) (ms : List (Match Text))
    → add_matches names ms ≡ push_all names (map (λ m. m.group) ms)
unfolding add_matches push_all
add_matches-push_all names [] = refl
add_matches-push_all names (m ∷ ms) = add_matches-push_all (push_new names m.group) ms

push_all-append :
    (names xs ys : List Text) → push_all names (xs ++ ys) ≡ push_all (push_all names xs) ys
unfolding push_all
push_all-append names [] ys = refl
push_all-append names (x ∷ xs) ys = push_all-append (push_new names x) xs ys

add_sections-push_all :
    (names : List Text) (fs : List PromptField)
    → add_sections names fs ≡ push_all names (concat (map uses_in fs))
unfolding add_sections
add_sections-push_all names [] = unfold push_all in refl
add_sections-push_all names (f ∷ fs) =
    ap (λ ns. add_sections ns fs) (add_matches-push_all names (match_all variable_at f.content))
    ∙ add_sections-push_all (push_all names (uses_in f)) fs
    ∙ sym (push_all-append names (uses_in f) (concat (map uses_in fs)))

-- The names are the first uses, in the order of their first appearance across all sections.
pub variables_in-first_uses :
    (fs : List PromptField) → variables_in fs ≡ first_uses (concat (map uses_in fs))
unfolding variables_in set_of
variables_in-first_uses fs =
    add_sections-push_all [] fs ∙ set_of-first_uses (concat (map uses_in fs))

-- No name is listed twice.
pub variables_in-IsDistinct : (fs : List PromptField) → IsDistinct (variables_in fs)
variables_in-IsDistinct fs =
    rw (variables_in-first_uses fs) (first_uses-IsDistinct (concat (map uses_in fs)))
