-- ===== src/Library/Edits.antt =====
-- Edits of one prompt from the library: `toggleFavorite`, `rename`, `move` and `duplicate` of
-- useLibrary.ts, each as what it shows at once, what it asks of the server and what it does with the
-- answer. No answer is a failure.
use prompt_maker_studio.Base.{
  ◌⊎◌, ◌==◌, if◌then◌else◌, ==_refl, All, Text, text_eq, trim, is_empty, ◌≡◌, refl, ap, ◌∙◌, inl,
  inr, Bool, false, not, ◌||◌, Option, none, some, List, [], ◌∷◌, arith,
}
use prompt_maker_studio.Library.Prompts.{Prompt, replace, update, or_empty}
use prompt_maker_studio.Library.Deletion.{ids}

pub data Edit : Type 0 where
  toggle_favorite : Prompt → Edit
  rename : Prompt → (value : Text) → Edit
  move : Prompt → (folder : Text) → Edit

abbrev pub target : Edit → Prompt
target (toggle_favorite p) = p
target (rename p value) = p
target (move p folder) = p

-- The body of `updatePrompt`.
pub data Change : Type 0 where
  favorite : Bool → Change
  name : Text → Change
  folder : Text → Change

abbrev pub is_name_of : Text → Option Text → Bool
is_name_of n none = false
is_name_of n (some old) = text_eq n old

-- What is asked of the server; a blank or unchanged name asks nothing.
unfoldable pub edit_request : Edit → Option Change
edit_request (toggle_favorite p) = some (favorite (not p.is_favorite))
edit_request (rename p value) =
    if is_empty (trim value) || is_name_of (trim value) p.name
    then none
    else some (name (trim value))
edit_request (move p f) = some (folder (trim f))

-- What is shown before the answer.
unfoldable pub edit_start : Edit → Option (List Prompt) → Option (List Prompt)
edit_start (toggle_favorite p) prompts =
    update (replace (record p { is_favorite = not p.is_favorite })) prompts
edit_start (rename p value) prompts = prompts
edit_start (move p f) prompts = prompts

-- The answer, or the `catch`.
unfoldable pub edit_settle : Edit → Option Prompt → Option (List Prompt) → Option (List Prompt)
edit_settle e (some updated) prompts = update (replace updated) prompts
edit_settle (toggle_favorite p) none prompts = update (replace p) prompts
edit_settle (rename p value) none prompts = prompts
edit_settle (move p f) none prompts = prompts

-- `[copy, ...(current ?? [])]`
unfoldable pub duplicate_settle : Option Prompt → Option (List Prompt) → Option (List Prompt)
duplicate_settle none prompts = prompts
duplicate_settle (some copy) prompts = some (copy ∷ or_empty prompts)

-- The whole edit, with the server's answer to the change.
unfoldable pub edit : (Change → Option Prompt) → Edit → Option (List Prompt) → Option (List Prompt)
unfolding edit_start edit_settle edit_request
edit answer e prompts = elim (edit_request e) [
  | none ↦ prompts
  | some change ↦ edit_settle e (answer change) (edit_start e prompts)
]

ids-replace : (u : Prompt) (ps : List Prompt) → ids (replace u ps) ≡ ids ps
unfolding replace
ids-replace u [] = refl
ids-replace u (p ∷ ps) = ground (arith, ids-replace u ps)

-- The list holds the prompt as the edit found it.
abbrev pub IsAsFound : Prompt → List Prompt → Type 0
IsAsFound p = All (λ q. (q.id == p.id ≡ false) ⊎ (q ≡ p))

replace-toggled :
    (p : Prompt) (ps : List Prompt)
    → IsAsFound p ps
    → replace p (replace (record p { is_favorite = not p.is_favorite }) ps) ≡ ps
unfolding replace
replace-toggled p [] h = refl
replace-toggled p (q ∷ ps) (inl other, h) = rw (other, other, replace-toggled p ps h)
replace-toggled p (q ∷ ps) (inr e, h) =
    rw (e, ==_refl p.id, ==_refl p.id, replace-toggled p ps h) refl

by_request :
    (r : Option Change) (answer : Change → Option Prompt) (e : Edit) (ps : List Prompt)
    → IsAsFound (target e) ps
    → ((c : Change) → answer c ≡ none)
    → (elim r as (λ x. Option (List Prompt)) [
      | none ↦ some ps
      | some change ↦ edit_settle e (answer change) (edit_start e (some ps))
    ])
      ≡ some ps
unfolding edit_settle edit_start
by_request none answer e ps h fails = refl
by_request (some c) answer (toggle_favorite p) ps h fails =
    rw (fails c) (ap some (replace-toggled p ps h))
by_request (some c) answer (rename p value) ps h fails = rw (fails c)
by_request (some c) answer (move p f) ps h fails = rw (fails c)

-- When every answer is a failure and the list holds the prompt as the edit found it, the edit leaves
-- the list as it was, what was shown at once included.
pub edit_refused :
    (answer : Change → Option Prompt) (e : Edit) (ps : List Prompt)
    → IsAsFound (target e) ps
    → ((c : Change) → answer c ≡ none)
    → edit answer e (some ps) ≡ some ps
unfolding edit
edit_refused answer e ps h fails = by_request (edit_request e) answer e ps h fails

settle-ids :
    (e : Edit) (a : Option Prompt) (prompts : Option (List Prompt))
    → ids (or_empty (edit_settle e a (edit_start e prompts))) ≡ ids (or_empty prompts)
unfolding edit_settle edit_start
settle-ids (toggle_favorite p) (some u) none = refl
settle-ids (toggle_favorite p) (some u) (some ps) = ids-replace u _ ∙ ids-replace _ ps
settle-ids (toggle_favorite p) none none = refl
settle-ids (toggle_favorite p) none (some ps) = ids-replace p _ ∙ ids-replace _ ps
settle-ids (rename p value) (some u) none = refl
settle-ids (rename p value) (some u) (some ps) = ids-replace u ps
settle-ids (rename p value) none prompts = refl
settle-ids (move p f) (some u) none = refl
settle-ids (move p f) (some u) (some ps) = ids-replace u ps
settle-ids (move p f) none prompts = refl

-- No edit, whatever is answered, adds, drops or reorders prompts.
pub ids-edit :
    (answer : Change → Option Prompt) (e : Edit) (prompts : Option (List Prompt))
    → ids (or_empty (edit answer e prompts)) ≡ ids (or_empty prompts)
unfolding edit
ids-edit answer e prompts = by_change (edit_request e)
  where
    by_change :
        (r : Option Change)
        → ids (
            or_empty (elim r as (λ x. Option (List Prompt)) [
              | none ↦ prompts
              | some change ↦ edit_settle e (answer change) (edit_start e prompts)
            ]))
          ≡ ids (or_empty prompts)
    by_change none = refl
    by_change (some c) = settle-ids e (answer c) prompts
