-- ===== src/Library/Examples.antt =====
-- A prompt that is removed and not undone, at a concrete library.
use prompt_maker_studio.Base.{
  eq_of_some, subst, ◌∙◌, sym, none_ne_some, if◌then◌else◌, ◌==◌, Bool-cases, Option, Text, map,
  inr, inl, ap, List, text, ℕ, ◌≡◌, refl, true, false, ◌||◌, none, some, [], ◌∷◌,
}
use prompt_maker_studio.Library.Prompts.{or_empty, Prompt, has_id, includes_id}
use prompt_maker_studio.Library.Deletion.{
  ids, Pending, Library, delete_selected, undo, remove_many, timer_fires, flush,
}
use mathlib.Core.List.{Perm}
use prompt_maker_studio.Library.Undo.{undo-delete_selected}
use prompt_maker_studio.Library.Moving.{Batch, move_selected, undo_move}
use prompt_maker_studio.Library.Moving.Laws.{IsFiled, placed, undo_move-move_selected}
use prompt_maker_studio.Library.Views.{favorites, unfiled, folder_view}
use prompt_maker_studio.Library.Searching.{SearchBox, in_view, address_changed}
use prompt_maker_studio.Library.Searching.Laws.{Act, type_query, run}
use prompt_maker_studio.Library.Owed.{commits_owe, Step, here, next, removed_is_sent}

abbrev prompt : ℕ → Prompt
prompt n = record {
  id = n;
  name = none;
  fields = [];
  generated_prompt = text "Hello";
  created_at = text "2026-01-01";
  updated_at = none;
  folder = none;
  is_favorite = false;
}

abbrev library : Library
library = record {
  prompts = some (prompt 1 ∷ prompt 2 ∷ prompt 3 ∷ []);
  selected = [];
  pending = none;
  next_timer = 0;
  undo_offer = none;
  commits = [];
  sent = [];
}

-- One delete after another: the second sends the request of the first.
abbrev after_two : Library
after_two = remove_many (prompt 3 ∷ []) (remove_many (prompt 2 ∷ []) library)

deletion_test :
    (after_two.prompts ≡ some (prompt 1 ∷ []))
    × (after_two.sent ≡ 2 ∷ [])
    × ((flush after_two).sent ≡ 2 ∷ 3 ∷ [])
unfolding remove_many prompt_maker_studio.Library.Deletion.hide_targets
    prompt_maker_studio.Library.Deletion.commit_earlier
    prompt_maker_studio.Library.Deletion.commit_delete prompt_maker_studio.Library.Prompts.without
    flush
deletion_test = (refl, refl, refl)

removed_is_sent_example :
    (includes_id (flush after_two).sent 2 || commits_owe after_two.commits 2) ≡ true
removed_is_sent_example =
    removed_is_sent (prompt 2 ∷ []) library after_two 2 refl
      (next here (Step.remove (prompt 3 ∷ []) (remove_many (prompt 2 ∷ []) library)))

abbrev chosen : Library
chosen = record library { selected = 3 ∷ 1 ∷ [] }

undo-delete_selected_example :
    ((qs : List Prompt) × ((undo (delete_selected chosen)).prompts ≡ some qs)
      × Perm qs (prompt 1 ∷ prompt 2 ∷ prompt 3 ∷ []))
    × ((undo (delete_selected chosen)).pending ≡ none)
undo-delete_selected_example =
    undo-delete_selected chosen (prompt 1 ∷ prompt 2 ∷ prompt 3 ∷ []) refl

abbrev filed : ℕ → Text → Prompt
filed n f = record (prompt n) { folder = some f }

-- The server files a prompt as asked, but for prompt 3, which it refuses.
abbrev file : Text → Prompt → Prompt
file f p = record p { folder = some f }

abbrev but_third : Text → Prompt → Option Prompt
but_third f p = if p.id == 3 then none else some (file f p)

abbrev batch : Batch
batch = record {
  prompts = some (filed 1 (text "Work") ∷ prompt 2 ∷ filed 3 (text "Home") ∷ []);
  selected = 1 ∷ 3 ∷ [];
  batch_busy = false;
  moved = [];
}

moving_test :
    let b = move_selected but_third (text "Old") batch in
    (b.prompts ≡ some (filed 1 (text "Old") ∷ prompt 2 ∷ filed 3 (text "Home") ∷ []))
    × (b.selected ≡ 3 ∷ [])
    × (b.moved ≡ filed 1 (text "Work") ∷ [])
unfolding move_selected prompt_maker_studio.Library.Prompts.selected_prompts
    prompt_maker_studio.Library.Prompts.replace
moving_test = (refl, refl, refl)

but_third-IsFiled : (f : Text) (p u : Prompt) → but_third f p ≡ some u → IsFiled f p u
but_third-IsFiled f p u h = elim (Bool-cases (p.id == 3)) [
  | inl third ↦
      absurd (none_ne_some (ap (λ b. if b then none else some (file f p)) (sym third) ∙ h))
  | inr other ↦
      subst (IsFiled f p)
        (eq_of_some _ _ (ap (λ b. if b then none else some (file f p)) (sym other) ∙ h))
        (refl, refl)
]

undo_move-move_selected_example :
    map placed (
      or_empty
        (undo_move (λ f p. some (file f p)) (move_selected but_third (text "Old") batch)).prompts)
    ≡ (1, text "Work") ∷ (2, []) ∷ (3, text "Home") ∷ []
unfolding prompt_maker_studio.Library.Prompts.selected_prompts
undo_move-move_selected_example =
    undo_move-move_selected but_third file (text "Old") batch (filed 1 (text "Work"))
      (filed 3 (text "Home") ∷ []) (filed 1 (text "Work") ∷ prompt 2 ∷ filed 3 (text "Home") ∷ [])
      refl refl refl
      ((inr refl, (inl refl, tt)), ((inl refl, (inl refl, tt)), ((inl refl, (inr refl, tt)), tt)))
      but_third-IsFiled (λ f p. (refl, refl))

view_test :
    (in_view unfiled batch.prompts ≡ prompt 2 ∷ [])
    × (in_view (folder_view (text "Home")) batch.prompts ≡ filed 3 (text "Home") ∷ [])
    × (in_view favorites batch.prompts ≡ [])
unfolding in_view
view_test = (refl, refl, refl)

abbrev empty_box : SearchBox
empty_box = record { search = []; written_view = text "all"; queries = [] }

abbrev typing : List Act
typing =
    type_query (text "a")
    ∷ type_query (text "ab")
    ∷ Act.echo
    ∷ type_query (text "abc")
    ∷ Act.skip
    ∷ Act.echo
    ∷ []

-- A link to another query is taken into the box.
navigation_test : (address_changed (text "all") (text "x") empty_box).search ≡ text "x"
unfolding address_changed
navigation_test = refl

-- A text that is typed again before the first echo: the late echo of the text in between takes its
-- place in the box.
typed_again_test :
    (run
      (text "all")
      (type_query (text "a")
        ∷ type_query (text "ab")
        ∷ type_query (text "a")
        ∷ Act.echo
        ∷ Act.echo
        ∷ [])
      (record { box = empty_box; under_way = [] })).box.search
    ≡ text "ab"
unfolding run prompt_maker_studio.Library.Searching.Laws.act address_changed
    prompt_maker_studio.Library.Searching.set_search
typed_again_test = refl
