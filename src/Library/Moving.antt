-- ===== src/Library/Moving.antt =====
-- features/library/useLibrary.ts: `moveSelected`, which files the selected prompts under a folder one
-- request after another, and its Undo. `answer` is what the server says to each request; none is a
-- failure.
pub mod Laws
use prompt_maker_studio.Base.{
  ltb, leb, ◌==◌, if◌then◌else◌, ==_iff, ==_refl, Bool-cases, Option-cases, both, either,
  eq_of_some, same, none_ne_some, false_ne_true, true_of_not, false_of_not, length, get_elem?, take,
  drop, filter, any, all, find?, All, concat, slice, drop-drop, length-append, take-append-drop,
  slice-append-drop, length-take, length-drop, take-append-length, drop-append-length,
  filter-append, length-filter-le, drop-all, slice-empty, concat-append, length-reverse, Text, text,
  text_eq, text_eq_refl, eq_of_text_eq, text_eq_iff, text_eq_comm, includes, is_space, trim_start,
  trim_end, trim, is_empty, join, take_while, drop_while, strip, length-strip, eq_of_strip,
  strip-append, length-drop_while, length-trim_start, push_new, push_all, set_of, first_uses,
  IsDistinct, includes-append, filter-filter, push_all-first_uses, set_of-first_uses,
  includes-first_uses, first_uses-IsDistinct, IsDistinct-snoc, push_new-cons, digits, decimal,
  decimal-is_digit, decimal_inj, trim_idem, ℕ, zero, suc, ◌+◌, ◌-◌, ◌*◌, ◌/◌, ◌%◌, ◌≤◌, ◌<◌, max,
  min, ◌≡◌, refl, sym, ap, ap₂, ◌∙◌, subst, fun_ext, ◌≢◌, ◌↔◌, ◌⊎◌, inl, inr, Bool, true, false,
  not, ◌&&◌, ◌||◌, Option, none, some, some-injective, List, [], ◌∷◌, ◌++◌, map, append-nil,
  append_assoc, map-append, arith,
}
use prompt_maker_studio.Library.Prompts.{
  Prompt, update, or_empty, includes_id, selected_prompts, has_id, without, replace,
}

-- `prompt.folder ?? ''`
abbrev pub folder_text : Prompt → Text
folder_text p = elim p.folder [ none ↦ [] | some f ↦ f ]

-- `replace(updated)`, or nothing after a failure.
abbrev pub show_answer : Option Prompt → Option (List Prompt) → Option (List Prompt)
show_answer none shown = shown
show_answer (some u) shown = update (replace u) shown

-- `moved.push(prompt)`
abbrev pub add_moved : Option Prompt → Prompt → List Prompt → List Prompt
add_moved none p moved = moved
add_moved (some u) p moved = p ∷ moved

-- The loop of requests, each with the folder for its prompt: what was moved, and the list shown.
unfoldable pub send_folders :
    (answer : Text → Prompt → Option Prompt) (folder_for : Prompt → Text)
    → List Prompt
    → Option (List Prompt)
    → List Prompt × Option (List Prompt)
send_folders answer folder_for [] shown = ([], shown)
send_folders answer folder_for (p ∷ ps) shown =
    let updated = answer (folder_for p) p in
    let rest = send_folders answer folder_for ps (show_answer updated shown) in
    (add_moved updated p rest.0, rest.1)

pub record Batch : Type 0 where
  pub prompts : Option (List Prompt)
  pub selected : List ℕ
  pub batch_busy : Bool
  -- What the Undo of the toast has captured, when something was moved.
  pub moved : List Prompt

abbrev pub prompt_ids : List Prompt → List ℕ
prompt_ids = map (λ p. p.id)

abbrev pub move_targets :
    (answer : Text → Prompt → Option Prompt) → Text → List Prompt → Batch → Batch
move_targets answer folder [] b = b
move_targets answer folder (t ∷ ts) b =
    let done = send_folders answer (λ p. folder) (t ∷ ts) b.prompts in
    record b { prompts = done.1; selected = prompt_ids (without done.0 (t ∷ ts)); moved = done.0 }

-- `moveSelected`; failures stay selected for a retry.
unfoldable pub move_selected : (answer : Text → Prompt → Option Prompt) → Text → Batch → Batch
unfolding send_folders without
move_selected answer folder b =
    if b.batch_busy
    then b
    else move_targets answer folder (selected_prompts b.selected (or_empty b.prompts)) b

-- The toast's Undo puts each back where it was.
unfoldable pub undo_move : (answer : Text → Prompt → Option Prompt) → Batch → Batch
unfolding send_folders
undo_move answer b = record b { prompts = (send_folders answer folder_text b.moved b.prompts).1 }
