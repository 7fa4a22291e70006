-- ===== src/Library/Deletion.antt =====
-- Deleting prompts, with an undo window: `removeMany`, `commitDelete`, the flush when the page is
-- left, and `load`. A commit sends one request after the other; its answers are events.
use prompt_maker_studio.Base.{
  ◌==◌, if◌then◌else◌, ℕ, ◌+◌, Bool, true, false, Option, none, some, List, [], ◌∷◌, ◌++◌, map,
}
use prompt_maker_studio.Library.Prompts.{Prompt, without, update, or_empty, selected_prompts}

-- `pendingDelete.current`
pub record Pending : Type 0 where
  pub prompts : List Prompt
  pub timer : ℕ

-- A `commitDelete` that waits for the answer about the first of `remaining`.
pub record Commit : Type 0 where
  pub remaining : List Prompt
  pub failed : List Prompt

pub record Library : Type 0 where
  pub prompts : Option (List Prompt)
  pub selected : List ℕ
  pub pending : Option Pending
  pub next_timer : ℕ
  -- The targets and the timer that the toast's Undo has captured.
  pub undo_offer : Option Pending
  pub commits : List Commit
  -- The ids for which a delete request has been sent.
  pub sent : List ℕ

abbrev pub ids : List Prompt → List ℕ
ids = map (λ p. p.id)

abbrev pub first_id : List Prompt → List ℕ
first_id [] = []
first_id (p ∷ ps) = p.id ∷ []

-- `load`: what waits to be deleted stays hidden.
unfoldable pub hide_pending : Option Pending → List Prompt → List Prompt
hide_pending none data' = data'
hide_pending (some w) data' = without w.prompts data'

unfoldable pub loaded : List Prompt → Library → Library
loaded data' s = record s { prompts = some (hide_pending s.pending data') }

-- The start of `commitDelete`, up to its first request.
unfoldable pub commit_delete : List Prompt → Library → Library
commit_delete [] s = record s { pending = none }
commit_delete (p ∷ ps) s = record s {
  pending = none;
  commits = record { remaining = p ∷ ps; failed = [] } ∷ s.commits;
  sent = s.sent ++ p.id ∷ [];
}

-- Only one delete waits at a time; an earlier one goes through now.
unfoldable pub commit_earlier : Option Pending → Library → Library
commit_earlier none s = s
commit_earlier (some w) s = commit_delete w.prompts s

unfoldable pub hide_targets : List Prompt → Library → Library
hide_targets targets s = record s {
  prompts = update (without targets) s.prompts;
  pending = some (record { prompts = targets; timer = s.next_timer });
  undo_offer = some (record { prompts = targets; timer = s.next_timer });
  next_timer = s.next_timer + 1;
}

unfoldable pub remove_many : List Prompt → Library → Library
remove_many targets s = hide_targets targets (commit_earlier s.pending s)

unfoldable pub delete_selected : Library → Library
unfolding remove_many
delete_selected s = record (remove_many (selected_prompts s.selected (or_empty s.prompts)) s) {
  selected = [];
}

-- The toast's Undo.
unfoldable pub undo_from : Option Pending → Library → Library
undo_from none s = s
undo_from (some offer) s = record s {
  pending = none;
  prompts = update (λ ps. offer.prompts ++ ps) s.prompts;
  undo_offer = none;
}

unfoldable pub undo : Library → Library
unfolding undo_from
undo s = undo_from s.undo_offer s

-- The toast goes away, by its own timer or for another toast.
unfoldable pub toast_ends : Library → Library
toast_ends s = record s { undo_offer = none }

-- A timer runs unless it was cleared, which happens whenever `pending` changes.
unfoldable pub timer_from : Option Pending → ℕ → Library → Library
timer_from none timer s = s
timer_from (some w) timer s = if w.timer == timer then commit_delete w.prompts s else s

unfoldable pub timer_fires : ℕ → Library → Library
unfolding timer_from
timer_fires timer s = timer_from s.pending timer s

-- The end of `commitDelete`: what could not be deleted is shown again.
unfoldable pub show_failed : List Prompt → Option (List Prompt) → Option (List Prompt)
show_failed [] ps = ps
show_failed (p ∷ failed) ps = update (λ qs. (p ∷ failed) ++ qs) ps

-- `failed.push(prompt)` in the `catch`.
abbrev pub push_failed : Bool → Prompt → List Prompt → List Prompt
push_failed true p failed = failed
push_failed false p failed = failed ++ p ∷ []

-- The answer about `p`, with `rest` still to be sent by the commit and `others` under way. The
-- toast about failures takes the place of the Undo.
unfoldable pub after_reply : List Prompt → List Prompt → List Commit → Library → Library
after_reply [] failed others s = record s {
  prompts = show_failed failed s.prompts;
  commits = others;
  undo_offer = elim failed [ [] ↦ s.undo_offer | p ∷ ps ↦ none ];
}
after_reply (q ∷ rest) failed others s = record s {
  commits = record { remaining = q ∷ rest; failed = failed } ∷ others;
  sent = s.sent ++ q.id ∷ [];
}

-- The answer to the latest commit's request; `rotate` makes any other the latest.
unfoldable pub reply_from : Bool → List Commit → Library → Library
reply_from ok [] s = s
reply_from ok (c ∷ others) s = elim c.remaining [
  | [] ↦ s
  | p ∷ rest ↦ after_reply rest (push_failed ok p c.failed) others s
]

unfoldable pub reply : Bool → Library → Library
unfolding reply_from
reply ok s = reply_from ok s.commits s

-- Commits are independent of one another, so that their answers come in any order.
unfoldable pub rotate_commits : List Commit → List Commit
rotate_commits [] = []
rotate_commits (c ∷ cs) = cs ++ c ∷ []

unfoldable pub other_commit : Library → Library
unfolding rotate_commits
other_commit s = record s { commits = rotate_commits s.commits }

-- `flush`, when the page is hidden or left.
unfoldable pub flush_from : Option Pending → Library → Library
flush_from none s = s
flush_from (some w) s = record s { pending = none; sent = s.sent ++ ids w.prompts }

unfoldable pub flush : Library → Library
unfolding flush_from
flush s = flush_from s.pending s
