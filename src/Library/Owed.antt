-- ===== src/Library/Owed.antt =====
-- No removed prompt is forgotten: it waits for its undo window, or in a commit, or its request is sent.
use prompt_maker_studio.Base.{
  ◌==◌, Bool-cases, false_ne_true, ℕ, ◌≡◌, refl, sym, ap, ◌∙◌, subst, inl, inr, Bool, true, false,
  ◌||◌, Option, none, some, List, [], ◌∷◌, ◌++◌, arith,
}
use prompt_maker_studio.Library.Prompts.{Prompt, has_id, includes_id, selected_prompts, or_empty}
use prompt_maker_studio.Library.Deletion.{
  Pending, Commit, Library, ids, loaded, commit_delete, commit_earlier, hide_targets, remove_many,
  delete_selected, toast_ends, timer_from, timer_fires, push_failed, after_reply, reply_from, reply,
  rotate_commits, other_commit, flush_from, flush,
}

-- What a commit has still to send: the first of `remaining` is on its way.
abbrev pub unsent : List Prompt → List Prompt
unsent [] = []
unsent (p ∷ ps) = ps

abbrev pub commits_owe : List Commit → ℕ → Bool
commits_owe [] id = false
commits_owe (c ∷ cs) id = has_id (unsent c.remaining) id || commits_owe cs id

abbrev pub pending_owes : Option Pending → ℕ → Bool
pending_owes none id = false
pending_owes (some w) id = has_id w.prompts id

abbrev pub owed : Library → ℕ → Bool
owed s id = includes_id s.sent id || pending_owes s.pending id || commits_owe s.commits id

includes_id-append :
    (xs ys : List ℕ) (id : ℕ) → includes_id (xs ++ ys) id ≡ (includes_id xs id || includes_id ys id)
includes_id-append [] ys id = refl
includes_id-append (x ∷ xs) ys id = ground (arith, includes_id-append xs ys id)

includes_id-ids : (ps : List Prompt) (id : ℕ) → includes_id (ids ps) id ≡ has_id ps id
includes_id-ids [] id = refl
includes_id-ids (p ∷ ps) id = ground (arith, includes_id-ids ps id)

commits_owe-append :
    (cs ds : List Commit) (id : ℕ)
    → commits_owe (cs ++ ds) id ≡ (commits_owe cs id || commits_owe ds id)
commits_owe-append [] ds id = refl
commits_owe-append (c ∷ cs) ds id = ground (arith, commits_owe-append cs ds id)

-- Starting to commit what was pending loses nothing.
commit_delete-owed :
    (ps : List Prompt) (s : Library) (id : ℕ)
    → (includes_id s.sent id || has_id ps id || commits_owe s.commits id) ≡ true
    → owed (commit_delete ps s) id ≡ true
unfolding commit_delete
commit_delete-owed [] s id h = ground arith
commit_delete-owed (p ∷ ps) s id h = ground (arith, includes_id-append s.sent (p.id ∷ []) id)

commit_earlier-owed :
    (w : Option Pending) (s : Library) (id : ℕ)
    → (includes_id s.sent id || pending_owes w id || commits_owe s.commits id) ≡ true
    → owed (commit_earlier w s) id ≡ true
unfolding commit_earlier
commit_earlier-owed none s id h = ground arith
commit_earlier-owed (some w) s id h = commit_delete-owed w.prompts s id h

commit_delete-pending : (ps : List Prompt) (s : Library) → (commit_delete ps s).pending ≡ none
unfolding commit_delete
commit_delete-pending [] s = refl
commit_delete-pending (p ∷ ps) s = refl

-- After an earlier delete has gone through, nothing is pending.
commit_earlier-pending :
    (w : Option Pending) (s : Library) → s.pending ≡ w → (commit_earlier w s).pending ≡ none
unfolding commit_earlier
commit_earlier-pending none s h = h
commit_earlier-pending (some w) s h = commit_delete-pending w.prompts s

regroup : (a b c d : Bool) → (a || b || c) ≡ true → b ≡ false → (a || d || c) ≡ true
regroup true b c d h e = refl
regroup false true c d h e = absurd (false_ne_true (sym e))
regroup false false c true h e = refl
regroup false false c false h e = h

without_middle : (a b c : Bool) → b ≡ false → (a || b || c) ≡ true → (a || c) ≡ true
without_middle true b c e h = refl
without_middle false true c e h = absurd (false_ne_true (sym e))
without_middle false false c e h = h

remove_many-keeps :
    (targets : List Prompt) (s : Library) (id : ℕ)
    → owed s id ≡ true
    → owed (remove_many targets s) id ≡ true
unfolding remove_many hide_targets
remove_many-keeps targets s id h =
    regroup _ (pending_owes (commit_earlier s.pending s).pending id) _ (has_id targets id)
      (commit_earlier-owed s.pending s id h)
      (ap (λ w. pending_owes w id) (commit_earlier-pending s.pending s refl))

-- Removing prompts makes each of them owed.
pub remove_many-owed :
    (targets : List Prompt) (s : Library) (id : ℕ)
    → has_id targets id ≡ true
    → owed (remove_many targets s) id ≡ true
unfolding remove_many hide_targets
remove_many-owed targets s id h = rw h (ground arith)

timer_from-keeps :
    (w : Option Pending) (timer : ℕ) (s : Library) (id : ℕ)
    → s.pending ≡ w
    → owed s id ≡ true
    → owed (timer_from w timer s) id ≡ true
unfolding timer_from
timer_from-keeps none timer s id e h = h
timer_from-keeps (some w) timer s id e h = elim (Bool-cases (w.timer == timer)) [
  | inl this_one ↦ rw this_one (
      commit_delete-owed w.prompts s id (
        subst (λ v. (includes_id s.sent id || pending_owes v id || commits_owe s.commits id) ≡ true)
          e h))
  | inr other ↦ rw other h
]

after_reply-keeps :
    (rest failed : List Prompt) (others : List Commit) (s : Library) (id : ℕ)
    → (includes_id s.sent id
        || pending_owes s.pending id
        || (has_id rest id || commits_owe others id))
      ≡ true
    → owed (after_reply rest failed others s) id ≡ true
unfolding after_reply
after_reply-keeps [] failed others s id h = h
after_reply-keeps (q ∷ rest) failed others s id h =
    ground (arith, includes_id-append s.sent (q.id ∷ []) id)

reply_from-keeps :
    (ok : Bool) (cs : List Commit) (s : Library) (id : ℕ)
    → s.commits ≡ cs
    → owed s id ≡ true
    → owed (reply_from ok cs s) id ≡ true
unfolding reply_from
reply_from-keeps ok [] s id e h = h
reply_from-keeps ok (c ∷ others) s id e h = by_remaining c.remaining (
    subst (λ cs. (includes_id s.sent id || pending_owes s.pending id || commits_owe cs id) ≡ true) e
      h)
  where
    by_remaining :
        (rem : List Prompt)
        → (includes_id s.sent id
            || pending_owes s.pending id
            || (has_id (unsent rem) id || commits_owe others id))
          ≡ true
        → owed
            (elim rem as (λ x. Library) [
              | [] ↦ s
              | p ∷ rest ↦ after_reply rest (push_failed ok p c.failed) others s
            ])
            id
          ≡ true
    by_remaining [] k = h
    by_remaining (p ∷ rest) k = after_reply-keeps rest (push_failed ok p c.failed) others s id k

rotate_commits-owe :
    (cs : List Commit) (id : ℕ) → commits_owe (rotate_commits cs) id ≡ commits_owe cs id
unfolding rotate_commits
rotate_commits-owe [] id = refl
rotate_commits-owe (c ∷ cs) id = commits_owe-append cs (c ∷ []) id ∙ ground arith

flush_from-keeps :
    (w : Option Pending) (s : Library) (id : ℕ)
    → s.pending ≡ w
    → owed s id ≡ true
    → owed (flush_from w s) id ≡ true
unfolding flush_from
flush_from-keeps none s id e h = h
flush_from-keeps (some w) s id e h =
    let k =
      subst (λ v. (includes_id s.sent id || pending_owes v id || commits_owe s.commits id) ≡ true) e
        h in
    ground (arith, includes_id-append s.sent (ids w.prompts) id, includes_id-ids w.prompts id)

-- What can happen to the library, but for Undo: the user, timers, answers and the browser.
pub data Step : Library → Library → Type 0 where
  remove : (targets : List Prompt) (s : Library) → Step s (remove_many targets s)
  remove_selected : (s : Library) → Step s (delete_selected s)
  timer : (t : ℕ) (s : Library) → Step s (timer_fires t s)
  answer : (ok : Bool) (s : Library) → Step s (reply ok s)
  other_answer : (s : Library) → Step s (other_commit s)
  load : (prompts : List Prompt) (s : Library) → Step s (loaded prompts s)
  toast : (s : Library) → Step s (toast_ends s)
  leave : (s : Library) → Step s (flush s)

pub data Reach (s : Library) : Library → Type 0 where
  here : Reach s s
  next : {t u : Library} → Reach s t → Step t u → Reach s u

Step-owed : {s s' : Library} (id : ℕ) → Step s s' → owed s id ≡ true → owed s' id ≡ true
Step-owed id (remove targets s) h = remove_many-keeps targets s id h
Step-owed id (remove_selected s) h =
    unfold delete_selected in
    remove_many-keeps (selected_prompts s.selected (or_empty s.prompts)) s id h
Step-owed id (timer t s) h = unfold timer_fires in timer_from-keeps s.pending t s id refl h
Step-owed id (answer ok s) h = unfold reply in reply_from-keeps ok s.commits s id refl h
Step-owed id (other_answer s) h = unfold other_commit in rw (rotate_commits-owe s.commits id) h
Step-owed id (load prompts s) h = unfold loaded in h
Step-owed id (toast s) h = unfold toast_ends in h
Step-owed id (leave s) h = unfold flush in flush_from-keeps s.pending s id refl h

Reach-owed : {s s' : Library} (id : ℕ) → Reach s s' → owed s id ≡ true → owed s' id ≡ true
Reach-owed id here h = h
Reach-owed id (next r st) h = Step-owed id st (Reach-owed id r h)

flush-pending : (w : Option Pending) (s : Library) → s.pending ≡ w → (flush_from w s).pending ≡ none
unfolding flush_from
flush-pending none s e = e
flush-pending (some w) s e = refl

flush-commits : (w : Option Pending) (s : Library) → (flush_from w s).commits ≡ s.commits
unfolding flush_from
flush-commits none s = refl
flush-commits (some w) s = refl

-- A removed prompt that is not undone reaches the server: whatever else happens, when the page is
-- left its delete request has been sent, or a commit that is under way has still to send it.
pub removed_is_sent :
    (targets : List Prompt) (s s' : Library) (id : ℕ)
    → has_id targets id ≡ true
    → Reach (remove_many targets s) s'
    → (includes_id (flush s').sent id || commits_owe s'.commits id) ≡ true
unfolding flush
removed_is_sent targets s s' id h r =
    let k =
      flush_from-keeps s'.pending s' id refl (Reach-owed id r (remove_many-owed targets s id h)) in
    subst (λ cs. (includes_id (flush_from s'.pending s').sent id || commits_owe cs id) ≡ true)
      (flush-commits s'.pending s')
      (without_middle _ _ _ (ap (λ w. pending_owes w id) (flush-pending s'.pending s' refl)) k)
