-- ===== src/Settings/Laws.antt =====
-- The saves of the library view: only the latest shows its outcome, and the page never stays at
-- Saving.
use prompt_maker_studio.Base.{
  ◌==◌, if◌then◌else◌, ==_iff, ==_refl, Bool-cases, false_ne_true, false_of_not, filter, any, Text,
  ℕ, ◌+◌, ◌≡◌, refl, sym, ap, ◌∙◌, subst, ◌≢◌, inl, inr, Bool, true, false, not, Option, none, some,
  List, [], ◌∷◌, ◌++◌, arith,
}
use prompt_maker_studio.Api.{Outcome, answered, failed}
use prompt_maker_studio.Settings.{
  User, Settings, SaveStatus, saving, change_view, settle_view, view_timer, take_view_answer,
  view_outcome, hide_saved, start_username, start_email, start_export, start_sign_out, start_delete,
  close_delete_confirm, settle_username, settle_email, settle_export, export_timer, settle_sign_out,
  settle_delete,
}
use prompt_maker_studio.Settings.Events.{
  Event, handle, run, submit_username, submit_email, change_library_view, view_timer_fires,
  sign_out_everywhere, delete_account, close_confirm, username_answer, email_answer, view_answer,
  export_answer, export_timer_fires, sign_out_answer, delete_answer,
}

abbrev has : List ℕ → ℕ → Bool
has ns m = any (λ n. n == m) ns

has-snoc : (ns : List ℕ) (m : ℕ) → has (ns ++ m ∷ []) m ≡ true
has-snoc [] m = rw (==_refl m) refl
has-snoc (n ∷ ns) m = rw (has-snoc ns m) (ground arith)

has-without :
    (ns : List ℕ) (gone m : ℕ)
    → (m == gone) ≡ false
    → has (filter (λ n. not (n == gone)) ns) m ≡ has ns m
has-without [] gone m h = refl
has-without (n ∷ ns) gone m h = elim (Bool-cases (n == gone)) [
  | inl out ↦ rw (out, has-without ns gone m h, (==_iff n gone).0 out) (ground arith)
  | inr stays ↦ rw (stays, has-without ns gone m h) refl
]

-- While the page says Saving, the latest save has not been answered.
abbrev pub IsWaiting : Settings → Type 0
IsWaiting s = s.view_save ≡ some saving → has s.in_flight s.sequence ≡ true

-- The parts that the saves of the view stand in.
abbrev Saves : Type 0
Saves = Option SaveStatus × List ℕ × ℕ

abbrev saves : Settings → Saves
saves s = (s.view_save, s.in_flight, s.sequence)

saves-IsWaiting : (a b : Settings) → saves a ≡ saves b → IsWaiting b → IsWaiting a
saves-IsWaiting a b e h = subst (λ (p : Saves). p.0 ≡ some saving → has p.1 p.2 ≡ true) (sym e) h

settle_view-IsWaiting :
    (n : ℕ) (o : Outcome User) (s : Settings) → IsWaiting s → IsWaiting (settle_view n o s)
unfolding settle_view
settle_view-IsWaiting n o s h = elim (Bool-cases (has s.in_flight n)) [
  | inr unknown ↦
      subst (λ b. IsWaiting (if b then take_view_answer n o (gone s) else s)) (sym unknown) h
  | inl known ↦
      subst (λ b. IsWaiting (if b then take_view_answer n o (gone s) else s)) (sym known)
        (elim (Bool-cases (s.sequence == n)) [
          | inl latest ↦
              subst (λ b. IsWaiting (if b then view_outcome n o (gone s) else gone s)) (sym latest)
                (answered_is_over o)
          | inr stale ↦
              subst (λ b. IsWaiting (if b then view_outcome n o (gone s) else gone s)) (sym stale)
                (λ e. has-without s.in_flight n s.sequence stale ∙ h e)
        ])
]
  where
    gone : Settings → Settings
    gone s = record s { in_flight = filter (λ m. not (m == n)) s.in_flight }

    answered_is_over : (o : Outcome User) → IsWaiting (view_outcome n o (gone s))
    answered_is_over (answered u) e = cc
    answered_is_over (failed f) e = cc

view_timer-IsWaiting : (s : Settings) → IsWaiting s → IsWaiting (view_timer s)
unfolding view_timer
view_timer-IsWaiting s h = by_timer s.timer
  where
    by_sequence :
        (n : ℕ) (b : Bool)
        → IsWaiting
            (if b then record s { timer = none; view_save = none } else record s { timer = none })
    by_sequence n true e = cc
    by_sequence n false e = h e

    by_timer :
        (t : Option ℕ)
        → IsWaiting (elim t [ none ↦ s | some n ↦ hide_saved n (record s { timer = none }) ])
    by_timer none = h
    by_timer (some n) = by_sequence n (s.sequence == n)

start_username-saves : (s : Settings) → saves (start_username s) ≡ saves s
unfolding start_username
start_username-saves s = ground arith

start_email-saves : (s : Settings) → saves (start_email s) ≡ saves s
unfolding start_email
start_email-saves s = ground arith

start_export-saves : (s : Settings) → saves (start_export s) ≡ saves s
unfolding start_export
start_export-saves s = refl

start_sign_out-saves : (s : Settings) → saves (start_sign_out s) ≡ saves s
unfolding start_sign_out
start_sign_out-saves s = refl

start_delete-saves : (s : Settings) → saves (start_delete s) ≡ saves s
unfolding start_delete
start_delete-saves s = refl

close_delete_confirm-saves : (s : Settings) → saves (close_delete_confirm s) ≡ saves s
unfolding close_delete_confirm
close_delete_confirm-saves s = refl

settle_username-saves : (o : Outcome User) (s : Settings) → saves (settle_username o s) ≡ saves s
unfolding settle_username
settle_username-saves (answered u) s = refl
settle_username-saves (failed f) s = refl

settle_email-saves : (o : Outcome User) (s : Settings) → saves (settle_email o s) ≡ saves s
unfolding settle_email
settle_email-saves (answered u) s = refl
settle_email-saves (failed f) s = refl

settle_export-saves :
    (file : Text) (o : Outcome Unit) (s : Settings) → saves (settle_export file o s) ≡ saves s
unfolding settle_export
settle_export-saves file (answered u) s = refl
settle_export-saves file (failed f) s = refl

export_timer-saves : (file : Text) (s : Settings) → saves (export_timer file s) ≡ saves s
unfolding export_timer
export_timer-saves file s = ground arith

settle_sign_out-saves : (o : Outcome Unit) (s : Settings) → saves (settle_sign_out o s) ≡ saves s
unfolding settle_sign_out
settle_sign_out-saves (answered u) s = refl
settle_sign_out-saves (failed f) s = refl

settle_delete-saves : (o : Outcome Unit) (s : Settings) → saves (settle_delete o s) ≡ saves s
unfolding settle_delete
settle_delete-saves (answered u) s = refl
settle_delete-saves (failed f) s = refl

handle-IsWaiting : (ev : Event) (s : Settings) → IsWaiting s → IsWaiting (handle ev s)
unfolding handle change_view
handle-IsWaiting change_library_view s h = λ e. has-snoc s.in_flight (s.sequence + 1)
handle-IsWaiting (view_answer n o) s h = settle_view-IsWaiting n o s h
handle-IsWaiting view_timer_fires s h = view_timer-IsWaiting s h
handle-IsWaiting submit_username s h =
    saves-IsWaiting (start_username s) s (start_username-saves s) h
handle-IsWaiting submit_email s h = saves-IsWaiting (start_email s) s (start_email-saves s) h
handle-IsWaiting Event.export s h = saves-IsWaiting (start_export s) s (start_export-saves s) h
handle-IsWaiting sign_out_everywhere s h =
    saves-IsWaiting (start_sign_out s) s (start_sign_out-saves s) h
handle-IsWaiting delete_account s h = saves-IsWaiting (start_delete s) s (start_delete-saves s) h
handle-IsWaiting close_confirm s h =
    saves-IsWaiting (close_delete_confirm s) s (close_delete_confirm-saves s) h
handle-IsWaiting (username_answer o) s h =
    saves-IsWaiting (settle_username o s) s (settle_username-saves o s) h
handle-IsWaiting (email_answer o) s h =
    saves-IsWaiting (settle_email o s) s (settle_email-saves o s) h
handle-IsWaiting (export_answer file o) s h =
    saves-IsWaiting (settle_export file o s) s (settle_export-saves file o s) h
handle-IsWaiting (export_timer_fires file) s h =
    saves-IsWaiting (export_timer file s) s (export_timer-saves file s) h
handle-IsWaiting (sign_out_answer o) s h =
    saves-IsWaiting (settle_sign_out o s) s (settle_sign_out-saves o s) h
handle-IsWaiting (delete_answer o) s h =
    saves-IsWaiting (settle_delete o s) s (settle_delete-saves o s) h

-- When a page that says Saving waits for its latest save, then whatever happens on it, in whatever
-- order the answers come: once every save of the view has been answered, it does not say Saving.
pub saving_ends :
    (evs : List Event) (s : Settings)
    → IsWaiting s
    → (run evs s).in_flight ≡ []
    → (run evs s).view_save ≢ some saving
unfolding run
saving_ends [] s h none_left e = false_ne_true (ap (λ ns. has ns s.sequence) (sym none_left) ∙ h e)
saving_ends (ev ∷ evs) s h none_left e =
    saving_ends evs (handle ev s) (handle-IsWaiting ev s h) none_left e

-- An answer to an earlier save of the view changes nothing that the page shows: only the list of
-- saves under way.
pub settle_view_stale :
    (n : ℕ) (o : Outcome User) (s : Settings)
    → s.sequence ≢ n
    → settle_view n o s ≡ record s { in_flight = (settle_view n o s).in_flight }
unfolding settle_view
settle_view_stale n o s h =
    rw (false_of_not (s.sequence == n) (λ t. h ((==_iff s.sequence n).0 t))) (ground arith)
