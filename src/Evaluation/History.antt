-- ===== src/Evaluation/History.antt =====
-- The list of runs: each run stands in it once.
use prompt_maker_studio.Base.{
  ◌==◌, ==_iff, Bool-cases, length, take, filter, All, take-append-length, ℕ, ◌≡◌, refl, ◌∙◌, subst,
  inl, inr, Bool, true, false, not, ◌||◌, Option, none, some, List, [], ◌∷◌, ◌++◌, arith,
}
use prompt_maker_studio.Evaluation.Types.{EvalCase, EvalRun}
use prompt_maker_studio.Evaluation.Hook.{
  Failure, Outcome, answered, failed, Work, Answer, run_evaluation, refresh, Hook, Action, Config,
  begin, start, settle, continue_with, catch_failure, append_older, replace_run, has_run,
  begin_load, leave_load, end_load, end_config,
}

-- Every id occurs once.
abbrev pub HasDistinctIds : List EvalRun → Type 0
HasDistinctIds [] = Unit
HasDistinctIds (r ∷ rs) = (has_run rs r.id ≡ false) × HasDistinctIds rs

has_run-append :
    (xs ys : List EvalRun) (id : ℕ) → has_run (xs ++ ys) id ≡ (has_run xs id || has_run ys id)
has_run-append [] ys id = refl
has_run-append (x ∷ xs) ys id = ground (arith, has_run-append xs ys id)

has_run-filter :
    (p : EvalRun → Bool) (xs : List EvalRun) (id : ℕ)
    → has_run xs id ≡ false
    → has_run (filter p xs) id ≡ false
has_run-filter p [] id h = refl
has_run-filter p (x ∷ xs) id h = ground (arith, has_run-filter p xs id)

HasDistinctIds-filter :
    (p : EvalRun → Bool) (xs : List EvalRun) → HasDistinctIds xs → HasDistinctIds (filter p xs)
HasDistinctIds-filter p [] d = tt
HasDistinctIds-filter p (x ∷ xs) (new, d) = elim (Bool-cases (p x)) [
  | inl keep ↦ rw keep (has_run-filter p xs x.id new, HasDistinctIds-filter p xs d)
  | inr cut ↦ rw cut (HasDistinctIds-filter p xs d)
]

-- No run of `current` is left in `ys`.
abbrev IsNewTo : List EvalRun → List EvalRun → Type 0
IsNewTo current = All (λ r. has_run current r.id ≡ false)

filter-IsNewTo :
    (current older : List EvalRun)
    → IsNewTo current (filter (λ r. not (has_run current r.id)) older)
filter-IsNewTo current [] = tt
filter-IsNewTo current (r ∷ older) = elim (Bool-cases (has_run current r.id)) [
  | inl known ↦ rw known (filter-IsNewTo current older)
  | inr new ↦ rw new (new, filter-IsNewTo current older)
]

IsNewTo-tail :
    (x : EvalRun) (xs ys : List EvalRun)
    → IsNewTo (x ∷ xs) ys
    → IsNewTo xs ys × (has_run ys x.id ≡ false)
IsNewTo-tail x xs [] h = (tt, refl)
IsNewTo-tail x xs (y ∷ ys) (here, h) =
    let (a, b) = IsNewTo-tail x xs ys h in ((ground arith, a), ground arith)

HasDistinctIds-append :
    (xs ys : List EvalRun)
    → HasDistinctIds xs
    → HasDistinctIds ys
    → IsNewTo xs ys
    → HasDistinctIds (xs ++ ys)
HasDistinctIds-append [] ys d e h = e
HasDistinctIds-append (x ∷ xs) ys (new, d) e h =
    let (a, b) = IsNewTo-tail x xs ys h in
    (has_run-append xs ys x.id ∙ rw (new, b) refl, HasDistinctIds-append xs ys d e a)

found_anyway :
    (current ys : List EvalRun) (id : ℕ)
    → (has_run current id || has_run (filter (λ r. not (has_run current r.id)) ys) id)
      ≡ (has_run current id || has_run ys id)
found_anyway current [] id = refl
found_anyway current (y ∷ ys) id = elim (Bool-cases (has_run current y.id)) [
  | inl known ↦ elim (Bool-cases (y.id == id)) [
    | inl this_one ↦
        let here = subst (λ n. has_run current n ≡ true) ((==_iff y.id id).0 this_one) known in
        rw here
    | inr other ↦ rw (known, other) (found_anyway current ys id)
  ]
  | inr new ↦ rw new (ground (arith, found_anyway current ys id))
]

-- When neither the runs shown nor the page of older runs repeat an id, the page is merged without
-- repeats, behind the runs shown, and none of it is lost.
pub append_older_lem :
    (current older : List EvalRun) (id : ℕ)
    → HasDistinctIds current
    → HasDistinctIds older
    → HasDistinctIds (append_older current older)
      × (has_run (append_older current older) id ≡ (has_run current id || has_run older id))
      × (take (length current) (append_older current older) ≡ current)
unfolding append_older
append_older_lem current older id d e =
    let new_runs = filter (λ r. not (has_run current r.id)) older in
    (
      HasDistinctIds-append current new_runs d (HasDistinctIds-filter _ older e)
          (filter-IsNewTo current older),
      has_run-append current new_runs id ∙ found_anyway current older id,
      take-append-length current new_runs,
    )

has_run-replace_run :
    (u : EvalRun) (rs : List EvalRun) (id : ℕ) → has_run (replace_run u rs) id ≡ has_run rs id
unfolding replace_run
has_run-replace_run u [] id = refl
has_run-replace_run u (r ∷ rs) id = ground (arith, has_run-replace_run u rs id)

HasDistinctIds-replace_run :
    (u : EvalRun) (rs : List EvalRun) → HasDistinctIds rs → HasDistinctIds (replace_run u rs)
unfolding replace_run
HasDistinctIds-replace_run u [] d = tt
HasDistinctIds-replace_run u (r ∷ rs) (new, d) = elim (Bool-cases (r.id == u.id)) [
  | inl this_one ↦ rw this_one (
    has_run-replace_run u rs u.id
        ∙ subst (λ n. has_run rs n ≡ false) ((==_iff r.id u.id).0 this_one) new,
    HasDistinctIds-replace_run u rs d,
  )
  | inr other ↦ rw other (has_run-replace_run u rs r.id ∙ new, HasDistinctIds-replace_run u rs d)
]

-- What the server is trusted with: a page of history repeats no run, and a new run has a new id.
abbrev pub IsTrue : (w : Work) → Outcome (Answer w) → Hook → Type 0
IsTrue (Work.load_older g n) (answered older) s = HasDistinctIds older
IsTrue run_evaluation (answered result) s = has_run s.runs result.id ≡ false
IsTrue w o s = Unit

-- The hook's transitions: a button, an answer to the call that is waited for, the loading effects.
pub data Step : Hook → Hook → Type 0 where
  act : (a : Action) (s : Hook) → Step s (start a s)
  answer :
      (w : Work) (o : Outcome (Answer w)) (s : Hook)
      → s.pending ≡ some w
      → IsTrue w o s
      → Step s (settle w o s)
  load : (s : Hook) → Step s (begin_load s)
  leave : (s : Hook) → Step s (leave_load s)
  loaded :
      (cs : List EvalCase) (history : List EvalRun) (versions : List ℕ) (s : Hook)
      → HasDistinctIds history
      → Step s (end_load cs history versions s)
  configured : (o : Outcome Config) (s : Hook) → Step s (end_config o s)

begin-runs : (w : Work) (s : Hook) → (begin w s).runs ≡ s.runs
unfolding begin
begin-runs w s = ground arith

delete-runs :
    (d : Option EvalCase) (s : Hook)
    → (elim d as (λ x. Hook) [ none ↦ s | some c ↦ begin (Work.delete_case c) s ]).runs ≡ s.runs
delete-runs none s = refl
delete-runs (some c) s = begin-runs (Work.delete_case c) s

start-runs : (a : Action) (s : Hook) → (start a s).runs ≡ s.runs
unfolding start
start-runs (Action.save_case input) s = begin-runs _ s
start-runs Action.load_older s = begin-runs _ s
start-runs Action.delete_case s = delete-runs s.deleting s
start-runs (Action.generate goal) s = ground (arith, begin-runs (Work.generate goal) s)
start-runs Action.run s = ground (arith, begin-runs run_evaluation s)
start-runs (Action.rate a b c) s = begin-runs _ s
start-runs (Action.import_csv csv) s = begin-runs _ s
start-runs Action.export_csv s = begin-runs _ s

catch_failure-runs : (w : Work) (f : Failure) (s : Hook) → (catch_failure w f s).runs ≡ s.runs
unfolding catch_failure
catch_failure-runs w f s = ground arith

settle-HasDistinctIds :
    (w : Work) (o : Outcome (Answer w)) (s : Hook)
    → IsTrue w o s
    → HasDistinctIds s.runs
    → HasDistinctIds (settle w o s).runs
unfolding settle continue_with
settle-HasDistinctIds (Work.save_case e i) (answered a) s t d = d
settle-HasDistinctIds (Work.save_case e i) (failed f) s t d =
    rw (catch_failure-runs (Work.save_case e i) f s) d
settle-HasDistinctIds (Work.load_older g n) (answered older) s t d =
    elim (Bool-cases (g == s.history_generation)) [
      | inl current ↦ rw current (append_older_lem s.runs older 0 d t).0
      | inr stale ↦ rw stale d
    ]
settle-HasDistinctIds (Work.load_older g n) (failed f) s t d =
    elim (Bool-cases (g == s.history_generation)) [
      | inl current ↦ rw (current, catch_failure-runs (Work.load_older g n) f s) d
      | inr stale ↦ rw stale d
    ]
settle-HasDistinctIds (Work.delete_case c) (answered a) s t d = d
settle-HasDistinctIds (Work.delete_case c) (failed f) s t d =
    rw (catch_failure-runs (Work.delete_case c) f s) d
settle-HasDistinctIds (Work.generate goal) (answered a) s t d = d
settle-HasDistinctIds (Work.generate goal) (failed f) s t d =
    rw (catch_failure-runs (Work.generate goal) f s) d
settle-HasDistinctIds run_evaluation (answered result) s t d = (t, d)
settle-HasDistinctIds run_evaluation (failed f) s t d = rw (catch_failure-runs run_evaluation f s) d
settle-HasDistinctIds (refresh r) (answered a) s t d = d
settle-HasDistinctIds (refresh r) (failed f) s t d = d
settle-HasDistinctIds (Work.rate a b c) (answered u) s t d = HasDistinctIds-replace_run u s.runs d
settle-HasDistinctIds (Work.rate a b c) (failed f) s t d =
    rw (catch_failure-runs (Work.rate a b c) f s) d
settle-HasDistinctIds (Work.import_csv csv) (answered a) s t d = d
settle-HasDistinctIds (Work.import_csv csv) (failed f) s t d =
    rw (catch_failure-runs (Work.import_csv csv) f s) d
settle-HasDistinctIds Work.export_csv (answered a) s t d = d
settle-HasDistinctIds Work.export_csv (failed f) s t d =
    rw (catch_failure-runs Work.export_csv f s) d

-- When the list repeats no run, no transition makes it do so, as long as the server's pages repeat
-- none and its new runs have new ids.
pub Step-HasDistinctIds : {s s' : Hook} → Step s s' → HasDistinctIds s.runs → HasDistinctIds s'.runs
Step-HasDistinctIds (act a s) d = rw (start-runs a s) d
Step-HasDistinctIds (answer w o s h t) d = settle-HasDistinctIds w o s t d
Step-HasDistinctIds (load s) d = unfold begin_load in d
Step-HasDistinctIds (leave s) d = unfold leave_load in d
Step-HasDistinctIds (loaded cs history versions s h) d = unfold end_load in h
Step-HasDistinctIds (configured (answered c) s) d = unfold end_config in d
Step-HasDistinctIds (configured (failed f) s) d = unfold end_config in d
