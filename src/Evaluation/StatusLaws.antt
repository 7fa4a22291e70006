-- ===== src/Evaluation/StatusLaws.antt =====
-- When a run counts as failed, partially failed, awaiting a rating, or scored.
use prompt_maker_studio.Base.{
  ◌==◌, if◌then◌else◌, Bool-cases, both, none_ne_some, false_ne_true, true_of_not, false_of_not,
  length, filter, any, all, All, length-filter-le, ◌≡◌, refl, sym, ◌∙◌, ◌≢◌, ◌↔◌, inl, inr, Bool,
  true, false, not, Option, none, some, List, [], ◌∷◌, arith,
}
use prompt_maker_studio.Evaluation.Types.{EvalResult, EvalRun}
use prompt_maker_studio.Evaluation.Status.{
  Status, failed, partially_failed, awaiting_rating, unscored, scored, is_none, has_failed,
  result_status, run_status,
}

none_fail :
    (p : EvalResult → Bool) (rs : List EvalResult) → (length (filter p rs) == 0) ≡ not (any p rs)
none_fail p [] = refl
none_fail p (r ∷ rs) = elim (Bool-cases (p r)) [
  | inl here ↦ rw here (ground arith)
  | inr later ↦ rw later (none_fail p rs)
]

all_fail :
    (p : EvalResult → Bool) (rs : List EvalResult) → (length (filter p rs) == length rs) ≡ all p rs
all_fail p [] = refl
all_fail p (r ∷ rs) = elim (Bool-cases (p r)) [
  | inl here ↦ rw here (ground (arith, all_fail p rs))
  | inr later ↦ rw later (ground (arith, length-filter-le p rs))
]

abbrev ladder : Bool → Bool → Bool → Bool → Status
ladder a b c d =
    if a
    then (if b then failed else partially_failed)
    else if c
    then awaiting_rating
    else if d
    then unscored
    else scored

ladder-scored : (a b c d : Bool) → ladder a b c d ≡ scored → (a ≡ false) × (c ≡ false) × (d ≡ false)
ladder-scored a b c d h = ground arith

ladder-failed : (a b c d : Bool) → ladder a b c d ≡ failed → (a ≡ true) × (b ≡ true)
ladder-failed a b c d h = ground arith

ladder-partially : (a b c d : Bool) → ladder a b c d ≡ partially_failed → (a ≡ true) × (b ≡ false)
ladder-partially a b c d h = ground arith

-- The counts of `runStatus` are the questions that they stand for.
run_status_lem :
    (run : EvalRun)
    → run_status run
      ≡ ladder
          (any has_failed run.results)
          (all has_failed run.results)
          (any (λ r. r.is_pending) run.results)
          (is_none run.score)
unfolding run_status
run_status_lem run =
    rw (none_fail has_failed run.results, all_fail has_failed run.results)
      (elim (Bool-cases (any has_failed run.results)) [ inl e ↦ rw e | inr e ↦ rw e ])

All-of-all :
    (p : EvalResult → Bool) (rs : List EvalResult) → (all p rs ≡ true) ↔ All (λ r. p r ≡ true) rs
All-of-all p [] = (λ h. tt, λ h. refl)
All-of-all p (r ∷ rs) = (
  λ h. let (a, b) = both (p r) (all p rs) h in (a, (All-of-all p rs).0 b),
  λ h. rw h.0 ((All-of-all p rs).1 h.1),
)

All-of-any :
    (p : EvalResult → Bool) (rs : List EvalResult) → (any p rs ≡ false) ↔ All (λ r. p r ≡ false) rs
All-of-any p [] = (λ h. tt, λ h. refl)
All-of-any p (r ∷ rs) = elim (Bool-cases (p r)) [
  | inl e ↦ (λ h. absurd (false_ne_true (sym h ∙ rw e)), λ h. absurd (false_ne_true (sym h.0 ∙ e)))
  | inr e ↦ (λ h. (e, (All-of-any p rs).0 (rw e at h)), λ h. rw e ((All-of-any p rs).1 h.1))
]

failed_iff : (r : EvalResult) → (has_failed r ≡ true) ↔ (result_status r ≡ failed)
unfolding result_status
failed_iff r = elim (Bool-cases (has_failed r)) [
  | inl e ↦ (λ h. rw e, λ h. e)
  | inr e ↦ (
    λ h. absurd (false_ne_true (sym e ∙ h)),
    λ h. absurd (not_failed r.is_pending (is_none r.score) (rw e at h)),
  )
]
  where
    not_failed :
        (p n : Bool) → ¬ ((if p then awaiting_rating else if n then unscored else scored) ≡ failed)
    not_failed true n h = cc
    not_failed false true h = cc
    not_failed false false h = cc

All-map :
    (P Q : EvalResult → Type 0)
    → ((r : EvalResult) → P r → Q r)
    → (rs : List EvalResult) → All P rs
    → All Q rs
All-map P Q f [] h = tt
All-map P Q f (r ∷ rs) (h, hs) = (f r h, All-map P Q f rs hs)

all-failed_iff :
    (rs : List EvalResult) → (all has_failed rs ≡ true) ↔ All (λ r. result_status r ≡ failed) rs
all-failed_iff rs = (
  λ h. All-map _ _ (λ r. (failed_iff r).0) rs ((All-of-all has_failed rs).0 h),
  λ h. (All-of-all has_failed rs).1 (All-map _ _ (λ r. (failed_iff r).1) rs h),
)

is_none_iff {ℓ} : {A : Type ℓ} (o : Option A) → (is_none o ≡ false) ↔ (o ≢ none)
is_none_iff none = (λ h. absurd (false_ne_true (sym h)), λ h. absurd (h refl))
is_none_iff (some a) = (λ h e. none_ne_some (sym e), λ h. refl)

-- A run is `Scored` exactly when no result has failed, none waits for a rating and there is a score.
pub run_status_scored :
    (run : EvalRun)
    → (run_status run ≡ scored) ↔ (
        All (λ r. has_failed r ≡ false) run.results
        × All (λ r. r.is_pending ≡ false) run.results
        × (run.score ≢ none))
run_status_scored run = (
  λ h.
      let (a, c, d) = ladder-scored _ _ _ _ (sym (run_status_lem run) ∙ h) in
      (
        (All-of-any has_failed run.results).0 a,
        (All-of-any (λ r. r.is_pending) run.results).0 c,
        (is_none_iff run.score).0 d,
      ),
  λ h.
      run_status_lem run
      ∙ rw
          (
            (All-of-any has_failed run.results).1 h.0,
            (All-of-any (λ r. r.is_pending) run.results).1 h.1,
            (is_none_iff run.score).1 h.2,
          )
          refl,
)

any_of_all :
    (p : EvalResult → Bool) (rs : List EvalResult) → rs ≢ [] → all p rs ≡ true → any p rs ≡ true
any_of_all p [] ne h = absurd (ne refl)
any_of_all p (r ∷ rs) ne h = rw (both (p r) (all p rs) h).0

any_not_nil : (p : EvalResult → Bool) (rs : List EvalResult) → any p rs ≡ true → rs ≢ []
any_not_nil p [] h e = false_ne_true h
any_not_nil p (r ∷ rs) h e = cc

-- A run is `Failed` exactly when it has results and every one of them has failed; with some failed
-- and some not it is `Partially failed`.
pub run_status_failed :
    (run : EvalRun)
    → ((run_status run ≡ failed)
        ↔ ((run.results ≢ []) × All (λ r. result_status r ≡ failed) run.results))
      × ((run_status run ≡ partially_failed) ↔ (
          ¬ (All (λ r. has_failed r ≡ false) run.results)
          × ¬ (All (λ r. result_status r ≡ failed) run.results)))
run_status_failed run =
    let rs = run.results in
    (
      (
        λ h.
            let (a, b) = ladder-failed _ _ _ _ (sym (run_status_lem run) ∙ h) in
            (any_not_nil has_failed rs a, (all-failed_iff rs).0 b),
        λ h.
            let b = (all-failed_iff rs).1 h.1 in
            run_status_lem run ∙ rw (any_of_all has_failed rs h.0 b, b) refl,
      ),
      (
        λ h.
            let (a, b) = ladder-partially _ _ _ _ (sym (run_status_lem run) ∙ h) in
            (
              λ none_failed. false_ne_true (sym ((All-of-any has_failed rs).1 none_failed) ∙ a),
              λ every. false_ne_true (sym b ∙ (all-failed_iff rs).1 every),
            ),
        λ h.
            run_status_lem run
            ∙ rw
                (
                  true_of_not _ (λ e. h.0 ((All-of-any has_failed rs).0 e)),
                  false_of_not _ (λ e. h.1 ((all-failed_iff rs).0 e)),
                )
                refl,
      ),
    )
