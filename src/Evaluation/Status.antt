-- ===== src/Evaluation/Status.antt =====
-- lib/evaluationStatus.ts: the status words of results and runs. The words are constructors.
use mathlib.Core.Option
use prompt_maker_studio.Base.{
  leb, ◌==◌, if◌then◌else◌, length, filter, any, concat, ℕ, ◌+◌, ◌-◌, ◌/◌, Bool, true, false, not,
  ◌&&◌, Option, none, some, List, map,
}
use prompt_maker_studio.Evaluation.Types.{EvalMethod, judge, EvalResult, EvalRun}

pub data ResultFailure : Type 0 where
  generation scoring : ResultFailure

pub data Status : Type 0 where
  failed partially_failed awaiting_rating unscored scored : Status

abbrev pub is_none {ℓ} : {A : Type ℓ} → Option A → Bool
is_none none = true
is_none (some a) = false

abbrev pub is_judge : EvalMethod → Bool
is_judge judge = true
is_judge _ = false

unfoldable pub result_failure : EvalResult → Option ResultFailure
result_failure r =
    if is_none r.output_text && not r.is_pending && is_none r.score
    then some generation
    else if is_judge r.method && not r.is_pending && is_none r.score
    then some scoring
    else none

abbrev pub has_failed : EvalResult → Bool
has_failed r = not (is_none (result_failure r))

unfoldable pub result_status : EvalResult → Status
result_status r =
    if has_failed r
    then failed
    else if r.is_pending
    then awaiting_rating
    else if is_none r.score
    then unscored
    else scored

unfoldable pub run_status : EvalRun → Status
run_status run =
    let failures = length (filter has_failed run.results) in
    if failures == 0
    then (if any (λ r. r.is_pending) run.results
        then awaiting_rating
        else if is_none run.score
        then unscored
        else scored)
    else if failures == length run.results
    then failed
    else partially_failed

-- `Math.round`, in points.
unfoldable pub round_points : ℕ → ℕ
round_points thousandths = (thousandths + 500) / 1000

-- The status word, and the points shown behind it.
unfoldable pub run_score_label : EvalRun → Status × Option ℕ
run_score_label run = (run_status run, Option.map round_points run.score)

-- `method === 'judge' && score !== null && human_score !== null`
abbrev pub is_rated : EvalResult → Bool
is_rated r = is_judge r.method && not (is_none r.score) && not (is_none r.human_score)

abbrev pub distance : ℕ → ℕ → ℕ
distance a b = (a - b) + (b - a)

-- `Math.abs(score - human_score) <= 20`, in points.
unfoldable pub agrees : Option ℕ → Option ℕ → Bool
agrees (some a) (some b) = leb (distance a b) 20000
agrees _ _ = false

unfoldable pub rated_results : List EvalRun → List EvalResult
rated_results runs = filter is_rated (concat (map (λ run. run.results) runs))

pub record Agreement : Type 0 where
  pub rated : ℕ
  pub agreed : ℕ

unfoldable pub judge_agreement : List EvalRun → Agreement
unfolding rated_results
judge_agreement runs = record {
  rated = length (rated_results runs);
  agreed = length (filter (λ r. agrees r.score r.human_score) (rated_results runs));
}

-- A version number, or none for an unsaved draft.
unfoldable pub run_version_label : EvalRun → Option ℕ
run_version_label run = run.tested_version
