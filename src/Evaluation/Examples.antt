-- ===== src/Evaluation/Examples.antt =====
-- Tests of the status words, of the hook's handlers and of the theorems about them, on small runs.
use prompt_maker_studio.Base.{text, ℕ, ◌≡◌, refl, true, false, Option, none, some, List, [], ◌∷◌}
use prompt_maker_studio.Evaluation.Types.{judge, EvalResult, EvalRun}
use prompt_maker_studio.Evaluation.Status.{
  Status, awaiting_rating, has_failed, result_status, run_status, Agreement, judge_agreement,
}
use prompt_maker_studio.Evaluation.Hook.{
  Failure, api_error, Outcome, answered, View, runs_view, cases_view, Work, Answer, run_evaluation,
  refresh, Hook, Action, begin, start, settle, idle, append_older, has_run, begin_load,
}
use prompt_maker_studio.Evaluation.Steps.{answer_pending, settle_ends, budget_stops_ai}
use prompt_maker_studio.Evaluation.History.{HasDistinctIds, Step, Step-HasDistinctIds}

abbrev good : EvalResult
good = record {
  id = 1;
  method = judge;
  score = some 80000;
  human_score = some 60000;
  is_pending = false;
  output_text = some (text "Done.");
}

abbrev bad : EvalResult
bad = record {
  id = 2;
  method = judge;
  score = none;
  human_score = none;
  is_pending = false;
  output_text = none;
}

abbrev run_of : ℕ → Option ℕ → List EvalResult → EvalRun
run_of n points outcomes = record {
  id = n;
  prompt_version_number = 3;
  tested_version = some 3;
  score = points;
  results = outcomes;
}

status_test :
    (run_status (run_of 1 (some 80000) (good ∷ [])) ≡ Status.scored)
    × (run_status (run_of 2 (some 80000) (good ∷ bad ∷ [])) ≡ Status.partially_failed)
    × (run_status (run_of 3 none (bad ∷ [])) ≡ Status.failed)
    × (run_status (run_of 4 none []) ≡ Status.unscored)
unfolding run_status prompt_maker_studio.Evaluation.Status.result_failure
status_test = (refl, refl, refl, refl)

agreement_test :
    judge_agreement (run_of 1 none (good ∷ bad ∷ []) ∷ []) ≡ record { rated = 1; agreed = 1 }
unfolding judge_agreement prompt_maker_studio.Evaluation.Status.agrees
agreement_test = refl

abbrev hook : Hook
hook = record {
  current_version = 3;
  config = some (record { provider_connected = true; budget_exhausted = false });
  budget_rejection = none;
  cases = [];
  runs = run_of 7 none [] ∷ [];
  has_more_runs = true;
  history_generation = 2;
  error = none;
  ai_error = false;
  notice = none;
  pending = none;
  view = cases_view;
  editing = none;
  deleting = none;
  suggesting = false;
  proposals = [];
  selected_run_id = none;
}

abbrev running : Hook
running = record hook { pending = some run_evaluation }

run_test :
    (start Action.run hook ≡ running)
    × ((settle run_evaluation (answered (run_of 9 none [])) running).pending
        ≡ some (refresh (run_of 9 none [])))
    × ((settle (refresh (run_of 9 none [])) (answered (3 ∷ 5 ∷ [])) running).current_version ≡ 6)
unfolding start prompt_maker_studio.Evaluation.Hook.may_call_ai begin settle
    prompt_maker_studio.Evaluation.Hook.continue_with
    prompt_maker_studio.Evaluation.Hook.latest_version
run_test = (refl, refl, refl)

abbrev after_run : Hook
after_run = settle run_evaluation (answered (run_of 9 none [])) running

-- The server has a run for the call to evaluate, and fails every other call.
abbrev one_run : (w : Work) → Outcome (Answer w)
one_run run_evaluation = answered (run_of 9 none [])
one_run w = Outcome.failed (api_error 500 (text "Down"))

settle_ends_example :
    ((answer_pending one_run running).pending ≡ some (refresh (run_of 9 none [])))
    × ((answer_pending one_run (answer_pending one_run running)).pending ≡ none)
settle_ends_example = settle_ends one_run run_evaluation running refl

budget_stops_ai_example :
    let s' = settle run_evaluation (Outcome.failed (api_error 402 (text "Spent"))) running in
    (start Action.run s' ≡ s')
    × (start (Action.generate (text "tone")) s' ≡ s')
    × (s'.pending ≡ none)
budget_stops_ai_example = budget_stops_ai run_evaluation (text "Spent") (text "tone") running refl

Step-HasDistinctIds_example : HasDistinctIds after_run.runs
Step-HasDistinctIds_example =
    Step-HasDistinctIds (Step.answer run_evaluation (answered (run_of 9 none [])) running refl refl)
      (refl, tt)
