-- ===== src/Evaluation/Hook.antt =====
-- features/evaluation/useEvaluation.ts: the state of the hook and its handlers. A handler that calls
-- the server is two transitions: `start` runs it to the call, with what its closure has captured,
-- and `settle` continues with the answer. `run` makes a second call, `refresh`.
use prompt_maker_studio.Base.{
  ◌==◌, if◌then◌else◌, length, filter, any, Text, text, decimal, ℕ, zero, suc, ◌+◌, max, Bool, true,
  false, not, ◌&&◌, ◌||◌, Option, none, some, List, [], ◌∷◌, ◌++◌, map,
}
pub use prompt_maker_studio.Api.{
  Failure, api_error, other_error, not_an_error, Outcome, answered, failed,
}
use prompt_maker_studio.Session.Storage.{storage_key}
use prompt_maker_studio.Evaluation.Types.{EvalCase, EvalCaseInput, EvalProposal, EvalRun}
use prompt_maker_studio.Evaluation.Status.{Status, run_status}

pub record Config : Type 0 where
  pub provider_connected : Bool
  pub budget_exhausted : Bool

-- `Editing`: the case to change, if there is one, and the proposal that the form came from.
pub record Editing : Type 0 where
  pub case_id : Option ℕ
  pub proposal_index : Option ℕ

pub data View : Type 0 where
  cases_view runs_view : View

-- The notices of the handlers.
pub data Notice : Type 0 where
  case_saved case_deleted rating_saved exported : Notice
  suggestions : (any_returned : Bool) → Notice
  evaluated : Status → Notice
  imported : ℕ → Notice

-- The error shown: what a call reported, or that the version could not be refreshed after a run.
pub data ErrorText : Type 0 where
  reported : Text → ErrorText
  request_failed refresh_failed : ErrorText

-- The work of a handler, with the values that its closure holds.
pub data Work : Type 0 where
  save_case : Option Editing → EvalCaseInput → Work
  load_older : (generation offset : ℕ) → Work
  delete_case : EvalCase → Work
  generate : (goal : Text) → Work
  run_evaluation : Work
  refresh : EvalRun → Work
  rate : (run_id result_id stars : ℕ) → Work
  import_csv : Text → Work
  export_csv : Work

-- What the server answers to each; `refresh` gets the version numbers.
abbrev pub Answer : Work → Type 0
Answer (save_case e input) = EvalCase
Answer (load_older g n) = List EvalRun
Answer (delete_case c) = Unit
Answer (generate goal) = List EvalProposal
Answer run_evaluation = EvalRun
Answer (refresh r) = List ℕ
Answer (rate a b c) = EvalRun
Answer (import_csv s) = List EvalCase
Answer export_csv = Unit

pub record Hook : Type 0 where
  pub current_version : ℕ
  pub config : Option Config
  pub budget_rejection : Option Failure
  pub cases : List EvalCase
  pub runs : List EvalRun
  pub has_more_runs : Bool
  pub history_generation : ℕ
  pub error : Option ErrorText
  pub ai_error : Bool
  pub notice : Option Notice
  pub pending : Option Work
  pub view : View
  pub editing : Option Editing
  pub deleting : Option EvalCase
  pub suggesting : Bool
  pub proposals : List EvalProposal
  pub selected_run_id : Option ℕ

abbrev pub history_page_size : ℕ
history_page_size = 50

-- The start of `perform`: the guard, and what every action resets.
unfoldable pub begin : Work → Hook → Hook
begin w s = elim s.pending [
  | some other ↦ s
  | none ↦ record s { pending = some w; error = none; ai_error = false; notice = none }
]

-- `!config?.provider_connected || config.budget_exhausted || budgetRejection` negated.
unfoldable pub may_call_ai : Hook → Bool
may_call_ai s = elim s.config [
  | none ↦ false
  | some c ↦
      c.provider_connected
      && not c.budget_exhausted
      && elim s.budget_rejection [ none ↦ true | some f ↦ false ]
]

-- The buttons of the page.
pub data Action : Type 0 where
  save_case : EvalCaseInput → Action
  load_older delete_case run export_csv : Action
  generate : (goal : Text) → Action
  rate : (run_id result_id stars : ℕ) → Action
  import_csv : Text → Action

unfoldable pub start : Action → Hook → Hook
start (Action.save_case input) s = begin (Work.save_case s.editing input) s
start Action.load_older s = begin (Work.load_older s.history_generation (length s.runs)) s
start Action.delete_case s = elim s.deleting [ none ↦ s | some c ↦ begin (Work.delete_case c) s ]
start (Action.generate goal) s = if may_call_ai s then begin (Work.generate goal) s else s
start Action.run s = if may_call_ai s then begin run_evaluation s else s
start (Action.rate a b c) s = begin (Work.rate a b c) s
start (Action.import_csv csv) s = begin (Work.import_csv csv) s
start Action.export_csv s = begin Work.export_csv s

abbrev pub is_ai_work : Work → Bool
is_ai_work (Work.generate goal) = true
is_ai_work run_evaluation = true
is_ai_work _ = false

abbrev pub error_text : Failure → ErrorText
error_text (api_error status message) = reported message
error_text (other_error message) = reported message
error_text not_an_error = request_failed

abbrev pub is_budget_failure : Failure → Bool
is_budget_failure (api_error status message) = status == 402
is_budget_failure _ = false

-- The `finally` of `perform`.
abbrev pub idle : Hook → Hook
idle s = record s { pending = none }

-- The `catch` of `perform`.
unfoldable pub catch_failure : Work → Failure → Hook → Hook
catch_failure w f s =
    if is_budget_failure f
    then record s { budget_rejection = some f; error = some (error_text f) }
    else record s { ai_error = is_ai_work w || s.ai_error; error = some (error_text f) }

-- `current.map(item => item.id === saved.id ? saved : item)`
unfoldable pub replace_case : EvalCase → List EvalCase → List EvalCase
replace_case saved = map (λ c. if c.id == saved.id then saved else c)

unfoldable pub replace_run : EvalRun → List EvalRun → List EvalRun
replace_run updated = map (λ r. if r.id == updated.id then updated else r)

abbrev pub has_run : List EvalRun → ℕ → Bool
has_run runs id = any (λ r. r.id == id) runs

-- The page of older runs, without those that are shown already.
unfoldable pub append_older : List EvalRun → List EvalRun → List EvalRun
append_older current older = current ++ filter (λ r. not (has_run current r.id)) older

-- `proposals.filter((_, index) => index !== i)`
unfoldable pub remove_at {ℓ} : {A : Type ℓ} → ℕ → List A → List A
remove_at i [] = []
remove_at zero (x ∷ xs) = xs
remove_at (suc i) (x ∷ xs) = x ∷ remove_at i xs

abbrev pub editing_case : Option Editing → Option ℕ
editing_case none = none
editing_case (some e) = e.case_id

abbrev pub editing_proposal : Option Editing → Option ℕ
editing_proposal none = none
editing_proposal (some e) = e.proposal_index

-- `Math.max(start, ...versions.map(version => version.version_number + 1))`
unfoldable pub latest_version : ℕ → List ℕ → ℕ
latest_version start [] = start
latest_version start (v ∷ vs) = max (v + 1) (latest_version start vs)

-- What each handler does with its answer, inside `perform`.
unfoldable pub continue_with : (w : Work) → Answer w → Hook → Hook
continue_with (Work.save_case editing input) saved s = record s {
  cases = elim (editing_case editing) [
    | some id ↦ replace_case saved s.cases
    | none ↦ s.cases ++ saved ∷ []
  ];
  proposals = elim (editing_proposal editing) [
    | some i ↦ remove_at i s.proposals
    | none ↦ s.proposals
  ];
  editing = none;
  notice = some case_saved;
}
continue_with (Work.load_older generation offset) older s =
    if generation == s.history_generation
    then record s {
      runs = append_older s.runs older;
      has_more_runs = length older == history_page_size;
    }
    else s
continue_with (Work.delete_case c) answer s = record s {
  cases = filter (λ item. not (item.id == c.id)) s.cases;
  deleting = none;
  notice = some case_deleted;
}
continue_with (Work.generate goal) found s = record s {
  proposals = found;
  suggesting = false;
  notice = some (suggestions (not (length found == 0)));
}
continue_with run_evaluation result s = record s {
  runs = result ∷ s.runs;
  selected_run_id = some result.id;
  view = runs_view;
  current_version = result.prompt_version_number;
  notice = some (evaluated (run_status result));
}
continue_with (refresh result) versions s = record s {
  current_version = latest_version result.prompt_version_number versions;
}
continue_with (Work.rate a b c) updated s = record s {
  runs = replace_run updated s.runs;
  notice = some rating_saved;
}
continue_with (Work.import_csv csv) new_cases s = record s {
  cases = s.cases ++ new_cases;
  notice = some (imported (length new_cases));
}
continue_with Work.export_csv answer s = record s { notice = some exported }

-- The rest of a handler, once its call has come back. `run` goes on to refresh the version, whose
-- failure it reports itself; a stale page of history reports nothing.
unfoldable pub settle : (w : Work) → Outcome (Answer w) → Hook → Hook
settle run_evaluation (answered result) s = record (continue_with run_evaluation result s) {
  pending = some (refresh result);
}
settle w (answered a) s = idle (continue_with w a s)
settle (refresh result) (failed f) s = idle (record s { error = some refresh_failed })
settle (Work.load_older generation offset) (failed f) s =
    if generation == s.history_generation
    then idle (catch_failure (Work.load_older generation offset) f s)
    else idle s
settle w (failed f) s = idle (catch_failure w f s)

-- The effect that loads a prompt: `begin_load` when it starts, `end_load` with its answers, and
-- `leave_load`, its clean-up.
unfoldable pub begin_load : Hook → Hook
begin_load s = record s { history_generation = s.history_generation + 1 }

unfoldable pub leave_load : Hook → Hook
leave_load s = record s { history_generation = s.history_generation + 1 }

-- `Math.max(0, ...versions.map(version => version.version_number))`
unfoldable pub largest : List ℕ → ℕ
largest [] = 0
largest (v ∷ vs) = max v (largest vs)

unfoldable pub end_load : List EvalCase → List EvalRun → List ℕ → Hook → Hook
end_load loaded_cases history versions s = record s {
  current_version = largest versions + 1;
  cases = loaded_cases;
  runs = history;
  has_more_runs = length history == history_page_size;
}

-- The effect that reads the AI configuration.
unfoldable pub end_config : Outcome Config → Hook → Hook
end_config (answered c) s = record s { config = some c; budget_rejection = none }
end_config (failed f) s = record s { config = none }

-- Where the suggestions of a prompt that are not saved yet are kept:
-- `storageKey(`eval-suggestions:${currentUser}:${promptId}`)`.
unfoldable pub proposals_key : Text → ℕ → Text
proposals_key user prompt_id =
    storage_key (text "eval-suggestions:" ++ (user ++ (text ":" ++ decimal prompt_id)))
