-- ===== src/Evaluation/Steps.antt =====
-- One action at a time, what a budget refusal stops, and which answers are ignored.
use prompt_maker_studio.Base.{
  ◌==◌, ==_iff, Bool-cases, false_of_not, Text, ℕ, ◌≡◌, refl, ap, ◌∙◌, ◌≢◌, inl, inr, true, false,
  Option, none, some, List, arith,
}
use prompt_maker_studio.Evaluation.Types.{EvalCase, EvalRun}
use prompt_maker_studio.Evaluation.Hook.{
  Failure, api_error, Outcome, answered, failed, Work, Answer, run_evaluation, refresh, Hook,
  Action, begin, start, may_call_ai, settle, continue_with, catch_failure, idle, is_ai_work,
}

begin_busy : (v w : Work) (s : Hook) → s.pending ≡ some w → begin v s ≡ s
unfolding begin
begin_busy v w s h = rw h

delete_busy :
    (d : Option EvalCase) (w : Work) (s : Hook)
    → s.pending ≡ some w
    → (elim d as (λ x. Hook) [ none ↦ s | some c ↦ begin (Work.delete_case c) s ]) ≡ s
delete_busy none w s h = refl
delete_busy (some c) w s h = begin_busy _ w s h

-- While an action waits for its answer, every button does nothing.
pub start_busy : (a : Action) (w : Work) (s : Hook) → s.pending ≡ some w → start a s ≡ s
unfolding start
start_busy (Action.save_case input) w s h = begin_busy _ w s h
start_busy Action.load_older w s h = begin_busy _ w s h
start_busy Action.delete_case w s h = delete_busy s.deleting w s h
start_busy (Action.generate goal) w s h = elim (Bool-cases (may_call_ai s)) [
  | inl may ↦ rw may (begin_busy _ w s h)
  | inr not_now ↦ rw not_now
]
start_busy Action.run w s h = elim (Bool-cases (may_call_ai s)) [
  | inl may ↦ rw may (begin_busy _ w s h)
  | inr not_now ↦ rw not_now
]
start_busy (Action.rate a b c) w s h = begin_busy _ w s h
start_busy (Action.import_csv csv) w s h = begin_busy _ w s h
start_busy Action.export_csv w s h = begin_busy _ w s h

catch_failure-idle :
    (w : Work) (f : Failure) (s : Hook) → (idle (catch_failure w f s)).pending ≡ none
catch_failure-idle w f s = refl

-- The call that a handler makes after its first: only a run that succeeded makes one.
abbrev pub second_call : (w : Work) → Outcome (Answer w) → Option Work
second_call run_evaluation (answered result) = some (refresh result)
second_call w o = none

settle_pending :
    (w : Work) (o : Outcome (Answer w)) (s : Hook) → (settle w o s).pending ≡ second_call w o
unfolding settle
settle_pending (Work.save_case e i) (answered a) s = refl
settle_pending (Work.save_case e i) (failed f) s = refl
settle_pending (Work.load_older g n) (answered a) s = refl
settle_pending (Work.load_older g n) (failed f) s = elim (Bool-cases (g == s.history_generation)) [
  | inl current ↦ rw current
  | inr stale ↦ rw stale
]
settle_pending (Work.delete_case c) (answered a) s = refl
settle_pending (Work.delete_case c) (failed f) s = refl
settle_pending (Work.generate goal) (answered a) s = refl
settle_pending (Work.generate goal) (failed f) s = refl
settle_pending run_evaluation (answered result) s = refl
settle_pending run_evaluation (failed f) s = refl
settle_pending (refresh r) (answered a) s = refl
settle_pending (refresh r) (failed f) s = refl
settle_pending (Work.rate a b c) (answered r) s = refl
settle_pending (Work.rate a b c) (failed f) s = refl
settle_pending (Work.import_csv csv) (answered a) s = refl
settle_pending (Work.import_csv csv) (failed f) s = refl
settle_pending Work.export_csv (answered a) s = refl
settle_pending Work.export_csv (failed f) s = refl

-- The answer to the call that is waited for arrives, if there is one.
abbrev reply_to : ((w : Work) → Outcome (Answer w)) → Option Work → Hook → Hook
reply_to reply none s = s
reply_to reply (some w) s = settle w (reply w) s

abbrev pub answer_pending : ((w : Work) → Outcome (Answer w)) → Hook → Hook
answer_pending reply s = reply_to reply s.pending s

pending-reply_to :
    (reply : (w : Work) → Outcome (Answer w)) (o : Option Work) (s : Hook)
    → s.pending ≡ o
    → (answer_pending reply s).pending ≡ (reply_to reply o s).pending
pending-reply_to reply o s h = ap (λ p. (reply_to reply p s).pending) h

-- The second call is a refresh, so that no third follows its answer.
second_call-ends :
    (reply : (w : Work) → Outcome (Answer w)) (w : Work) (o : Outcome (Answer w)) (s : Hook)
    → s.pending ≡ second_call w o
    → (answer_pending reply s).pending ≡ none
second_call-ends reply run_evaluation (answered result) s h =
    pending-reply_to reply (some (refresh result)) s h
    ∙ settle_pending (refresh result) (reply (refresh result)) s
second_call-ends reply run_evaluation (failed f) s h = pending-reply_to reply none s h ∙ h
second_call-ends reply w o s h = pending-reply_to reply none s h ∙ h

-- Whatever the server replies to each call, and whichever call is waited for: after its answer no
-- call is waited for, so that the buttons work again, unless the call was a run that succeeded,
-- which then waits for the refresh of the version; and after the next answer none is waited for in
-- any case.
pub settle_ends :
    (reply : (w : Work) → Outcome (Answer w)) (w : Work) (s : Hook)
    → s.pending ≡ some w
    → let s' = answer_pending reply s in
      (s'.pending ≡ second_call w (reply w)) × ((answer_pending reply s').pending ≡ none)
settle_ends reply w s h =
    let first = pending-reply_to reply (some w) s h ∙ settle_pending w (reply w) s in
    (first, second_call-ends reply w (reply w) (answer_pending reply s) first)

-- A page of history that was asked for before the prompt changed is ignored, and so is its failure.
pub settle_stale :
    (generation offset : ℕ) (o : Outcome (List EvalRun)) (s : Hook)
    → generation ≢ s.history_generation
    → settle (Work.load_older generation offset) o s ≡ idle s
unfolding settle continue_with
settle_stale generation offset (answered older) s h =
    let e = false_of_not _ (λ t. h ((==_iff generation s.history_generation).0 t)) in rw e
settle_stale generation offset (failed f) s h =
    let e = false_of_not _ (λ t. h ((==_iff generation s.history_generation).0 t)) in rw e

-- A call that was refused over budget, with status 402.
abbrev pub refused : Work → Text → Hook → Hook
refused w message s = idle (catch_failure w (api_error 402 message) s)

may_call_ai-refused :
    (w : Work) (message : Text) (s : Hook) → may_call_ai (refused w message s) ≡ false
unfolding may_call_ai catch_failure
may_call_ai-refused w message s = ground arith

-- After a call to the AI was refused over budget, neither a run nor a suggestion starts, and no
-- answer is waited for.
pub budget_stops_ai :
    (w : Work) (message goal : Text) (s : Hook)
    → is_ai_work w ≡ true
    → let s' = settle w (failed (api_error 402 message)) s in
      (start Action.run s' ≡ s') × (start (Action.generate goal) s' ≡ s') × (s'.pending ≡ none)
unfolding settle start
budget_stops_ai (Work.generate g) message goal s h =
    let e = may_call_ai-refused (Work.generate g) message s in (rw e, rw e, refl)
budget_stops_ai run_evaluation message goal s h =
    let e = may_call_ai-refused run_evaluation message s in (rw e, rw e, refl)
budget_stops_ai _ message goal s h = cc
