-- ===== src/Plan.antt =====
-- Ordered plans (dingdongditch/contract/plan.py): the step records, the plan receipt, its
-- invariants, and the outcome that the steps add up to. A verdict that the source stores by its
-- string value is the verdict itself here. Times, payloads and descriptions that neither the
-- outcome nor the invariants read are left out.
pub mod Timing
pub mod Outcomes
pub mod Receipt
mod Tests
use dingdongditch.Prelude.{
  ℕ, ◌+◌, String, Bool, true, false, not, ◌&&◌, ◌||◌, Option, none, some, List, [], ◌∷◌, map, ltb,
  leb, nat_beq, is_some, if◌then◌else◌, length, is_empty, filter, any, all,
}
use dingdongditch.Prelude.Equality.{Eq, ◌==◌, contains, string_eq, option_eq}
use dingdongditch.Prelude.Raise.{Result, Checked, ok, raised, raise_if, ◌>>=◌, ◌>>◌}
use dingdongditch.Verdict.{Verdict, verdict_eq}

pub data PlanVerdict : Type 0 where
  verified not_verified execution_failed indeterminate : PlanVerdict

pub data CompletionStatus : Type 0 where
  completed stopped not_started : CompletionStatus

pub record PlanStepRecord : Type 0 where
  pub step_index : ℕ
  pub operation_id : String
  pub attempted : Bool
  pub skipped : Bool
  pub skip_reason : Option String
  pub operation_verdict : Option Verdict
  pub failure_kind : Option String
  pub browser_session_id : Option String
  pub context_id : Option String

-- What `aggregate_plan_outcome` returns.
pub record Outcome : Type 0 where
  pub plan_verdict : PlanVerdict
  pub completion_status : CompletionStatus
  pub decisive_step_index : Option ℕ
  pub decisive_operation_id : Option String
  pub failure_kind : Option String

abbrev pub is_attempted : PlanStepRecord → Bool
is_attempted s = s.attempted

abbrev pub is_skipped : PlanStepRecord → Bool
is_skipped s = s.skipped

abbrev pub is_verified : PlanStepRecord → Bool
is_verified s = s.operation_verdict == some Verdict.verified

abbrev pub attempted_steps : List PlanStepRecord → List PlanStepRecord
attempted_steps = filter is_attempted

-- `steps[-1]` of the attempted steps
abbrev pub last? {ℓ} : {A : Type ℓ} → List A → Option A
last? [] = none
last? (x ∷ []) = some x
last? (x ∷ y ∷ xs) = last? (y ∷ xs)

abbrev pub not_started_outcome : Outcome
not_started_outcome = record {
  plan_verdict = PlanVerdict.execution_failed;
  completion_status = CompletionStatus.not_started;
  decisive_step_index = none;
  decisive_operation_id = none;
  failure_kind = none;
}

abbrev pub completed_outcome : Outcome
completed_outcome = record {
  plan_verdict = PlanVerdict.verified;
  completion_status = CompletionStatus.completed;
  decisive_step_index = none;
  decisive_operation_id = none;
  failure_kind = none;
}

-- The table of the decisive verdict; a VERIFIED last step means that steps are missing.
abbrev pub stopping_verdict : Verdict → PlanVerdict
stopping_verdict Verdict.not_verified = PlanVerdict.not_verified
stopping_verdict Verdict.execution_failed = PlanVerdict.execution_failed
stopping_verdict Verdict.indeterminate = PlanVerdict.indeterminate
stopping_verdict Verdict.verified = PlanVerdict.execution_failed

-- `last.failure_kind or "step_stopped_plan"`: an empty string counts as missing.
abbrev pub kind_or_stopped : Option String → String
kind_or_stopped none = "step_stopped_plan"
kind_or_stopped (some kind) = if kind == "" then "step_stopped_plan" else kind

stopped_outcome : PlanStepRecord → Verdict → Bool → Outcome
stopped_outcome last verdict complete = record {
  plan_verdict = stopping_verdict verdict;
  completion_status =
      (if complete && verdict == Verdict.verified
        then CompletionStatus.completed
        else CompletionStatus.stopped);
  decisive_step_index = some last.step_index;
  decisive_operation_id = some last.operation_id;
  failure_kind = some (kind_or_stopped last.failure_kind);
}

-- The part after the last attempted step is known; its verdict is asserted to be there.
outcome_of_last : List PlanStepRecord → ℕ → PlanStepRecord → Option Verdict → Result Outcome
unfolding stopped_outcome
outcome_of_last attempted declared last none = raised "AssertionError"
outcome_of_last attempted declared last (some verdict) =
    let complete = nat_beq (length attempted) declared in
    if complete && all is_verified attempted
    then ok completed_outcome
    else ok (stopped_outcome last verdict complete)

outcome_of_attempted : List PlanStepRecord → ℕ → Option PlanStepRecord → Result Outcome
unfolding outcome_of_last
outcome_of_attempted attempted declared none = ok not_started_outcome
outcome_of_attempted attempted declared (some last) =
    outcome_of_last attempted declared last last.operation_verdict

pub aggregate_plan_outcome : List PlanStepRecord → ℕ → Bool → Result Outcome
unfolding outcome_of_attempted
aggregate_plan_outcome steps declared setup_failed =
    if setup_failed || is_empty steps
    then ok not_started_outcome
    else let attempted = attempted_steps steps in
      outcome_of_attempted attempted declared (last? attempted)
