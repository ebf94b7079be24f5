-- ===== src/Plan/Receipt.antt =====
-- The plan receipt and its invariants (`PlanReceipt.check_invariants` in
-- dingdongditch/contract/plan.py), and how the executor fills it in (`_build_receipt` in
-- dingdongditch/runtime/plan_executor.py).
pub mod Published
use dingdongditch.Prelude.{
  ℕ, ◌+◌, String, Bool, true, false, not, ◌&&◌, ◌||◌, Option, none, some, List, [], ◌∷◌, ltb,
  nat_beq, is_some, if◌then◌else◌, length, filter, any, all,
}
use dingdongditch.Prelude.Equality.{Eq, ◌==◌, string_eq, option_eq}
use dingdongditch.Prelude.Raise.{Result, Checked, ok, raised, raise_if, ◌>>=◌, ◌>>◌}
use dingdongditch.Plan.{
  PlanVerdict, CompletionStatus, PlanStepRecord, Outcome, is_attempted, is_skipped, is_verified,
  attempted_steps, aggregate_plan_outcome,
}

pub record PlanReceipt : Type 0 where
  pub plan_verdict : PlanVerdict
  pub completion_status : CompletionStatus
  pub declared_step_count : ℕ
  pub attempted_step_count : ℕ
  pub verified_step_count : ℕ
  pub skipped_step_count : ℕ
  pub decisive_step_index : Option ℕ
  pub decisive_operation_id : Option String
  pub failure_kind : Option String
  pub steps : List PlanStepRecord
  pub execution_error : Option String

pub PlanVerdict-discrete : Discrete PlanVerdict
PlanVerdict-discrete = hlevel

instance unfoldable pub plan_verdict_eq : Eq PlanVerdict
plan_verdict_eq = record { dec = PlanVerdict-discrete }

pub CompletionStatus-discrete : Discrete CompletionStatus
CompletionStatus-discrete = hlevel

instance unfoldable pub status_eq : Eq CompletionStatus
status_eq = record { dec = CompletionStatus-discrete }

-- `{(s.browser_session_id, s.context_id) for s in attempted}` has one element, if any is attempted.
abbrev pub same_session : PlanStepRecord → PlanStepRecord → Bool
same_session s t = s.browser_session_id == t.browser_session_id && s.context_id == t.context_id

abbrev pub one_session : List PlanStepRecord → Bool
one_session [] = true
one_session (s ∷ steps) = all (same_session s) steps

-- The two parts that depend on the completion status.
check_completed : PlanReceipt → Checked
check_completed r = do
  raise_if (any (λ s. not (is_attempted s)) r.steps)
      "completed cannot coexist with unattempted steps"
  raise_if (is_some r.decisive_step_index) "all-success completed plan must not set decisive step"

check_stopped : PlanReceipt → Checked
check_stopped r =
    raise_if (not (is_some r.decisive_step_index) && any is_attempted r.steps)
      "stopped plan with attempted steps requires decisive step"

check_status : CompletionStatus → PlanReceipt → Checked
unfolding check_completed check_stopped
check_status CompletionStatus.completed r = check_completed r
check_status CompletionStatus.stopped r = check_stopped r
check_status CompletionStatus.not_started r = ok tt

pub check_invariants : PlanReceipt → Checked
unfolding check_status
check_invariants r = do
  raise_if (ltb r.declared_step_count r.attempted_step_count)
      "attempted_step_count exceeds declared_step_count"
  raise_if (ltb r.attempted_step_count r.verified_step_count)
      "verified_step_count exceeds attempted_step_count"
  raise_if
      (ltb r.declared_step_count (r.skipped_step_count + r.attempted_step_count)
        && nat_beq (length r.steps) r.declared_step_count)
      "skipped+attempted exceeds declared when steps complete"
  raise_if (r.plan_verdict == PlanVerdict.verified && ltb 0 r.skipped_step_count)
      "plan VERIFIED cannot coexist with skipped steps"
  check_status r.completion_status r
  raise_if (not (one_session (attempted_steps r.steps)))
      "attempted steps must share browser_session_id/context_id"

-- `if failure_kind_override: fail_kind = failure_kind_override`
abbrev overridden : Option String → Option String → Option String
overridden none kind = kind
overridden (some k) kind = if k == "" then kind else some k

abbrev pub fill_receipt :
    List PlanStepRecord → ℕ → Option String → Option String → Outcome → PlanReceipt
fill_receipt steps declared error kind o = record {
  plan_verdict = o.plan_verdict;
  completion_status = o.completion_status;
  declared_step_count = declared;
  attempted_step_count = length (attempted_steps steps);
  verified_step_count = length (filter is_verified (attempted_steps steps));
  skipped_step_count = length (filter is_skipped steps);
  decisive_step_index = o.decisive_step_index;
  decisive_operation_id = o.decisive_operation_id;
  failure_kind = overridden kind o.failure_kind;
  steps = steps;
  execution_error = error;
}

-- `_build_receipt`: the steps, how many are declared, whether the set-up failed, the error, and
-- the failure kind that overrides the outcome's.
pub build_receipt :
    List PlanStepRecord → ℕ → Bool → Option String → Option String → Result PlanReceipt
build_receipt steps declared setup_failed error kind = do
  o ← aggregate_plan_outcome steps declared setup_failed
  let receipt = fill_receipt steps declared error kind o
  check_invariants receipt
  ok receipt
