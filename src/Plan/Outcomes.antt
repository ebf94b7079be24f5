-- ===== src/Plan/Outcomes.antt =====
-- About `aggregate_plan_outcome` (dingdongditch/contract/plan.py): how a list of steps ends, and
-- the outcome then.
use dingdongditch.Prelude.{
  ℕ, ◌+◌, ◌<◌, ◌≡◌, ◌≢◌, refl, Bool, true, false, some, List, [], ◌∷◌, nat_beq, length, count, all,
  arith,
}
use dingdongditch.Prelude.Equality.{option_eq}
use dingdongditch.Prelude.Raise.{ok}
use dingdongditch.Verdict.{Verdict, verdict_eq}
use dingdongditch.Plan.{
  PlanStepRecord, Outcome, is_attempted, is_skipped, is_verified, attempted_steps, last?,
  completed_outcome, stopped_outcome, stopping_verdict, kind_or_stopped, outcome_of_last,
  CompletionStatus, aggregate_plan_outcome,
}

-- Every declared step was attempted and VERIFIED.
pub record Complete (declared : ℕ) (steps : List PlanStepRecord) : Type 0 where
  pub some_steps : 0 < declared
  pub as_declared : length steps ≡ declared
  pub all_attempted : attempted_steps steps ≡ steps
  pub all_verified : all is_verified steps ≡ true
  pub none_skipped : count is_skipped steps ≡ 0

-- `last` is the last attempted step, its verdict `v` is not VERIFIED, and each declared step is
-- either attempted or skipped.
pub record Stopped (declared : ℕ) (steps : List PlanStepRecord) (last : PlanStepRecord)
    (v : Verdict) : Type 0 where
  pub as_declared : length steps ≡ declared
  pub is_last : last? (attempted_steps steps) ≡ some last
  pub has_verdict : last.operation_verdict ≡ some v
  pub not_ok : v ≢ Verdict.verified
  pub not_all : all is_verified (attempted_steps steps) ≡ false
  pub each_once : count is_attempted steps + count is_skipped steps ≡ declared

last-verified :
    (steps : List PlanStepRecord)
    → 0 < length steps
    → all is_verified steps ≡ true
    → (last : PlanStepRecord) × (last? steps ≡ some last)
      × (last.operation_verdict ≡ some Verdict.verified)
last-verified [] h v = absurd (omega arith)
last-verified (s ∷ []) h v = (s, refl, ground arith)
last-verified (s ∷ t ∷ steps) h v = last-verified (t ∷ steps) (omega arith) (ground arith)

pub aggregate-Complete :
    (declared : ℕ) (steps : List PlanStepRecord)
    → Complete declared steps
    → aggregate_plan_outcome steps declared false ≡ ok completed_outcome
unfolding aggregate_plan_outcome
aggregate-Complete declared [] c = absurd (omega arith)
aggregate-Complete declared (s ∷ steps) c =
    let (last, found, verdict) = last-verified (s ∷ steps) (omega arith) c.all_verified in
    rw (c.all_attempted, found, verdict, outcome_of_last)
      (ground (arith, c.as_declared, c.all_verified))

-- The outcome of a plan that its last attempted step decided.
abbrev pub decided_by : PlanStepRecord → Verdict → Outcome
decided_by last v = record {
  plan_verdict = stopping_verdict v;
  completion_status = CompletionStatus.stopped;
  decisive_step_index = some last.step_index;
  decisive_operation_id = some last.operation_id;
  failure_kind = some (kind_or_stopped last.failure_kind);
}

stopped_outcome-decided :
    (last : PlanStepRecord) (v : Verdict) (complete : Bool)
    → v ≢ Verdict.verified
    → stopped_outcome last v complete ≡ decided_by last v
unfolding stopped_outcome
stopped_outcome-decided last v complete h = ground arith

pub aggregate-Stopped :
    (declared : ℕ) (steps : List PlanStepRecord) (last : PlanStepRecord) (v : Verdict)
    → Stopped declared steps last v
    → aggregate_plan_outcome steps declared false ≡ ok (decided_by last v)
unfolding aggregate_plan_outcome
aggregate-Stopped declared [] last v c = cc c.is_last
aggregate-Stopped declared (s ∷ steps) last v c =
    let complete = nat_beq (length (attempted_steps (s ∷ steps))) declared in
    rw (c.is_last, c.has_verdict, outcome_of_last)
      (ground (arith, c.not_all, stopped_outcome-decided last v complete c.not_ok))
