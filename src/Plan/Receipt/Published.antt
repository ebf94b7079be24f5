-- ===== src/Plan/Receipt/Published.antt =====
-- About `_build_receipt` (dingdongditch/runtime/plan_executor.py) on steps that end in one of the
-- known ways.
use dingdongditch.Prelude.{
  ℕ, ◌≤◌, ◌≡◌, ◌≢◌, refl, ap, String, true, false, not, Option, List, [], ◌∷◌, length, filter,
  count, any, arith, length-filter, count-le-length,
}
use dingdongditch.Prelude.Equality.{option_eq, string_eq}
use dingdongditch.Prelude.Raise.{ok}
use dingdongditch.Verdict.{Verdict}
use dingdongditch.Plan.{
  PlanVerdict, PlanStepRecord, is_attempted, is_skipped, is_verified, attempted_steps,
  completed_outcome, not_started_outcome, aggregate_plan_outcome, stopping_verdict,
}
use dingdongditch.Plan.Outcomes.{
  Complete, Stopped, aggregate-Complete, aggregate-Stopped, decided_by,
}
use dingdongditch.Plan.Receipt.{
  check_invariants, build_receipt, fill_receipt, one_session, plan_verdict_eq,
}

verified_le : (steps : List PlanStepRecord) → length (filter is_verified steps) ≤ length steps
verified_le steps =
    omega (arith, length-filter is_verified steps, count-le-length is_verified steps)

any_unattempted :
    (steps : List PlanStepRecord)
    → attempted_steps steps ≡ steps
    → any (λ s. not (is_attempted s)) steps ≡ false
any_unattempted [] h = refl
any_unattempted (s ∷ steps) h = ground (
  arith,
  any_unattempted steps,
  ap length h,
  length-filter is_attempted steps,
  count-le-length is_attempted steps,
)

pub stopping_verdict-ne :
    (v : Verdict) → v ≢ Verdict.verified → stopping_verdict v ≢ PlanVerdict.verified
stopping_verdict-ne v h = ground arith

module _ (declared : ℕ) (steps : List PlanStepRecord) (error kind : Option String) where
  pub build_receipt-Complete :
      Complete declared steps
      → one_session (attempted_steps steps) ≡ true
      → build_receipt steps declared false error kind
        ≡ ok (fill_receipt steps declared error kind completed_outcome)
  unfolding build_receipt check_invariants
  build_receipt-Complete c one = rw (aggregate-Complete declared steps c) (
      ground (
        arith,
        one,
        any_unattempted steps c.all_attempted,
        ap length c.all_attempted,
        verified_le (attempted_steps steps),
        length-filter is_skipped steps,
      ))

  pub build_receipt-Stopped :
      (last : PlanStepRecord) (v : Verdict)
      → Stopped declared steps last v
      → one_session (attempted_steps steps) ≡ true
      → build_receipt steps declared false error kind
        ≡ ok (fill_receipt steps declared error kind (decided_by last v))
  unfolding build_receipt check_invariants
  build_receipt-Stopped last v c one = rw (aggregate-Stopped declared steps last v c) (
      ground (
        arith,
        one,
        verified_le (attempted_steps steps),
        length-filter is_skipped steps,
        length-filter is_attempted steps,
        stopping_verdict-ne v c.not_ok,
      ))

-- A receipt of skipped steps only, after a set-up that failed.
pub build_receipt-not_started :
    (steps : List PlanStepRecord) (error kind : Option String)
    → attempted_steps steps ≡ []
    → count is_skipped steps ≡ length steps
    → build_receipt steps (length steps) true error kind
      ≡ ok (fill_receipt steps (length steps) error kind not_started_outcome)
unfolding build_receipt check_invariants aggregate_plan_outcome
build_receipt-not_started steps error kind none_tried h = ground (
  arith,
  length-filter is_skipped steps,
  ap length none_tried,
  verified_le (attempted_steps steps),
  none_tried,
)
