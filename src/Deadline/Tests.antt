-- ===== src/Deadline/Tests.antt =====
-- A video of 90 seconds that plays at normal speed, in plans of 30 seconds.
use dingdongditch.Prelude.{ℕ, ◌+◌, ◌-◌, ◌*◌, arith, ◌≡◌, true, false, some, List, [], ◌∷◌, ltb}
use dingdongditch.Prelude.Raise.{ok}
use dingdongditch.Plan.Timing.{validate_plan_timing, validate_plan_timing_iff}
use dingdongditch.Deadline.{
  Floats, PlanTimingState, Observed, budget_end, from_plan, plan_ceiling_ms,
  apply_extension_decision, compute_video_ended_extension,
}
use dingdongditch.Deadline.Bounds.{Within, Advances, extension-Advances}
use dingdongditch.Deadline.Rounds.{Round, rounds, deadline_limit}

-- Numbers of whole seconds; the rate is not looked at.
abbrev seconds : Floats
seconds = record {
  Value = ℕ;
  Float = ℕ;
  finite = λ v. some v;
  is_infinite = λ v. false;
  is_nan = λ v. false;
  positive = λ x. ltb 0 x;
  zero_float = 0;
  below_one = λ v. ltb v 1;
  remaining_ms = λ duration current rate. (duration - current) * 1000;
}

abbrev video : ℕ → Observed seconds
video at = record {
  duration = some 90;
  current_time = some at;
  playback_rate = some 1;
  ready_state = some 4;
  loop = false;
  ended = false;
  paused = false;
}

abbrev two_rounds : List (Round seconds)
two_rounds =
    record { observed = video 10; now_ms = 11000; wait_deadline_ms = 20000; margin_ms = 500 }
    ∷ record { observed = video 20; now_ms = 25000; wait_deadline_ms = 40000; margin_ms = 500 }
    ∷ []

budgets_valid : validate_plan_timing (some 30000) true (some 60000) ≡ ok tt
budgets_valid = (validate_plan_timing_iff (some 30000) true (some 60000)).1 (ground arith)

deadline_limit_example :
    let t = rounds seconds two_rounds (from_plan (some 30000) true (some 60000) 1000) in
    Within t.plan_deadline_ms (budget_end 1000 (some 60000))
    × Within t.plan_deadline_ms (some (1000 + 3600000))
deadline_limit_example =
    deadline_limit seconds (some 30000) true (some 60000) 1000 two_rounds budgets_valid

abbrev timing : PlanTimingState
timing = from_plan (some 30000) true (some 60000) 1000

extension-Advances_example :
    let d = compute_video_ended_extension seconds (video 10) 11000 20000 (some timing) 500 in
    (w : ℕ) × (t' : PlanTimingState) × (apply_extension_decision d 20000 (some timing)
      ≡ (w, some t'))
    × Advances (plan_ceiling_ms timing) (some 20000) (some w)
    × Advances (plan_ceiling_ms timing) timing.plan_deadline_ms t'.plan_deadline_ms
    × (plan_ceiling_ms t' ≡ plan_ceiling_ms timing)
    × (t'.adaptive_timeout_enabled ≡ timing.adaptive_timeout_enabled)
extension-Advances_example = extension-Advances seconds (video 10) 11000 20000 500 timing
