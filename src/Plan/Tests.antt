-- ===== src/Plan/Tests.antt =====
-- Time budgets of plans.
use dingdongditch.Prelude.{ℕ, ◌≡◌, ◌≢◌, ◌↔◌, true, Option, none, some}
use dingdongditch.Prelude.Raise.{ok}
use dingdongditch.Plan.Timing.{
  WithinLimits, Ordered, validate_plan_timing, validate_plan_timing_iff,
}

validate_plan_timing_iff_example : (validate_plan_timing (some 500) true (some 2000) ≡ ok tt) ↔ (
    WithinLimits (some 500)
    × WithinLimits (some 2000)
    × Ordered (some 500) (some 2000)
    × (true ≡ true → ◌≢◌ {A = Option ℕ} (some 2000) none))
validate_plan_timing_iff_example = validate_plan_timing_iff (some 500) true (some 2000)
