-- ===== src/Plan/Timing.antt =====
-- The validation of the plan's time budgets (`ExecutionPlan._validate_plan_timing` in
-- dingdongditch/contract/plan.py, with the limits of dingdongditch/contract/runtime.py).
-- A negative budget is refused like 0, so budgets are naturals.
use dingdongditch.Prelude.{
  ℕ, ◌≤◌, ◌≡◌, ◌≢◌, ◌↔◌, String, Bool, true, false, Option, none, some, ltb, arith,
}
use dingdongditch.Prelude.Raise.{Checked, ok, raised, raise_if, ◌>>◌}

abbrev pub min_plan_timeout_ms : ℕ
min_plan_timeout_ms = 100

abbrev pub max_plan_timeout_ms_ceiling : ℕ
max_plan_timeout_ms_ceiling = 3600000

-- `_check_budget`, with the messages for its two limits
check_budget : String → String → Option ℕ → Checked
check_budget too_small too_large none = ok tt
check_budget too_small too_large (some value) = do
  raise_if (ltb value min_plan_timeout_ms) too_small
  raise_if (ltb max_plan_timeout_ms_ceiling value) too_large

-- The three branches on which budgets are given.
check_budgets : Bool → Option ℕ → Option ℕ → Checked
check_budgets true none max_ms = raised "adaptive_timeout_enabled requires initial_plan_timeout_ms"
check_budgets true (some initial) none =
    raised "adaptive_timeout_enabled requires max_plan_timeout_ms"
check_budgets true (some initial) (some max_ms) =
    raise_if (ltb max_ms initial) "max_plan_timeout_ms must be >= initial_plan_timeout_ms"
check_budgets false none (some max_ms) =
    raised
      "max_plan_timeout_ms requires initial_plan_timeout_ms (or enable adaptive_timeout_enabled with both budgets)"
check_budgets false (some initial) (some max_ms) =
    raise_if (ltb max_ms initial) "max_plan_timeout_ms must be >= initial_plan_timeout_ms"
check_budgets false _ none = ok tt

-- The initial budget, whether it may be extended, and the largest budget.
pub validate_plan_timing : Option ℕ → Bool → Option ℕ → Checked
unfolding check_budget check_budgets
validate_plan_timing initial adaptive max_ms = do
  check_budget "initial_plan_timeout_ms must be >= 100" "initial_plan_timeout_ms must be <= 3600000"
      initial
  check_budget "max_plan_timeout_ms must be >= 100" "max_plan_timeout_ms must be <= 3600000" max_ms
  check_budgets adaptive initial max_ms

abbrev pub WithinLimits : Option ℕ → Type 0
WithinLimits none = Unit
WithinLimits (some v) = (min_plan_timeout_ms ≤ v) × (v ≤ max_plan_timeout_ms_ceiling)

-- A largest budget is no smaller than the initial one, and does not stand alone.
abbrev pub Ordered : Option ℕ → Option ℕ → Type 0
Ordered none (some m) = ⊥
Ordered (some i) (some m) = i ≤ m
Ordered _ none = Unit

-- The time budgets of a plan are accepted exactly when each lies between 100 ms and one hour, the
-- largest is not below the initial one and does not stand alone, and both are there if the budget
-- may be extended.
pub validate_plan_timing_iff :
    (initial : Option ℕ) (adaptive : Bool) (max_ms : Option ℕ)
    → (validate_plan_timing initial adaptive max_ms ≡ ok tt) ↔ (
        WithinLimits initial
        × WithinLimits max_ms
        × Ordered initial max_ms
        × (adaptive ≡ true → max_ms ≢ none))
unfolding validate_plan_timing
validate_plan_timing_iff none true none = ground arith
validate_plan_timing_iff none false none = ground arith
validate_plan_timing_iff none true (some m) = ground arith
validate_plan_timing_iff none false (some m) = ground arith
validate_plan_timing_iff (some i) true none = ground arith
validate_plan_timing_iff (some i) false none = ground arith
validate_plan_timing_iff (some i) true (some m) = ground arith
validate_plan_timing_iff (some i) false (some m) = ground arith
