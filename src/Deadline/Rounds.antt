-- ===== src/Deadline/Rounds.antt =====
-- About any number of extensions of the deadline of one plan
-- (dingdongditch/runtime/plan_timing.py).
use dingdongditch.Prelude.{
  ℕ, ◌+◌, ◌≤◌, ◌≡◌, refl, ◌∙◌, Bool, true, false, Option, none, some, List, [], ◌∷◌, arith,
}
use dingdongditch.Prelude.Raise.{ok}
use dingdongditch.Plan.Timing.{WithinLimits, validate_plan_timing, validate_plan_timing_iff}
use dingdongditch.Deadline.{
  Floats, PlanTimingState, Observed, budget_end, from_plan, plan_ceiling_ms, apply_plan,
  compute_video_ended_extension,
}
use dingdongditch.Deadline.Bounds.{Within, Advances, advances, disabled-stays}

Advances-Within :
    (c : ℕ) (a b : Option ℕ) → Advances (some c) a b → Within a (some c) → Within b (some c)
Advances-Within c none none h w = tt
Advances-Within c (some a) (some b) h w = ground arith
Advances-Within c none (some b) h w = absurd h
Advances-Within c (some a) none h w = absurd h

Within-none : (d : Option ℕ) → Within d none
Within-none none = tt
Within-none (some d) = tt

Within-mono : (d : Option ℕ) (a b : ℕ) → a ≤ b → Within d (some a) → Within d (some b)
Within-mono none a b le h = tt
Within-mono (some d) a b le h = omega arith

initial_limit :
    (initial : Option ℕ) (started : ℕ)
    → WithinLimits initial
    → Within (budget_end started initial) (some (started + 3600000))
initial_limit none started h = tt
initial_limit (some i) started h = omega arith

not_adaptive :
    (initial : Option ℕ) (adaptive : Bool)
    → validate_plan_timing initial adaptive none ≡ ok tt
    → adaptive ≡ false
not_adaptive initial true v =
    absurd (((validate_plan_timing_iff initial true none).0 v).3 refl refl)
not_adaptive initial false v = refl

module _ (floats : Floats) where
  -- One call of `compute_video_ended_extension` and `apply_extension_decision`.
  pub record Round : Type 0 where
    pub observed : Observed floats
    pub now_ms : ℕ
    pub wait_deadline_ms : ℕ
    pub margin_ms : ℕ

  pub one_round : Round → PlanTimingState → PlanTimingState
  one_round r t =
      apply_plan
        (compute_video_ended_extension floats r.observed r.now_ms r.wait_deadline_ms (some t)
          r.margin_ms)
        t

  pub rounds : List Round → PlanTimingState → PlanTimingState
  rounds [] t = t
  rounds (r ∷ rs) t = rounds rs (one_round r t)

  one_round-fixed :
      (r : Round) (t : PlanTimingState)
      → (plan_ceiling_ms (one_round r t) ≡ plan_ceiling_ms t)
        × ((one_round r t).adaptive_timeout_enabled ≡ t.adaptive_timeout_enabled)
  unfolding one_round apply_plan
  one_round-fixed r t = (refl, refl)

  rounds-Within :
      (rs : List Round) (t : PlanTimingState) (c : ℕ)
      → plan_ceiling_ms t ≡ some c
      → Within t.plan_deadline_ms (some c)
      → Within (rounds rs t).plan_deadline_ms (some c)
  unfolding rounds one_round
  rounds-Within [] t c e h = h
  rounds-Within (r ∷ rs) t c e h =
      rounds-Within rs (one_round r t) c ((one_round-fixed r t).0 ∙ e) (
        Advances-Within c t.plan_deadline_ms (one_round r t).plan_deadline_ms
          (rw e at ((advances floats r.observed r.now_ms r.wait_deadline_ms r.margin_ms t).1)) h)

  rounds-disabled :
      (rs : List Round) (t : PlanTimingState)
      → t.adaptive_timeout_enabled ≡ false
      → (rounds rs t).plan_deadline_ms ≡ t.plan_deadline_ms
  unfolding rounds one_round
  rounds-disabled [] t off = refl
  rounds-disabled (r ∷ rs) t off =
      rounds-disabled rs (one_round r t) ((one_round-fixed r t).1 ∙ off)
      ∙ disabled-stays floats r.observed r.now_ms r.wait_deadline_ms r.margin_ms t off

  -- However often the deadline of a plan with accepted time budgets is extended, it stays within
  -- the plan's largest budget, if there is one, and within one hour of the plan's start.
  pub deadline_limit :
      (initial : Option ℕ) (adaptive : Bool) (max_ms : Option ℕ) (started : ℕ) (rs : List Round)
      → validate_plan_timing initial adaptive max_ms ≡ ok tt
      → let t = rounds rs (from_plan initial adaptive max_ms started) in
        Within t.plan_deadline_ms (budget_end started max_ms)
        × Within t.plan_deadline_ms (some (started + 3600000))
  unfolding from_plan
  deadline_limit none adaptive (some m) started rs v =
      absurd (((validate_plan_timing_iff none adaptive (some m)).0 v).2)
  deadline_limit (some i) adaptive (some m) started rs v =
      let (low, high, ordered, both) = (validate_plan_timing_iff (some i) adaptive (some m)).0 v in
      let t = from_plan (some i) adaptive (some m) started in
      let t' = rounds rs t in
      let within = rounds-Within rs t (started + m) refl (omega (arith, ordered)) in
      (
        within,
        Within-mono t'.plan_deadline_ms (started + m) (started + 3600000) (omega (arith, high))
            within,
      )
  deadline_limit initial adaptive none started rs v =
      let t = from_plan initial adaptive none started in
      let still = rounds-disabled rs t (not_adaptive initial adaptive v) in
      (
        Within-none (rounds rs t).plan_deadline_ms,
        rw still (
            initial_limit initial started ((validate_plan_timing_iff initial adaptive none).0 v).0),
      )
