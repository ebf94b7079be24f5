-- ===== src/Deadline/Bounds.antt =====
-- About one extension: `compute_video_ended_extension` and `apply_extension_decision`
-- (dingdongditch/runtime/plan_timing.py).
use dingdongditch.Prelude.{
  ℕ, ◌+◌, ◌≤◌, ◌<◌, ◌≡◌, refl, String, true, false, Option, none, some, arith, Option-cases,
  Bool-cases, inl, inr, ◌⊎◌,
}
use dingdongditch.Deadline.{
  Floats, Decision, PlanTimingState, Observed, plan_ceiling_ms, extend_to, base_decision,
  apply_wait, apply_plan, apply_extension_decision, compute_video_ended_extension, assess,
}

-- `a ≤ b`, where no limit stands for none.
abbrev pub AtMost : ℕ → Option ℕ → Type 0
AtMost a none = Unit
AtMost a (some c) = a ≤ c

-- A deadline that is there is within the ceiling.
abbrev pub Within : Option ℕ → Option ℕ → Type 0
Within none c = Unit
Within (some d) c = AtMost d c

-- A deadline stays, or moves to a later time that is no later than the ceiling.
abbrev pub Advances : Option ℕ → Option ℕ → Option ℕ → Type 0
Advances c none none = Unit
Advances c none (some b) = ⊥
Advances c (some a) none = ⊥
Advances c (some a) (some b) = (b ≡ a) ⊎ ((a < b) × AtMost b c)

-- The decision of `extend_to`, applied.
extend_to-Advances :
    (target wait : ℕ) (t : PlanTimingState)
    → let d = extend_to target wait t in
      Advances (plan_ceiling_ms t) (some wait) (some (apply_wait d wait))
      × Advances (plan_ceiling_ms t) t.plan_deadline_ms (apply_plan d t).plan_deadline_ms
unfolding extend_to apply_wait apply_plan
extend_to-Advances target wait t = ground arith

base_decision-stays :
    (reason : String) (wait : ℕ) (t : PlanTimingState)
    → let d = base_decision reason wait (some t) in
      (apply_wait d wait ≡ wait) × ((apply_plan d t).plan_deadline_ms ≡ t.plan_deadline_ms)
unfolding apply_wait apply_plan
base_decision-stays reason wait t = (refl, refl)

Advances-refl : (c a : Option ℕ) → Advances c a a
Advances-refl c none = tt
Advances-refl c (some a) = inl refl

base_decision-Advances :
    (reason : String) (wait : ℕ) (t : PlanTimingState)
    → let d = base_decision reason wait (some t) in
      Advances (plan_ceiling_ms t) (some wait) (some (apply_wait d wait))
      × Advances (plan_ceiling_ms t) t.plan_deadline_ms (apply_plan d t).plan_deadline_ms
unfolding apply_wait apply_plan
base_decision-Advances reason wait t =
    (inl refl, Advances-refl (plan_ceiling_ms t) t.plan_deadline_ms)

module _ (floats : Floats) where
  abbrev pub extension : Observed floats → ℕ → ℕ → ℕ → PlanTimingState → Decision
  extension o now wait margin t = compute_video_ended_extension floats o now wait (some t) margin

  -- The decision is one of the refusals, or `extend_to` at some target.
  extension-cases :
      (o : Observed floats) (now wait margin : ℕ) (t : PlanTimingState)
      → ((reason : String) × (extension o now wait margin t ≡ base_decision reason wait (some t)))
        ⊎ ((target : ℕ) × (t.adaptive_timeout_enabled ≡ true)
            × (extension o now wait margin t ≡ extend_to target wait t))
  unfolding compute_video_ended_extension
  extension-cases o now wait margin t = elim (Bool-cases t.adaptive_timeout_enabled) [
    | inr off ↦ inl ("adaptation_disabled", ground arith)
    | inl on ↦ elim (Option-cases (assess floats o).1) [
      | inl refused ↦ inl ((assess floats o).0, ground arith)
      | inr (ms, left) ↦ inr (now + (ms + margin), on, ground arith)
    ]
  ]

  pub advances :
      (o : Observed floats) (now wait margin : ℕ) (t : PlanTimingState)
      → let d = extension o now wait margin t in
        Advances (plan_ceiling_ms t) (some wait) (some (apply_wait d wait))
        × Advances (plan_ceiling_ms t) t.plan_deadline_ms (apply_plan d t).plan_deadline_ms
  advances o now wait margin t = elim (extension-cases o now wait margin t) [
    | inl (reason, e) ↦ rw e (base_decision-Advances reason wait t)
    | inr (target, on, e) ↦ rw e (extend_to-Advances target wait t)
  ]

  -- Applying the decision on an extension never shortens the wait or the plan deadline, and moves
  -- neither to a time past the plan's ceiling. The budgets and the start stay as they are.
  pub extension-Advances :
      (o : Observed floats) (now wait margin : ℕ) (t : PlanTimingState)
      → let d = compute_video_ended_extension floats o now wait (some t) margin in
        (w : ℕ) × (t' : PlanTimingState) × (apply_extension_decision d wait (some t) ≡ (w, some t'))
        × Advances (plan_ceiling_ms t) (some wait) (some w)
        × Advances (plan_ceiling_ms t) t.plan_deadline_ms t'.plan_deadline_ms
        × (plan_ceiling_ms t' ≡ plan_ceiling_ms t)
        × (t'.adaptive_timeout_enabled ≡ t.adaptive_timeout_enabled)
  unfolding apply_extension_decision
  extension-Advances o now wait margin t =
      let d = extension o now wait margin t in
      let (for_wait, for_plan) = advances o now wait margin t in
      (apply_wait d wait, apply_plan d t, refl, for_wait, for_plan, refl, refl)

  -- Without `adaptive_timeout_enabled` no deadline moves.
  pub disabled-stays :
      (o : Observed floats) (now wait margin : ℕ) (t : PlanTimingState)
      → t.adaptive_timeout_enabled ≡ false
      → (apply_plan (extension o now wait margin t) t).plan_deadline_ms ≡ t.plan_deadline_ms
  disabled-stays o now wait margin t off = elim (extension-cases o now wait margin t) [
    | inl (reason, e) ↦ rw e (base_decision-stays reason wait t).1
    | inr (target, on, e) ↦ cc
  ]
