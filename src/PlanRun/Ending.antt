-- ===== src/PlanRun/Ending.antt =====
-- About how the steps of a plan run end (dingdongditch/runtime/plan_executor.py).
use dingdongditch.Prelude.{
  ℕ, suc, ◌+◌, ◌≡◌, ◌≢◌, String, true, false, some, List, [], ◌∷◌, length, count, ◌⊎◌, inl, inr,
  arith,
}
use dingdongditch.Prelude.Equality.{option_eq}
use dingdongditch.Verdict.{Verdict, verified, verdict_eq}
use dingdongditch.Plan.{PlanStepRecord, is_attempted, is_skipped, attempted_steps, last?}
use dingdongditch.Plan.Outcomes.{Complete, Stopped}
use dingdongditch.PlanRun.{skipped_records, prevented}
use dingdongditch.PlanRun.Shape.{Shape}

pub record Skipped (n : ℕ) (steps : List PlanStepRecord) : Type 0 where
  pub counted : length steps ≡ n
  pub no_attempt : attempted_steps steps ≡ []
  pub attempted_none : count is_attempted steps ≡ 0
  pub skipped_all : count is_skipped steps ≡ n

pub skipped_records-Skipped :
    (i : ℕ) (ids : List String) (reason : String)
    → Skipped (length ids) (skipped_records i ids reason)
unfolding skipped_records
skipped_records-Skipped i [] reason = ground arith
skipped_records-Skipped i (id ∷ ids) reason =
    ground (arith, skipped_records-Skipped (i + 1) ids reason)

abbrev pub Ends : ℕ → List PlanStepRecord → Type 0
Ends declared steps =
    Complete declared steps
    ⊎ ((last : PlanStepRecord) × (v : Verdict) × Stopped declared steps last v)

-- A list that is not empty, behind one more attempted step, has the same last element.
last?-cons {ℓ} :
    {A : Type ℓ} (x : A) (xs : List A) {y : A} → last? xs ≡ some y → last? (x ∷ xs) ≡ some y
last?-cons x [] h = cc
last?-cons x (z ∷ xs) h = h

-- One more attempted and VERIFIED step in front.
cons-Complete :
    (s : PlanStepRecord) (n : ℕ) (steps : List PlanStepRecord)
    → s.attempted ≡ true
    → s.skipped ≡ false
    → s.operation_verdict ≡ some verified
    → Complete n steps
    → Complete (suc n) (s ∷ steps)
cons-Complete s n steps a k v c = ground arith

cons-Stopped :
    (s : PlanStepRecord) (n : ℕ) (steps : List PlanStepRecord) (last : PlanStepRecord) (v : Verdict)
    → s.attempted ≡ true
    → s.skipped ≡ false
    → Stopped n steps last v
    → Stopped (suc n) (s ∷ steps) last v
cons-Stopped s n steps last v a k c = ground (arith, last?-cons s (attempted_steps steps) c.is_last)

single-Complete :
    (s : PlanStepRecord)
    → s.attempted ≡ true
    → s.skipped ≡ false
    → s.operation_verdict ≡ some verified
    → Complete 1 (s ∷ [])
single-Complete s a k v = ground arith

stop-Stopped :
    (s : PlanStepRecord) (v : Verdict) (i : ℕ) (ids : List String)
    → s.attempted ≡ true
    → s.skipped ≡ false
    → s.operation_verdict ≡ some v
    → v ≢ verified
    → Stopped (suc (length ids)) (s ∷ skipped_records i ids prevented) s v
stop-Stopped s v i ids a k e ne = ground (arith, skipped_records-Skipped i ids prevented)

-- The two ways for steps of a non-empty plan to end.
pub Shape-Ends :
    (i : ℕ) (id : String) (ids : List String) (steps : List PlanStepRecord)
    → Shape i (id ∷ ids) steps
    → Ends (suc (length ids)) steps
Shape-Ends i id ids [] h = absurd h
Shape-Ends i id [] (s ∷ []) (_, _, a, k, inl (v, rest)) = inl (single-Complete s a k v)
Shape-Ends i id [] (s ∷ t ∷ steps) (_, _, a, k, inl (v, rest)) = absurd rest
Shape-Ends i id (j ∷ ids) (s ∷ steps) (_, _, a, k, inl (v, rest)) =
    elim (Shape-Ends (i + 1) j ids steps rest) [
      | inl c ↦ inl (cons-Complete s _ steps a k v c)
      | inr (last, w, c) ↦ inr (last, w, cons-Stopped s _ steps last w a k c)
    ]
Shape-Ends i id ids (s ∷ steps) (_, _, a, k, inr (v, e, ne, rest)) =
    inr (s, v, rw rest (stop-Stopped s v (i + 1) ids a k e ne))
