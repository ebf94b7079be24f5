-- ===== src/PlanRun/Shape.antt =====
-- The steps and the effects that the loop of the plan executor leaves
-- (dingdongditch/runtime/plan_executor.py).
use dingdongditch.Prelude.{
  ℕ, zero, suc, ◌+◌, ◌≡◌, ◌≢◌, refl, sym, String, true, false, Option, some, List, [], ◌∷◌, ◌++◌,
  count, ◌⊎◌, inl, inr, arith,
}
use mathlib.Core.List.{append_assoc, append-nil}
use dingdongditch.Verdict.{Verdict, verified}
use dingdongditch.Plan.{PlanStepRecord, is_attempted}
use dingdongditch.PlanRun.{
  OperationReceipt, Attempt, returned, threw, Session, is_stopping, skipped_records, prevented,
  run_steps, threw_record, step_record, deadline_override,
}

-- The records of the operations `ids`, the first of index `i`: attempted and VERIFIED, one after
-- the other; the first that is attempted and not VERIFIED is followed by skipped records only.
abbrev pub Shape : ℕ → List String → List PlanStepRecord → Type 0
Shape i [] [] = Unit
Shape i [] (s ∷ steps) = ⊥
Shape i (id ∷ ids) [] = ⊥
Shape i (id ∷ ids) (s ∷ steps) =
    (s.step_index ≡ i)
    × (s.operation_id ≡ id)
    × (s.attempted ≡ true)
    × (s.skipped ≡ false)
    × (((s.operation_verdict ≡ some verified) × Shape (i + 1) ids steps)
        ⊎ ((v : Verdict) × (s.operation_verdict ≡ some v)
            × (v ≢ verified)
            × (steps ≡ skipped_records (i + 1) ids prevented)))

is_stopping-verified : (v : Verdict) → is_stopping v ≡ false → v ≡ verified
is_stopping-verified verified h = refl
is_stopping-verified _ h = cc

pub Attempt-cases :
    (a : Attempt) → ((e : String) × (a ≡ threw e)) ⊎ ((r : OperationReceipt) × (a ≡ returned r))
Attempt-cases (threw e) = inl (e, refl)
Attempt-cases (returned r) = inr (r, refl)

-- The rest of a plan is not run after a stopping verdict.
abbrev pub after : Verdict → List PlanStepRecord → List PlanStepRecord → List PlanStepRecord
after verified rest skipped = rest
after _ rest skipped = skipped

after-Shape :
    (v : Verdict) (i : ℕ) (ids : List String) (rest : List PlanStepRecord)
    → Shape i ids rest
    → let steps = after v rest (skipped_records i ids prevented) in
      (◌≡◌ {A = Option Verdict} (some v) (some verified) × Shape i ids steps)
      ⊎ ((u : Verdict) × ◌≡◌ {A = Option Verdict} (some v) (some u)
          × (u ≢ verified)
          × (steps ≡ skipped_records i ids prevented))
after-Shape verified i ids rest h = inl (refl, h)
after-Shape _ i ids rest h = inr (_, refl, ground arith, refl)

append_cons {ℓ} :
    {A : Type ℓ} (xs : List A) (y : A) (ys : List A) → (xs ++ y ∷ []) ++ ys ≡ xs ++ y ∷ ys
append_cons xs y ys = append_assoc xs (y ∷ []) ys

none_attempted :
    (i : ℕ) (ids : List String) → count is_attempted (skipped_records i ids prevented) ≡ 0
unfolding skipped_records
none_attempted i [] = refl
none_attempted i (id ∷ ids) = none_attempted (i + 1) ids

module _ {W : Type 0} (execute_operation : ℕ → String → W → Attempt × W) where
  -- The world after the first `n` operations, one after the other.
  pub effects : ℕ → ℕ → List String → W → W
  effects n i [] w = w
  effects zero i (id ∷ ids) w = w
  effects (suc n) i (id ∷ ids) w = effects n (i + 1) ids (execute_operation i id w).1

  effects_zero : (i : ℕ) (ids : List String) (w : W) → effects 0 i ids w ≡ w
  unfolding effects
  effects_zero i [] w = refl
  effects_zero i (id ∷ ids) w = refl

module _ {W : Type 0} (execute_operation : ℕ → String → W → Attempt × W) (s : Session) where
  -- The steps without an accumulator.
  unfoldable pub plan_steps : ℕ → List String → W → List PlanStepRecord
  plan_steps i [] w = []
  plan_steps i (id ∷ ids) w =
      let (a, w') = execute_operation i id w in
      let rest = plan_steps (i + 1) ids w' in
      elim a [
        | threw error ↦ threw_record s i id ∷ skipped_records (i + 1) ids prevented
        | returned r ↦
            step_record s i id r ∷ after r.verdict rest (skipped_records (i + 1) ids prevented)
      ]

  pub plan_steps-Shape : (i : ℕ) (ids : List String) (w : W) → Shape i ids (plan_steps i ids w)
  unfolding plan_steps
  plan_steps-Shape i [] w = tt
  plan_steps-Shape i (id ∷ ids) w = elim (Attempt-cases (execute_operation i id w).0) [
    | inl (error, e) ↦
        rw (e, plan_steps)
          (refl, refl, refl, refl, inr (Verdict.execution_failed, refl, ground arith, refl))
    | inr (r, e) ↦
        rw (e, plan_steps)
          (
            refl,
            refl,
            refl,
            refl,
            after-Shape r.verdict (i + 1) ids _
                (plan_steps-Shape (i + 1) ids (execute_operation i id w).1),
          )
  ]

  pub steps-run_steps :
      (i : ℕ) (ids : List String) (acc : List PlanStepRecord) (override : Option String) (w : W)
      → (run_steps execute_operation s i ids acc override w).steps ≡ acc ++ plan_steps i ids w
  unfolding run_steps plan_steps
  steps-run_steps i [] acc override w = sym (append-nil acc)
  steps-run_steps i (id ∷ ids) acc override w = elim (Attempt-cases (execute_operation i id w).0) [
    | inl (error, e) ↦ rw (e, run_steps, plan_steps) (append_cons acc _ _)
    | inr (r, e) ↦
        let w' = (execute_operation i id w).1 in
        let step = step_record s i id r in
        let override' = deadline_override r.failure_kind override in
        rw (e, run_steps, plan_steps)
          (ground (
            arith,
            steps-run_steps (i + 1) ids (acc ++ step ∷ []) override' w',
            append_cons acc step (plan_steps (i + 1) ids w'),
            append_cons acc step (skipped_records (i + 1) ids prevented),
          ))
  ]

  pub world-run_steps :
      (i : ℕ) (ids : List String) (acc : List PlanStepRecord) (override : Option String) (w : W)
      → (run_steps execute_operation s i ids acc override w).world
        ≡ effects execute_operation (count is_attempted (plan_steps i ids w)) i ids w
  unfolding run_steps plan_steps effects
  world-run_steps i [] acc override w = refl
  world-run_steps i (id ∷ ids) acc override w = elim (Attempt-cases (execute_operation i id w).0) [
    | inl (error, e) ↦
        rw (e, run_steps, plan_steps)
          (ground (
            arith,
            none_attempted (i + 1) ids,
            effects_zero execute_operation (i + 1) ids (execute_operation i id w).1,
          ))
    | inr (r, e) ↦
        let w' = (execute_operation i id w).1 in
        let acc' = acc ++ step_record s i id r ∷ [] in
        let override' = deadline_override r.failure_kind override in
        rw (e, run_steps, plan_steps)
          (ground (
            arith,
            none_attempted (i + 1) ids,
            effects_zero execute_operation (i + 1) ids w',
            world-run_steps (i + 1) ids acc' override' w',
          ))
  ]
