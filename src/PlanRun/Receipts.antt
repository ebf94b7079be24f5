-- ===== src/PlanRun/Receipts.antt =====
-- About the receipt of a plan run (`_execute_plan` in dingdongditch/runtime/plan_executor.py).
use dingdongditch.Prelude.{
  ℕ, suc, ◌+◌, ◌≡◌, ◌≢◌, refl, sym, ap, ◌∙◌, String, true, false, Option, none, some, List, [], ◌∷◌,
  length, count, all, ◌⊎◌, inl, inr, arith, All, length-filter,
}
use dingdongditch.Prelude.Equality.{option_eq, string_eq}
use dingdongditch.Prelude.Raise.{ok}
use dingdongditch.Verdict.{Verdict, verified, verdict_eq}
use dingdongditch.Plan.{
  PlanVerdict, CompletionStatus, PlanStepRecord, is_attempted, is_skipped, is_verified,
  attempted_steps, last?, stopping_verdict, completed_outcome,
}
use dingdongditch.Plan.Outcomes.{Complete, Stopped, decided_by}
use dingdongditch.Plan.Receipt.Published.{build_receipt-Complete, build_receipt-Stopped}
use dingdongditch.Plan.Receipt.{
  PlanReceipt, build_receipt, fill_receipt, one_session, plan_verdict_eq,
}
use dingdongditch.PlanRun.{Attempt, Backend, run_steps, run_plan}
use dingdongditch.PlanRun.Shape.{
  Shape, plan_steps, plan_steps-Shape, steps-run_steps, effects, world-run_steps,
}
use dingdongditch.PlanRun.Sessions.{one_session-InSession, Retains, plan_steps-InSession}
use dingdongditch.PlanRun.Ending.{Ends, Shape-Ends}

abbrev AllVerified : List PlanStepRecord → Type 0
AllVerified = All (λ s. s.operation_verdict ≡ some verified)

all_verified : (steps : List PlanStepRecord) → all is_verified steps ≡ true → AllVerified steps
all_verified [] h = tt
all_verified (s ∷ steps) h = (ground arith, all_verified steps (ground arith))

attempted-verified :
    (steps : List PlanStepRecord)
    → AllVerified steps
    → all is_verified (attempted_steps steps) ≡ true
attempted-verified [] h = refl
attempted-verified (s ∷ steps) h = ground (arith, attempted-verified steps h.1)

module _ (steps : List PlanStepRecord) (declared : ℕ) (r : PlanReceipt) where
  -- The receipt states the steps and counts each of them once.
  pub record Reports : Type 0 where
    pub of_steps : r.steps ≡ steps
    pub as_declared : r.declared_step_count ≡ declared
    pub All-listed : length steps ≡ declared
    pub attempts : r.attempted_step_count ≡ count is_attempted steps
    pub verifications : r.verified_step_count ≡ count is_verified (attempted_steps steps)
    pub each_once : r.attempted_step_count + r.skipped_step_count ≡ r.declared_step_count

  -- Every step is VERIFIED, and the plan is.
  pub record Succeeded : Type 0 where
    pub verdict : r.plan_verdict ≡ PlanVerdict.verified
    pub status : r.completion_status ≡ CompletionStatus.completed
    pub all_steps : AllVerified steps

  -- The last attempted step is not VERIFIED; the plan has its verdict and names it.
  pub record StoppedAt (last : PlanStepRecord) (v : Verdict) : Type 0 where
    pub is_last : last? (attempted_steps steps) ≡ some last
    pub has_verdict : last.operation_verdict ≡ some v
    pub not_ok : v ≢ verified
    pub verdict : r.plan_verdict ≡ stopping_verdict v
    pub status : r.completion_status ≡ CompletionStatus.stopped
    pub decisive_index : r.decisive_step_index ≡ some last.step_index
    pub decisive_id : r.decisive_operation_id ≡ some last.operation_id
    pub not_all : ¬ AllVerified steps

module _ (declared : ℕ) (steps : List PlanStepRecord) (error kind : Option String)
    (one : one_session (attempted_steps steps) ≡ true) where
  abbrev Receipt : PlanReceipt → Type 0
  Receipt r =
      (build_receipt steps declared false error kind ≡ ok r)
      × Reports steps declared r
      × (Succeeded steps declared r
          ⊎ ((last : PlanStepRecord) × (v : Verdict) × StoppedAt steps declared r last v))

  Receipt-Complete : Complete declared steps → (r : PlanReceipt) × Receipt r
  Receipt-Complete c = (
    fill_receipt steps declared error kind completed_outcome,
    (
      build_receipt-Complete declared steps error kind c one,
      ground (
        arith,
        length-filter is_attempted steps,
        length-filter is_skipped steps,
        length-filter is_verified (attempted_steps steps),
        ap length c.all_attempted,
      ),
      inl (ground (arith, all_verified steps c.all_verified)),
    ),
  )

  Receipt-Stopped :
      (last : PlanStepRecord) (v : Verdict)
      → Stopped declared steps last v
      → (r : PlanReceipt) × Receipt r
  Receipt-Stopped last v c = (
    fill_receipt steps declared error kind (decided_by last v),
    (
      build_receipt-Stopped declared steps error kind last v c one,
      ground (
        arith,
        length-filter is_attempted steps,
        length-filter is_skipped steps,
        length-filter is_verified (attempted_steps steps),
      ),
      inr (
        last,
        v,
        record {
          is_last = c.is_last;
          has_verdict = c.has_verdict;
          not_ok = c.not_ok;
          verdict = refl;
          status = refl;
          decisive_index = refl;
          decisive_id = refl;
          not_all = λ a. ground (arith, attempted-verified steps a, c.not_all);
        },
      ),
    ),
  )

  Receipt-Ends : Ends declared steps → (r : PlanReceipt) × Receipt r
  Receipt-Ends (inl c) = Receipt-Complete c
  Receipt-Ends (inr (last, v, c)) = Receipt-Stopped last v c

module _ {W : Type 0} (execute_operation : ℕ → String → W → Attempt × W) (b : Backend W)
    (id : String) (ids : List String) (w : W) where
  -- A plan with at least one operation, run on a backend that keeps its session, always publishes
  -- a receipt. Its steps are those of the plan, in order: attempted and VERIFIED up to the first step that is not VERIFIED, and
  -- skipped from there on. Every declared step is counted once, as attempted or as skipped, and the
  -- verified ones are the attempted ones whose verdict is VERIFIED. Either
  -- all steps are VERIFIED, and so is the completed plan, or the plan is stopped with the verdict
  -- of its last attempted step, which it names. The world has seen the attempted operations only.
  pub run_plan_publishes :
      Retains execute_operation (b.session w)
      → (r : PlanReceipt) × ((run_plan execute_operation b (id ∷ ids) w).0 ≡ ok r)
        × Shape 0 (id ∷ ids) r.steps
        × Reports r.steps (suc (length ids)) r
        × (Succeeded r.steps (suc (length ids)) r
            ⊎ ((last : PlanStepRecord) × (v : Verdict) × StoppedAt r.steps
                  (suc (length ids))
                  r
                  last
                  v))
        × ((run_plan execute_operation b (id ∷ ids) w).1
            ≡ effects execute_operation r.attempted_step_count 0 (id ∷ ids) w)
  unfolding run_plan
  run_plan_publishes h =
      let steps = plan_steps execute_operation (b.session w) 0 (id ∷ ids) w in
      let shape = plan_steps-Shape execute_operation (b.session w) 0 (id ∷ ids) w in
      let run = run_steps execute_operation (b.session w) 0 (id ∷ ids) [] none w in
      let one =
        one_session-InSession (b.session w) steps
          (plan_steps-InSession execute_operation (b.session w) 0 (id ∷ ids) w h) in
      let (r, (published, reports, ends)) =
        Receipt-Ends (suc (length ids)) steps run.execution_error run.failure_kind_override one
          (Shape-Ends 0 id ids steps shape) in
      let same = steps-run_steps execute_operation (b.session w) 0 (id ∷ ids) [] none w in
      (
        r,
        rw same published,
        rw reports.of_steps shape,
        rw reports.of_steps reports,
        rw reports.of_steps ends,
        world-run_steps execute_operation (b.session w) 0 (id ∷ ids) [] none w
            ∙ ap (λ n. effects execute_operation n 0 (id ∷ ids) w) (sym reports.attempts),
      )
