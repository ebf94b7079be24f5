-- ===== src/PlanRun/Sessions.antt =====
-- About the browser session of the attempted steps
-- (dingdongditch/runtime/plan_executor.py, and the check in dingdongditch/contract/plan.py).
use dingdongditch.Prelude.{
  ℕ, ◌+◌, ◌≡◌, refl, String, true, Option, none, some, List, [], ◌∷◌, all, ◌⊎◌, inl, inr, arith,
  All,
}
use dingdongditch.Prelude.Equality.{option_eq, string_eq}
use dingdongditch.Verdict.{Verdict, verified, verdict_eq}
use dingdongditch.Plan.{PlanStepRecord, attempted_steps}
use dingdongditch.Plan.Receipt.{one_session, same_session, plan_verdict_eq}
use dingdongditch.PlanRun.{
  OperationReceipt, Attempt, returned, Session, skipped_records, or_else, prevented,
}
use dingdongditch.PlanRun.Shape.{Attempt-cases, after, plan_steps}

-- Every attempted step is of the session.
abbrev pub InSession : Session → List PlanStepRecord → Type 0
InSession s = All (λ t.
    t.attempted ≡ true
    → (t.browser_session_id ≡ s.browser_session_id) × (t.context_id ≡ s.context_id))

all_same :
    (s : Session) (t : PlanStepRecord) (steps : List PlanStepRecord)
    → t.browser_session_id ≡ s.browser_session_id
    → t.context_id ≡ s.context_id
    → InSession s steps
    → all (same_session t) (attempted_steps steps) ≡ true
all_same s t [] e f h = refl
all_same s t (u ∷ steps) e f h = ground (arith, h.0, all_same s t steps e f h.1)

pub one_session-InSession :
    (s : Session) (steps : List PlanStepRecord)
    → InSession s steps
    → one_session (attempted_steps steps) ≡ true
one_session-InSession s [] h = refl
one_session-InSession s (t ∷ steps) h =
    ground (arith, h.0, one_session-InSession s steps h.1, all_same s t steps)

or_else_same : (x d : Option String) → (x ≡ none) ⊎ (x ≡ d) → or_else x d ≡ d
or_else_same none d h = refl
or_else_same (some s) d h = ground arith

skipped-InSession :
    (s : Session) (i : ℕ) (ids : List String) (reason : String)
    → InSession s (skipped_records i ids reason)
unfolding skipped_records
skipped-InSession s i [] reason = tt
skipped-InSession s i (id ∷ ids) reason = (λ h. cc, skipped-InSession s (i + 1) ids reason)

after-InSession :
    (s : Session) (v : Verdict) (rest skipped : List PlanStepRecord)
    → InSession s rest
    → InSession s skipped
    → InSession s (after v rest skipped)
after-InSession s verified rest skipped h k = h
after-InSession s _ rest skipped h k = k

-- Each receipt that `execute_operation` returns names the session that the backend reported at
-- the start of the plan, or names none.
abbrev pub Retains : {W : Type 0} → (ℕ → String → W → Attempt × W) → Session → Type 0
Retains {W} execute_operation s =
    (i : ℕ) (id : String) (w : W) (r : OperationReceipt)
    → (execute_operation i id w).0 ≡ returned r
    → ((r.browser_session_id ≡ none) ⊎ (r.browser_session_id ≡ s.browser_session_id))
      × ((r.context_id ≡ none) ⊎ (r.context_id ≡ s.context_id))

module _ {W : Type 0} (execute_operation : ℕ → String → W → Attempt × W) where
  pub plan_steps-InSession :
      (s : Session) (i : ℕ) (ids : List String) (w : W)
      → Retains execute_operation s
      → InSession s (plan_steps execute_operation s i ids w)
  unfolding plan_steps
  plan_steps-InSession s i [] w h = tt
  plan_steps-InSession s i (id ∷ ids) w h = elim (Attempt-cases (execute_operation i id w).0) [
    | inl (error, e) ↦
        rw (e, plan_steps) ((λ _. (refl, refl)), skipped-InSession s (i + 1) ids prevented)
    | inr (r, e) ↦
        let (bs, cs) = h i id w r e in
        rw (e, plan_steps)
          (
            (λ _. (or_else_same _ _ bs, or_else_same _ _ cs)),
            after-InSession s r.verdict _ _
                (plan_steps-InSession s (i + 1) ids (execute_operation i id w).1 h)
                (skipped-InSession s (i + 1) ids prevented),
          )
  ]
