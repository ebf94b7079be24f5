-- ===== src/PlanRun/Tests.antt =====
-- A plan of three operations of which the second is not verified, on a browser that counts the
-- operations and the stops.
use dingdongditch.Prelude.{
  ℕ, zero, suc, ◌+◌, ◌≡◌, ◌≢◌, refl, String, Bool, true, false, none, some, List, [], ◌∷◌, ◌⊎◌, inl,
  inr, arith,
}
use dingdongditch.Prelude.Raise.{ok}
use text.Mathlib.TextEquality.{eq_iff}
use dingdongditch.Verdict.{Verdict, verified, not_verified}
use dingdongditch.Plan.{PlanStepRecord}
use dingdongditch.Plan.Receipt.{PlanReceipt}
use dingdongditch.PlanRun.{OperationReceipt, Attempt, returned, Backend, run_plan, execute_plan}
use dingdongditch.PlanRun.Shape.{Shape, effects}
use dingdongditch.PlanRun.Sessions.{Retains}
use dingdongditch.PlanRun.Receipts.{Reports, Succeeded, StoppedAt, run_plan_publishes}
use dingdongditch.PlanRun.Refusals.{mismatched, NotStarted, execute_plan-Refused}

-- How many operations were executed, and how often the browser was stopped.
record World : Type 0 where
  operations : ℕ
  stops : ℕ

abbrev new_world : World
new_world = record { operations = 0; stops = 0 }

abbrev verdict_at : ℕ → Verdict
verdict_at (suc zero) = not_verified
verdict_at _ = verified

abbrev receipt_at : ℕ → OperationReceipt
receipt_at i = record {
  verdict = verdict_at i;
  failure_kind = none;
  browser_session_id = some "b1";
  context_id = none;
}

abbrev execute : ℕ → String → World → Attempt × World
execute i id w = (returned (receipt_at i), record w { operations = w.operations + 1 })

abbrev browser : Bool → Backend World
browser matches = record {
  create = λ w. (none, w);
  config_matches = matches;
  start = λ w. (none, w);
  session = λ w. record { browser_session_id = some "b1"; context_id = some "c1" };
  stop = λ w. record w { stops = w.stops + 1 };
}

abbrev plan : List String
plan = "open" ∷ "fill" ∷ "send" ∷ []

execute-Retains : Retains execute ((browser true).session new_world)
execute-Retains i id w r e = (inr (ap_session e), inl (ap_context e))
  where
    ap_session : returned (receipt_at i) ≡ returned r → r.browser_session_id ≡ some "b1"
    ap_session h = cc

    ap_context : returned (receipt_at i) ≡ returned r → r.context_id ≡ none
    ap_context h = cc

run_plan_publishes_example :
    (r : PlanReceipt) × ((run_plan execute (browser true) plan new_world).0 ≡ ok r)
    × Shape 0 plan r.steps
    × Reports r.steps 3 r
    × (Succeeded r.steps 3 r
        ⊎ ((last : PlanStepRecord) × (v : Verdict) × StoppedAt r.steps 3 r last v))
    × ((run_plan execute (browser true) plan new_world).1
        ≡ effects execute r.attempted_step_count 0 plan new_world)
run_plan_publishes_example =
    run_plan_publishes execute (browser true) "open" ("fill" ∷ "send" ∷ []) new_world
      execute-Retains

named : ◌≢◌ {A = String} "contradictory_browser_config" ""
named = ground (arith, eq_iff "contradictory_browser_config" "")

execute_plan-Refused_example :
    (r : PlanReceipt) × (execute_plan execute (browser false) false none plan new_world
      ≡ (ok r, new_world))
    × NotStarted plan "browser_configuration_mismatch"
        "supplied backend configuration does not match plan.browser_config"
        "contradictory_browser_config" r
execute_plan-Refused_example =
    execute_plan-Refused execute (browser false) new_world plan (mismatched refl) named
