-- ===== src/PlanRun/Refusals.antt =====
-- About plans that never start (`_execute_plan` in dingdongditch/runtime/plan_executor.py): what
-- was refused, what the receipt says, and what the world has seen.
use dingdongditch.Prelude.{
  ℕ, ◌≡◌, ◌≢◌, refl, sym, ap, ◌∙◌, String, Bool, true, false, Option, none, some, List, length,
  length-filter, arith,
}
use dingdongditch.Prelude.Equality.{string_eq}
use dingdongditch.Prelude.Raise.{ok}
use dingdongditch.Plan.{PlanVerdict, CompletionStatus, not_started_outcome, is_skipped}
use dingdongditch.Plan.Receipt.{PlanReceipt, fill_receipt}
use dingdongditch.Plan.Receipt.Published.{build_receipt-not_started}
use dingdongditch.PlanRun.{Attempt, Backend, skipped_records, setup_failure, execute_plan}
use dingdongditch.PlanRun.Ending.{skipped_records-Skipped}

-- No operation was attempted; all are skipped for the reason.
pub record NotStarted (ids : List String) (reason error kind : String) (r : PlanReceipt)
    : Type 0 where
  pub verdict : r.plan_verdict ≡ PlanVerdict.execution_failed
  pub status : r.completion_status ≡ CompletionStatus.not_started
  pub no_attempt : r.attempted_step_count ≡ 0
  pub all_skipped : r.steps ≡ skipped_records 0 ids reason
  pub skipped_count : r.skipped_step_count ≡ length ids
  pub why : r.failure_kind ≡ some kind
  pub message : r.execution_error ≡ some error

setup_failure-NotStarted :
    (ids : List String) (reason error kind : String)
    → kind ≢ ""
    → (r : PlanReceipt) × (setup_failure ids reason error kind ≡ ok r)
      × NotStarted ids reason error kind r
unfolding setup_failure
setup_failure-NotStarted ids reason error kind named =
    let steps = skipped_records 0 ids reason in
    let skipped = skipped_records-Skipped 0 ids reason in
    (
      fill_receipt steps (length ids) (some error) (some kind) not_started_outcome,
      rw skipped.counted at (
          build_receipt-not_started steps (some error) (some kind) skipped.no_attempt
            (skipped.skipped_all ∙ sym skipped.counted)),
      ground (arith, named, length-filter is_skipped steps, ap length skipped.no_attempt),
    )

module _ {W : Type 0} (execute_operation : ℕ → String → W → Attempt × W) (b : Backend W)
    (w : W) where
  -- Why a plan is not started, by who owns the browser and what `plan.validate()` raised: the skip
  -- reason, the message and the kind of the failure, and the world that is left. A browser that the
  -- runtime created is stopped.
  pub data Refused : Bool → Option (String × String) → String → String → String → W → Type 0 where
    invalid :
        {owns : Bool} (message kind : String)
        → Refused owns (some (message, kind)) "plan_validation_failed" message kind w
    not_created :
        (message kind : String)
        → (b.create w).0 ≡ some (message, kind)
        → Refused true none "browser_setup_failed" message kind (b.create w).1
    mismatched :
        b.config_matches ≡ false
        → Refused false none "browser_configuration_mismatch"
            "supplied backend configuration does not match plan.browser_config"
            "contradictory_browser_config" w
    owned_not_started :
        (message kind : String)
        → (b.create w).0 ≡ none
        → (b.start (b.create w).1).0 ≡ some (message, kind)
        → Refused true none "browser_setup_failed" message kind (b.stop (b.start (b.create w).1).1)
    supplied_not_started :
        (message kind : String)
        → b.config_matches ≡ true
        → (b.start w).0 ≡ some (message, kind)
        → Refused false none "browser_setup_failed" message kind (b.start w).1

  Refused-as :
      {owns : Bool} {invalid : Option (String × String)} {reason error kind : String} {w' : W}
      (ids : List String)
      → Refused owns invalid reason error kind w'
      → execute_plan execute_operation b owns invalid ids w
        ≡ (setup_failure ids reason error kind, w')
  unfolding execute_plan
  Refused-as ids (invalid message kind) = refl
  Refused-as ids (not_created message kind e) = rw (e, execute_plan)
  Refused-as ids (mismatched e) = rw (e, execute_plan)
  Refused-as ids (owned_not_started message kind e f) = rw (e, f, execute_plan)
  Refused-as ids (supplied_not_started message kind e f) = rw (e, f, execute_plan)

  -- A plan that is refused (it is invalid, the browser cannot be created or started, or the
  -- supplied browser has another configuration) attempts no operation: the world is as the browser
  -- calls left it, and the published receipt is EXECUTION_FAILED and not started, skips every step
  -- for the reason, and carries the message and the kind, if the kind is not empty.
  pub execute_plan-Refused :
      {owns : Bool} {invalid : Option (String × String)} {reason error kind : String} {w' : W}
      (ids : List String)
      → Refused owns invalid reason error kind w'
      → kind ≢ ""
      → (r : PlanReceipt) × (execute_plan execute_operation b owns invalid ids w ≡ (ok r, w'))
        × NotStarted ids reason error kind r
  execute_plan-Refused {reason} {error} {kind} ids refused named =
      let (r, published, not_started) = setup_failure-NotStarted ids reason error kind named in
      (r, cc (Refused-as ids refused, published), not_started)
