-- ===== src/PlanRun.antt =====
-- The execution of an ordered plan (dingdongditch/runtime/plan_executor.py).
--
-- What the executor calls is a parameter: `execute_operation`, and starting and stopping the
-- browser, act on a world that is passed along. An operation is known by its id.
pub mod Shape
pub mod Ending
pub mod Sessions
pub mod Receipts
pub mod Refusals
mod Tests
use dingdongditch.Prelude.{
  ℕ, suc, ◌+◌, String, Bool, true, false, Option, none, some, List, [], ◌∷◌, ◌++◌, ltb,
  if◌then◌else◌, length,
}
use dingdongditch.Prelude.Equality.{◌==◌, string_eq, option_eq}
use dingdongditch.Prelude.Raise.{Result, ok, raised}
use dingdongditch.Verdict.{Verdict, verified}
use dingdongditch.Plan.{PlanStepRecord}
use dingdongditch.Plan.Receipt.{PlanReceipt, build_receipt}

-- What the plan executor reads of an operation's receipt.
pub record OperationReceipt : Type 0 where
  pub verdict : Verdict
  pub failure_kind : Option String
  -- `env.get("browser_session_id")` and `env.get("context_id")`
  pub browser_session_id : Option String
  pub context_id : Option String

-- `execute_operation` returns a receipt or raises; the text is `f"{type(exc).__name__}: {exc}"`.
pub data Attempt : Type 0 where
  returned : OperationReceipt → Attempt
  threw : String → Attempt

-- The session that the backend reports once it has started.
pub record Session : Type 0 where
  pub browser_session_id : Option String
  pub context_id : Option String

-- `STOPPING_VERDICTS`: every verdict but VERIFIED.
abbrev pub is_stopping : Verdict → Bool
is_stopping verified = false
is_stopping _ = true

-- `x or y` on optional texts: an empty text counts as missing.
abbrev pub or_else : Option String → Option String → Option String
or_else none d = d
or_else (some s) d = if s == "" then d else some s

abbrev pub skipped_record : ℕ → String → String → PlanStepRecord
skipped_record i id reason = record {
  step_index = i;
  operation_id = id;
  attempted = false;
  skipped = true;
  skip_reason = some reason;
  operation_verdict = none;
  failure_kind = none;
  browser_session_id = none;
  context_id = none;
}

-- `_skipped_records`: the operations from an index on.
pub skipped_records : ℕ → List String → String → List PlanStepRecord
skipped_records i [] reason = []
skipped_records i (id ∷ ids) reason =
    skipped_record i id reason ∷ skipped_records (i + 1) ids reason

abbrev pub threw_record : Session → ℕ → String → PlanStepRecord
threw_record s i id = record {
  step_index = i;
  operation_id = id;
  attempted = true;
  skipped = false;
  skip_reason = none;
  operation_verdict = some Verdict.execution_failed;
  failure_kind = some "unexpected_exception";
  browser_session_id = s.browser_session_id;
  context_id = s.context_id;
}

abbrev pub step_record : Session → ℕ → String → OperationReceipt → PlanStepRecord
step_record s i id r = record {
  step_index = i;
  operation_id = id;
  attempted = true;
  skipped = false;
  skip_reason = none;
  operation_verdict = some r.verdict;
  failure_kind = r.failure_kind;
  browser_session_id = or_else r.browser_session_id s.browser_session_id;
  context_id = or_else r.context_id s.context_id;
}

-- `if receipt.failure_kind == "plan_deadline_expired": failure_kind_override = ...`
abbrev pub deadline_override : Option String → Option String → Option String
deadline_override kind before =
    if kind == some "plan_deadline_expired" then some "plan_deadline_expired" else before

-- The locals of the loop when it ends, and the world.
pub record Run (W : Type 0) : Type 0 where
  pub steps : List PlanStepRecord
  pub execution_error : Option String
  pub failure_kind_override : Option String
  pub world : W

abbrev pub prevented : String
prevented = "prior_step_prevented_execution"

-- The browser as the executor uses it. A set-up call fails with the message and the failure kind
-- of a `BrowserConfigError`, or returns.
pub record Backend (W : Type 0) : Type 0 where
  pub create : W → Option (String × String) × W
  pub config_matches : Bool
  pub start : W → Option (String × String) × W
  pub session : W → Session
  pub stop : W → W

-- A receipt for a plan whose set-up failed: every step is skipped.
pub setup_failure : List String → String → String → String → Result PlanReceipt
setup_failure ids reason error kind =
    build_receipt (skipped_records 0 ids reason) (length ids) true (some error) (some kind)

module _ {W : Type 0} (execute_operation : ℕ → String → W → Attempt × W) where
  -- The loop over the operations, from an index on; `acc` holds the steps so far.
  pub run_steps : Session → ℕ → List String → List PlanStepRecord → Option String → W → Run W
  run_steps s i [] acc override w = record {
    steps = acc;
    execution_error = none;
    failure_kind_override = override;
    world = w;
  }
  run_steps s i (id ∷ ids) acc override w =
      let (attempt, w') = execute_operation i id w in
      elim attempt [
        | threw error ↦ record {
          steps = (acc ++ threw_record s i id ∷ []) ++ skipped_records (i + 1) ids prevented;
          execution_error = some error;
          failure_kind_override = some "unexpected_exception";
          world = w';
        }
        | returned r ↦
            let acc' = acc ++ step_record s i id r ∷ [] in
            let override' = deadline_override r.failure_kind override in
            elim (is_stopping r.verdict) [
              | true ↦ record {
                steps = acc' ++ skipped_records (i + 1) ids prevented;
                execution_error = none;
                failure_kind_override = override';
                world = w';
              }
              | false ↦ run_steps s (i + 1) ids acc' override' w'
            ]
      ]

  -- The loop and the receipt, on a browser that runs.
  pub run_plan : Backend W → List String → W → Result PlanReceipt × W
  unfolding run_steps
  run_plan b ids w =
      let run = run_steps (b.session w) 0 ids [] none w in
      (
        build_receipt run.steps (length ids) false run.execution_error run.failure_kind_override,
        run.world,
      )

  -- `finally`: a browser that the runtime owns is stopped on every path.
  abbrev stop_owned : Backend W → Bool → Result PlanReceipt × W → Result PlanReceipt × W
  stop_owned b owns (r, w) = (r, if owns then b.stop w else w)

  started : Backend W → Bool → List String → W → Result PlanReceipt × W
  unfolding run_plan setup_failure
  started b owns ids w =
      let (error, w') = b.start w in
      stop_owned b owns (elim error [
        | some (message, kind) ↦ (setup_failure ids "browser_setup_failed" message kind, w')
        | none ↦ run_plan b ids w'
      ])

  -- `_execute_plan`, on the outcome of `plan.validate()`: the message and the failure kind that it
  -- raised, if it did. `owns` says that no backend was supplied.
  pub execute_plan :
      Backend W → Bool → Option (String × String) → List String → W → Result PlanReceipt × W
  unfolding started
  execute_plan b owns (some (message, kind)) ids w =
      (setup_failure ids "plan_validation_failed" message kind, w)
  execute_plan b true none ids w =
      let (error, w') = b.create w in
      elim error [
        | some (message, kind) ↦ (setup_failure ids "browser_setup_failed" message kind, w')
        | none ↦ started b true ids w'
      ]
  execute_plan b false none ids w = if b.config_matches then started b false ids w else (
    setup_failure ids "browser_configuration_mismatch"
        "supplied backend configuration does not match plan.browser_config"
        "contradictory_browser_config",
    w,
  )
