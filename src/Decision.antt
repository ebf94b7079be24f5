-- ===== src/Decision.antt =====
-- The verdict of an operation (`_decide_verdict` in dingdongditch/runtime/executor.py).
--
-- The parts of the action's evidence that the decision reads are a record; `.get(k) is True` is
-- `is_true`, a key that is missing or holds no Boolean is `none`, and `action_evidence or {}` is
-- the record without any of them.
use dingdongditch.Prelude.{
  ℕ, String, Bool, true, false, not, ◌&&◌, ◌||◌, Option, none, some, List, [], ◌∷◌, map, nat_beq,
  if◌then◌else◌, is_true, is_some, is_empty, any, all,
}
use dingdongditch.Prelude.Equality.{◌==◌, string_eq, option_eq}
use dingdongditch.Verdict.{Verdict, verified, not_verified, execution_failed, indeterminate}
use dingdongditch.Evidence.{ExpectationResult}
use dingdongditch.Action.{
  ActionType, click, wait_for, switch_to_page, close_page, switch_to_opener, download,
}
pub mod Laws
pub mod Operation
mod Tests

pub record Download : Type 0 where
  pub state : Option String
  pub has_artifact : Bool
  pub page_policy_passed : Option Bool

pub record ActionEvidence : Type 0 where
  pub condition_satisfied : Option Bool
  pub timeout_occurred : Option Bool
  pub dispatched : Option Bool
  pub download_evidence : Option Download
  -- `(evidence.get("page_transition") or {}).get("policy")`
  pub transition_policy : Option String
  -- `result.get("passed")` of each of `new_page_verification_results`
  pub new_page_passed : List (Option Bool)

abbrev pub no_evidence : ActionEvidence
no_evidence = record {
  condition_satisfied = none;
  timeout_occurred = none;
  dispatched = none;
  download_evidence = none;
  transition_policy = none;
  new_page_passed = [];
}

abbrev pub evidence_or_empty : Option ActionEvidence → ActionEvidence
evidence_or_empty none = no_evidence
evidence_or_empty (some e) = e

abbrev download_completed : Option Download → Bool
download_completed none = false
download_completed (some d) =
    d.state == some "completed" && d.has_artifact && is_true d.page_policy_passed

-- A transition to another page is declared: a non-empty policy that is not "same_page".
abbrev leaves_page : Option String → Bool
leaves_page none = false
leaves_page (some policy) = not (policy == "") && not (policy == "same_page")

-- The verdict that the action's own evidence gives, before the expectations are looked at.
pub early_verdict : Option ActionType → ActionEvidence → ℕ → Option Verdict
early_verdict (some wait_for) e declared =
    if is_true e.condition_satisfied
    then (if nat_beq declared 0 then some verified else none)
    else if is_true e.timeout_occurred
    then some not_verified
    else if nat_beq declared 0
    then some indeterminate
    else none
early_verdict (some switch_to_page) e declared =
    if is_true e.dispatched then some verified else none
early_verdict (some close_page) e declared = if is_true e.dispatched then some verified else none
early_verdict (some switch_to_opener) e declared =
    if is_true e.dispatched then some verified else none
early_verdict (some download) e declared =
    if download_completed e.download_evidence && nat_beq declared 0 then some verified else none
early_verdict (some click) e declared =
    if leaves_page e.transition_policy && all is_true e.new_page_passed then some verified else none
early_verdict _ e declared = none

-- The verdict from the expectation results.
pub expectation_verdict : ℕ → List ExpectationResult → List String → Verdict
expectation_verdict declared expectation_results freshness_stale =
    let results = map (λ (r : ExpectationResult). r.result) expectation_results in
    if nat_beq declared 0
    then indeterminate
    else if not (is_empty freshness_stale)
    then indeterminate
    else if any (λ r. r == "indeterminate") results
    then indeterminate
    else if any (λ r. r == "fail") results
    then not_verified
    else if not (is_empty results) && all (λ r. r == "pass") results
    then verified
    else indeterminate

pub decide_verdict :
    Bool
    → ℕ
    → List ExpectationResult
    → List String
    → Option ActionType
    → Option ActionEvidence
    → Verdict
unfolding early_verdict expectation_verdict
decide_verdict false declared results stale action_type evidence = execution_failed
decide_verdict true declared results stale action_type evidence =
    elim (early_verdict action_type (evidence_or_empty evidence) declared) [
      | some verdict ↦ verdict
      | none ↦ expectation_verdict declared results stale
    ]
