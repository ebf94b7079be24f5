-- ===== src/Decision/Operation.antt =====
-- The verdict of an executed operation (the end of `execute_operation` in
-- dingdongditch/runtime/executor.py): what `_decide_verdict` says of the results of the active
-- expectations, and what a WebAuthn participation, a quorum and a screenshot override. Operations that
-- end before the verification, and exceptions, are left out.
pub mod Verified
mod Tests
use dingdongditch.Prelude.{
  String, Bool, true, false, ◌&&◌, Option, none, some, List, [], ◌∷◌, if◌then◌else◌, length,
  is_empty,
}
use dingdongditch.Prelude.Equality.{◌==◌, contains, string_eq}
use dingdongditch.Prelude.Raise.{Result, ok, raised, ◌>>=◌}
use dingdongditch.Verdict.{Verdict, not_verified, execution_failed, indeterminate}
use dingdongditch.Evidence.{ExpectationResult}
use dingdongditch.Action.{ActionType}
use dingdongditch.Quorum.{Quorum, evaluate_quorum}
use dingdongditch.Decision.{ActionEvidence, decide_verdict}

-- The `status` of a WebAuthn participation, and whether no expectation is active
pub webauthn_verdict : Option String → Bool → Verdict → Verdict
webauthn_verdict none inactive verdict = verdict
webauthn_verdict (some status) inactive verdict =
    if status == "rejected"
    then not_verified
    else if contains ("unsupported" ∷ "timed_out" ∷ "indeterminate" ∷ []) status
    then indeterminate
    else if status == "completed" && inactive
    then indeterminate
    else verdict

pub quorum_verdict : Option Quorum → List ExpectationResult → Verdict → Result Verdict
quorum_verdict none results verdict = ok verdict
quorum_verdict (some q) results verdict = evaluate_quorum q results >>= λ r. ok r.verdict

-- Expectations are evaluated only behind an action that succeeded: `active` has the result of each
-- active expectation at the last poll.
abbrev pub results_of : Bool → List ExpectationResult → List ExpectationResult
results_of true active = active
results_of false active = []

abbrev pub override_verdict :
    Bool → Option String → Option Quorum → List ExpectationResult → Verdict → Result Verdict
override_verdict true webauthn quorum active verdict =
    quorum_verdict quorum active (webauthn_verdict webauthn (is_empty active) verdict)
override_verdict false webauthn quorum active verdict = ok verdict

-- A screenshot was taken whose mandatory redaction was not applied.
abbrev pub redaction_verdict : Bool → Verdict → Verdict
redaction_verdict redaction_failed verdict = if redaction_failed then execution_failed else verdict

pub operation_verdict :
    Bool
    → List ExpectationResult
    → List String
    → Option ActionType
    → Option ActionEvidence
    → Option String
    → Option Quorum
    → Bool
    → Result Verdict
operation_verdict action_ok active stale action_type evidence webauthn quorum redaction_failed =
    override_verdict action_ok webauthn quorum active (
      decide_verdict action_ok (length active) (results_of action_ok active)
        (if is_empty active then [] else stale) action_type evidence)
    >>= λ verdict. ok (redaction_verdict redaction_failed verdict)
