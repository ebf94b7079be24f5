-- ===== src/Decision/Operation/Verified.antt =====
-- About the verdict of an executed operation (`execute_operation` in
-- dingdongditch/runtime/executor.py): what VERIFIED rests on.
use dingdongditch.Prelude.{
  ◌≡◌, ◌≢◌, ◌↔◌, ◌<◌, ◌≤◌, refl, sym, ap, String, Bool, true, false, Option, none, some, List, [],
  ◌∷◌, arith, length, is_empty, count, ◌⊎◌, inl, inr, if◌then◌else◌,
}
use dingdongditch.Prelude.Equality.{string_eq}
use dingdongditch.Prelude.Raise.{Result, ok, raised, ◌>>=◌}
use dingdongditch.Verdict.{Verdict, verified}
use dingdongditch.Evidence.{ExpectationResult}
use dingdongditch.Action.{ActionType}
use dingdongditch.Quorum.{Quorum, QuorumResult, evaluate_quorum}
use dingdongditch.Quorum.Counts.{passes}
use dingdongditch.Quorum.Verdicts.{needed_by, evaluated-valid, evaluate_quorum_verified}
use dingdongditch.Decision.{ActionEvidence, decide_verdict, evidence_or_empty}
use dingdongditch.Decision.Laws.{
  Proved, SelfProved, is_plain, verdict_needs_proof, plain_verdict_iff, execution_failed_iff,
}
use dingdongditch.Decision.Operation.{
  operation_verdict, override_verdict, quorum_verdict, webauthn_verdict, results_of,
  redaction_verdict,
}

-- A WebAuthn participation was not rejected, and one that completed has an active expectation beside it.
pub record Allows (webauthn : Option String) (active : List ExpectationResult) : Type 0 where
  pub not_rejected : webauthn ≢ some "rejected"
  pub has_proof : webauthn ≡ some "completed" → 0 < length active

-- Enough checks of the quorum are backed by the results of the active expectations.
pub record Met (q : Quorum) (active : List ExpectationResult) : Type 0 where
  pub asks : 1 ≤ needed_by q
  pub counted : needed_by q ≤ count (passes active) q.checks

quorum-Met :
    (q : Quorum) (active : List ExpectationResult) (v : Verdict)
    → quorum_verdict (some q) active v ≡ ok verified
    → Met q active
unfolding quorum_verdict
quorum-Met q active v h = elim (returned (evaluate_quorum q active)) [
  | inl (r, is) ↦
      let (r', evaluated, achieved, asks, enough) =
        evaluate_quorum_verified q active (evaluated-valid q active r is) in
      let same : r'.verdict ≡ verified = cc (rw (evaluated, quorum_verdict) at h) in
      record { asks = asks; counted = rw (sym achieved) (enough.0 same) }
  | inr (e, is) ↦ absurd (never e (rw (is, quorum_verdict) at h))
]
  where
    returned :
        (o : Result QuorumResult)
        → ((r : QuorumResult) × (o ≡ ok r)) ⊎ ((e : String) × (o ≡ raised e))
    returned (ok r) = inl (r, refl)
    returned (raised e) = inr (e, refl)

    never : (e : String) → Result.raised e ≡ ok verified → ⊥
    never e h = cc

webauthn-Allows :
    (webauthn : Option String) (active : List ExpectationResult) (v : Verdict)
    → webauthn_verdict webauthn (is_empty active) v ≡ verified
    → Allows webauthn active × (v ≡ verified)
unfolding webauthn_verdict
webauthn-Allows none active v h = (record { not_rejected = λ e. cc; has_proof = λ e. cc }, h)
webauthn-Allows (some status) [] v h =
    (record { not_rejected = λ e. ground arith; has_proof = λ e. ground arith }, ground arith)
webauthn-Allows (some status) (x ∷ active) v h =
    (record { not_rejected = λ e. ground arith; has_proof = λ e. omega arith }, ground arith)

-- An outcome that the last step leaves VERIFIED
unredacted :
    (o : Result Verdict) (failed : Bool)
    → (o >>= λ verdict. ok (redaction_verdict failed verdict)) ≡ ok verified
    → (failed ≡ false) × (o ≡ ok verified)
unredacted (ok v) true h = cc
unredacted (ok v) false h = (refl, h)
unredacted (raised e) failed h = cc

-- Evidence is looked at only where an expectation is active.
looked_at :
    (active : List ExpectationResult) (stale : List String)
    → Proved (length active) active (if is_empty active then [] else stale)
      ↔ Proved (length active) active stale
looked_at [] stale =
    (λ p. absurd (omega (arith, p.some_declared)), λ p. absurd (omega (arith, p.some_declared)))
looked_at (x ∷ active) stale = (λ p. p, λ p. p)

ok_injective : (v w : Verdict) → ◌≡◌ {A = Result Verdict} (ok v) (ok w) → v ≡ w
ok_injective v w h = cc

module _ (action_ok : Bool) (active : List ExpectationResult) (stale : List String) (a : ActionType)
    (evidence : Option ActionEvidence) where
  failed_action :
      (results : List ExpectationResult) (used : List String) (o : Option ActionEvidence)
      → ◌≡◌ {A = Result Verdict}
          (ok (decide_verdict false (length active) results used (some a) o))
          (ok verified)
      → ⊥
  failed_action results used o h =
      let failed = (execution_failed_iff false (length active) results used a o).1 refl in
      cc (ok_injective _ _ h, failed)

  -- What VERIFIED rests on without a quorum
  pub record Unaided (webauthn : Option String) : Type 0 where
    pub allows : Allows webauthn active
    pub proof :
        Proved (length active) active stale
        ⊎ SelfProved (evidence_or_empty evidence) (length active) a

  -- The verdict at the end of `execute_operation`, behind the verification, is VERIFIED only if the
  -- action succeeded, no mandatory redaction of a screenshot failed, and: where it has a quorum, the results of the active expectations back as many of its
  -- checks as it asks for; where it has none, no WebAuthn participation was rejected or completed
  -- without an active expectation, and either an expectation is active, every active expectation passed
  -- and no evidence used is stale, or the action is of one of the kinds (a wait, a page switch or close,
  -- a download, a click that opens a page) whose own evidence proves it.
  pub verified_needs_proof :
      (webauthn : Option String) (quorum : Option Quorum) (redaction_failed : Bool)
      → operation_verdict action_ok active stale (some a) evidence webauthn quorum redaction_failed
        ≡ ok verified
      → (action_ok ≡ true)
        × (redaction_failed ≡ false)
        × (((quorum ≡ none) × Unaided webauthn) ⊎ ((q : Quorum) × (quorum ≡ some q) × Met q active))
  unfolding operation_verdict quorum_verdict
  verified_needs_proof webauthn quorum redaction_failed h =
      let (kept, same) = unredacted _ redaction_failed h in
      let (succeeded, rest) = by_action action_ok quorum same in (succeeded, kept, rest)
    where
      base : Bool → Verdict
      base action_ok =
          decide_verdict action_ok (length active) (results_of action_ok active)
            (if is_empty active then [] else stale) (some a) evidence

      by_proof :
          Proved (length active) active (if is_empty active then [] else stale)
            ⊎ SelfProved (evidence_or_empty evidence) (length active) a
          → Proved (length active) active stale
            ⊎ SelfProved (evidence_or_empty evidence) (length active) a
      by_proof (inl p) = inl ((looked_at active stale).0 p)
      by_proof (inr own) = inr own

      by_quorum :
          (quorum : Option Quorum)
          → override_verdict true webauthn quorum active (base true) ≡ ok verified
          → ((quorum ≡ none) × Unaided webauthn) ⊎ ((q : Quorum) × (quorum ≡ some q) × Met q active)
      by_quorum none h =
          let (allows, said) = webauthn-Allows webauthn active (base true) (ok_injective _ _ h) in
          let proof =
            (verdict_needs_proof true (length active) active (if is_empty active then [] else stale)
              a evidence said).1 in
          inl (refl, record { allows = allows; proof = by_proof proof })
      by_quorum (some q) h =
          inr (
            q,
            refl,
            quorum-Met q active (webauthn_verdict webauthn (is_empty active) (base true)) h,
          )

      by_action :
          (action_ok : Bool) (quorum : Option Quorum)
          → override_verdict action_ok webauthn quorum active (base action_ok) ≡ ok verified
          → (action_ok ≡ true)
            × (((quorum ≡ none) × Unaided webauthn)
                ⊎ ((q : Quorum) × (quorum ≡ some q) × Met q active))
      by_action false quorum h = absurd (failed_action _ _ _ h)
      by_action true quorum h = (refl, by_quorum quorum h)

  -- Without a quorum, a WebAuthn participation and a failed redaction, the verdict at the end of
  -- `execute_operation` for an action type without evidence of its own is VERIFIED exactly when the action succeeded, an expectation is active,
  -- every active expectation passed, and no evidence used is stale.
  pub plain_verified_iff :
      is_plain a ≡ true
      → (operation_verdict action_ok active stale (some a) evidence none none false ≡ ok verified)
        ↔ ((action_ok ≡ true) × Proved (length active) active stale)
  unfolding operation_verdict quorum_verdict webauthn_verdict
  plain_verified_iff plain = by_action action_ok
    where
      used : List String
      used = if is_empty active then [] else stale

      said :
          (decide_verdict true (length active) active used (some a) evidence ≡ verified)
          ↔ Proved (length active) active used
      said = plain_verdict_iff (length active) active used a evidence plain

      by_action :
          (action_ok : Bool)
          → (operation_verdict action_ok active stale (some a) evidence none none false
              ≡ ok verified)
            ↔ ((action_ok ≡ true) × Proved (length active) active stale)
      by_action true = (
        λ h. (refl, (looked_at active stale).0 (said.0 (ok_injective _ _ h))),
        λ h. ap ok (said.1 ((looked_at active stale).1 h.1)),
      )
      by_action false = (λ h. absurd (failed_action _ _ _ h), λ h. cc)
