-- ===== src/Decision/Operation/Tests.antt =====
-- Operations whose verdict is VERIFIED.
use dingdongditch.Prelude.{◌≡◌, ◌↔◌, refl, true, false, Option, none, some, [], ◌∷◌, ◌⊎◌}
use dingdongditch.Prelude.Equality.{string_eq}
use dingdongditch.Prelude.Raise.{ok}
use dingdongditch.Verdict.{verified}
use dingdongditch.Evidence.{ExpectationResult}
use dingdongditch.Action.{fill, close_page}
use dingdongditch.Quorum.{Quorum}
use dingdongditch.Decision.{ActionEvidence, no_evidence, decide_verdict}
use dingdongditch.Decision.Laws.{Proved}
use dingdongditch.Decision.Operation.{operation_verdict, webauthn_verdict, quorum_verdict}
use dingdongditch.Decision.Operation.Verified.{
  Met, Unaided, verified_needs_proof, plain_verified_iff,
}

abbrev passed : ExpectationResult
passed = record {
  expectation_id = "banner";
  expectation_type = "text";
  result = "pass";
  evidence_refs = "s1" ∷ [];
  evidence_timestamp_ms = some 10;
  freshness_ok = some true;
}

abbrev failed : ExpectationResult
failed = record passed { result = "fail" }

abbrev dispatched : ActionEvidence
dispatched = record no_evidence { dispatched = some true }

fill_verified :
    operation_verdict true (passed ∷ []) [] (some fill) none (some "completed") none false
    ≡ ok verified
unfolding operation_verdict quorum_verdict webauthn_verdict decide_verdict string_eq
fill_verified = refl

verified_needs_proof_example :
    (true ≡ true)
    × (false ≡ false)
    × ((◌≡◌ {A = Option Quorum} none none
          × Unaided true (passed ∷ []) [] fill none (some "completed"))
        ⊎ ((q : Quorum) × ◌≡◌ {A = Option Quorum} none (some q) × Met q (passed ∷ [])))
verified_needs_proof_example =
    verified_needs_proof true (passed ∷ []) [] fill none (some "completed") none false fill_verified

-- A page that was closed is VERIFIED although an active expectation failed on stale evidence.
closed_verified :
    operation_verdict true
      (failed ∷ [])
      ("s1" ∷ [])
      (some close_page)
      (some dispatched)
      none
      none
      false
    ≡ ok verified
unfolding operation_verdict quorum_verdict webauthn_verdict decide_verdict
closed_verified = refl

plain_verified_iff_example :
    (operation_verdict true (passed ∷ []) ("s1" ∷ []) (some fill) none none none false
      ≡ ok verified)
    ↔ ((true ≡ true) × Proved 1 (passed ∷ []) ("s1" ∷ []))
plain_verified_iff_example = plain_verified_iff true (passed ∷ []) ("s1" ∷ []) fill none refl
