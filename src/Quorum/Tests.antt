-- ===== src/Quorum/Tests.antt =====
-- Quorums and evidence on which the theorems on quorums apply.
use dingdongditch.Prelude.{
  ◌≤◌, ◌<◌, ◌≡◌, ◌≢◌, ◌↔◌, refl, String, true, none, some, List, [], ◌∷◌, length, count, filter,
  map,
}
use dingdongditch.Prelude.Equality.{is_distinct, string_eq}
use dingdongditch.Prelude.Raise.{ok}
use dingdongditch.Verdict.{Verdict, verified, not_verified}
use dingdongditch.Evidence.{ExpectationResult}
use dingdongditch.Quorum.{
  Policy, EvidenceSource, Check, Quorum, QuorumResult, validate, evaluate_quorum, conclude,
  tally_of, source_eq, EvidenceSource-discrete, required_count, tally, tally_check,
}
use dingdongditch.Quorum.Counts.{passes, fails}
use dingdongditch.Quorum.Verdicts.{
  needed_by, evaluate_quorum_verified, evaluate_quorum-all, not_verified_final,
  verified_independent,
}

abbrev dom : Check
dom = record {
  verifier_id = "v1";
  expectation_id = "banner";
  evidence_source = EvidenceSource.dom_state;
}

abbrev net : Check
net = record {
  verifier_id = "v2";
  expectation_id = "saved";
  evidence_source = EvidenceSource.network;
}

abbrev page : Check
page = record {
  verifier_id = "v3";
  expectation_id = "landed";
  evidence_source = EvidenceSource.page_state;
}

abbrev two_of_three : Quorum
two_of_three = record { policy = Policy.n_of_m; checks = dom ∷ net ∷ page ∷ []; required = some 2 }

abbrev both : Quorum
both = record { policy = Policy.all; checks = dom ∷ net ∷ []; required = none }

abbrev result_of : String → String → String → ExpectationResult
result_of id type word = record {
  expectation_id = id;
  expectation_type = type;
  result = word;
  evidence_refs = "s1" ∷ [];
  evidence_timestamp_ms = some 10;
  freshness_ok = some true;
}

abbrev supplied : List ExpectationResult
supplied =
    result_of "banner" "text" "pass"
    ∷ result_of "saved" "network" "fail"
    ∷ result_of "landed" "url" "pass"
    ∷ []

two_of_three_valid : validate two_of_three [] none ≡ ok tt
unfolding validate string_eq source_eq EvidenceSource-discrete
two_of_three_valid = refl

both_valid : validate both [] none ≡ ok tt
unfolding validate string_eq source_eq EvidenceSource-discrete
both_valid = refl

abbrev result_two : QuorumResult
result_two = conclude two_of_three 2 (tally_of two_of_three supplied)

abbrev result_both : QuorumResult
result_both = conclude both 2 (tally_of both supplied)

two_evaluated : evaluate_quorum two_of_three supplied ≡ ok result_two
unfolding evaluate_quorum validate required_count string_eq source_eq EvidenceSource-discrete
two_evaluated = refl

both_evaluated : evaluate_quorum both supplied ≡ ok result_both
unfolding evaluate_quorum validate required_count string_eq source_eq EvidenceSource-discrete
both_evaluated = refl

two_verified : result_two.verdict ≡ verified
unfolding conclude tally tally_check string_eq
two_verified = refl

both_not_verified : result_both.verdict ≡ not_verified
unfolding conclude tally tally_check string_eq
both_not_verified = refl

evaluate_quorum_verified_example :
    (r : QuorumResult) × (evaluate_quorum two_of_three supplied ≡ ok r)
    × (r.achieved ≡ count (passes supplied) two_of_three.checks)
    × (1 ≤ needed_by two_of_three)
    × ((r.verdict ≡ verified) ↔ (needed_by two_of_three ≤ r.achieved))
evaluate_quorum_verified_example = evaluate_quorum_verified two_of_three supplied two_of_three_valid

evaluate_quorum-all_example :
    (r : QuorumResult) × (evaluate_quorum both supplied ≡ ok r)
    × ((r.verdict ≡ verified) ↔ (count (passes supplied) both.checks ≡ length both.checks))
    × ((r.verdict ≡ not_verified) ↔ (0 < count (fails supplied) both.checks))
    × (r.verdict ≢ Verdict.execution_failed)
evaluate_quorum-all_example = evaluate_quorum-all both supplied both_valid refl

not_verified_final_example : result_both.verdict ≢ verified
not_verified_final_example =
    not_verified_final both supplied supplied both_valid both_evaluated both_not_verified
      ((λ h. h), ((λ h. h), tt)) both_evaluated

verified_independent_example :
    let backed = filter (passes supplied) two_of_three.checks in
    (needed_by two_of_three ≤ length backed)
    × (is_distinct (map (λ (c : Check). c.evidence_source) backed) ≡ true)
    × (is_distinct (map (λ (c : Check). c.expectation_id) backed) ≡ true)
verified_independent_example =
    verified_independent two_of_three supplied two_of_three_valid two_evaluated two_verified
