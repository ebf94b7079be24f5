-- ===== src/Decision/Tests.antt =====
-- Operations and their evidence on which the theorems on verdicts apply.
use dingdongditch.Prelude.{true, some, [], ◌∷◌}
use dingdongditch.Prelude.Equality.{string_eq}
use dingdongditch.Evidence.{ExpectationResult}

abbrev passed : ExpectationResult
passed = record {
  expectation_id = "banner";
  expectation_type = "text";
  result = "pass";
  evidence_refs = "s1" ∷ [];
  evidence_timestamp_ms = some 10;
  freshness_ok = some true;
}
