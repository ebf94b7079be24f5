-- ===== src/Evidence.antt =====
-- What verification records: signals and expectation results
-- (dingdongditch/evidence/models.py). Payloads and free texts for the reader of a receipt that no
-- decision reads are left out.
use dingdongditch.Prelude.{ℕ, Bool, String, Option, List}

pub data SignalKind : Type 0 where
  url dom_state network action_result console timestamp : SignalKind

pub record EvidenceSignal : Type 0 where
  pub signal_id : String
  pub kind : SignalKind
  pub collected_at_ms : ℕ

-- `result` is a string in the source too; the evaluators write "pass", "fail" or "indeterminate".
pub record ExpectationResult : Type 0 where
  pub expectation_id : String
  pub expectation_type : String
  pub result : String
  pub evidence_refs : List String
  pub evidence_timestamp_ms : Option ℕ
  pub freshness_ok : Option Bool
