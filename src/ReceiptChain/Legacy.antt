-- ===== src/ReceiptChain/Legacy.antt =====
-- The entries of the two older chain versions, kept to verify chains that were published with them
-- (`_make_receipt_chain_entry_v1` and `_v2` in dingdongditch/contract/receipt_chain.py).
use dingdongditch.Prelude.{String, ◌&&◌, List, [], ◌∷◌, ◌++◌, map, filter}
use dingdongditch.ReceiptChain.{
  Values, fields, or_empty, items_of, checksum, artifact_id, field_presence, bounded_evidence,
  browser_of, session_binding_hash,
}

abbrev payload_fields_v1 : List String
payload_fields_v1 =
    "schema_version" ∷ "operation_id" ∷ "verdict" ∷ "action_type" ∷ "target_locator"
    ∷ "target_resolution" ∷ "target_url" ∷ "execution_status" ∷ "failure_kind"
    ∷ "action_executed_successfully" ∷ "action_evidence" ∷ "page_precondition"
    ∷ "authority_decision" ∷ "transaction" ∷ "quorum_verification" ∷ "expectation_results"
    ∷ "freshness" ∷ "runtime_version" ∷ []

abbrev payload_fields_v2 : List String
payload_fields_v2 =
    "schema_version" ∷ "operation_id" ∷ "verdict" ∷ "action_type" ∷ "target_locator"
    ∷ "target_resolution" ∷ "target_url" ∷ "execution_status" ∷ "execution_error" ∷ "failure_kind"
    ∷ "action_executed_successfully" ∷ "action_evidence" ∷ "page_precondition" ∷ "page_transition"
    ∷ "navigation_occurred" ∷ "dispatch_document_url" ∷ "authority_decision" ∷ "transaction"
    ∷ "quorum_verification" ∷ "control_epoch" ∷ "expectation_results" ∷ "freshness"
    ∷ "runtime_version" ∷ []

abbrev evidence_fields_v2 : List String
evidence_fields_v2 =
    "evidence" ∷ "expectation_evidence" ∷ "action_evidence" ∷ "quorum_verification" ∷ []

module _ (values : Values) where
  open values use {
    Value, text, array, dict, get, is_mapping, is_text, truthy, legacy_digest, sorted,
  }

  -- The checksums of the artifacts that have one.
  artifact_hashes_v2 : Value → Value
  artifact_hashes_v2 raw =
      let checked =
        filter
          (λ item.
            is_mapping item && is_text (checksum values item) && truthy (checksum values item))
          (items_of values (get raw "artifacts")) in
      array (
        map (λ (pair : Value × Value). dict (("artifact_id", pair.0) ∷ ("sha256", pair.1) ∷ []))
          (sorted (map (λ item. (artifact_id values item, checksum values item)) checked)))

  receipt_payload_v1 : Value → Value
  unfolding artifact_hashes_v2
  receipt_payload_v1 raw = dict (
      ("bounded_evidence", bounded_evidence values raw)
      ∷ ("artifact_hashes", artifact_hashes_v2 raw)
      ∷ ("browser", browser_of values raw)
      ∷ fields values payload_fields_v1 raw)

  receipt_payload_v2 : Value → Value
  unfolding artifact_hashes_v2
  receipt_payload_v2 raw = dict (
      ("bounded_evidence", bounded_evidence values raw)
      ∷ ("artifact_hashes", artifact_hashes_v2 raw)
      ∷ ("browser", browser_of values raw)
      ∷ ("field_presence", field_presence values raw)
      ∷ fields values payload_fields_v2 raw)

  pub make_receipt_chain_entry_v1 : Value → Value → Value → Value → Value
  unfolding receipt_payload_v1
  make_receipt_chain_entry_v1 raw previous plan operation =
      let entry =
        ("chain_version", text "1")
        ∷ ("previous_receipt_hash", previous)
        ∷ ("receipt_payload_hash", legacy_digest (receipt_payload_v1 raw))
        ∷ ("execution_plan_hash", plan)
        ∷ ("operation_hash", operation)
        ∷ ("policy_hash", get (or_empty values (get raw "authority_decision")) "policy_hash")
        ∷ (
          "evidence_hash",
          legacy_digest (dict (fields values ("evidence" ∷ "expectation_evidence" ∷ []) raw)),
        )
        ∷ ("artifact_hashes", artifact_hashes_v2 raw)
        ∷ ("runtime_version", get raw "runtime_version")
        ∷ ("receipt_schema_version", get raw "schema_version")
        ∷ [] in
      dict (entry ++ ("receipt_hash", legacy_digest (dict entry)) ∷ [])

  pub make_receipt_chain_entry_v2 : Value → Value → Value → Value → Value
  unfolding receipt_payload_v2
  make_receipt_chain_entry_v2 raw previous plan operation =
      let entry =
        ("chain_version", text "2")
        ∷ ("previous_receipt_hash", previous)
        ∷ ("receipt_payload_hash", legacy_digest (receipt_payload_v2 raw))
        ∷ ("execution_plan_hash", plan)
        ∷ ("operation_hash", operation)
        ∷ ("policy_hash", get (or_empty values (get raw "authority_decision")) "policy_hash")
        ∷ ("evidence_hash", legacy_digest (dict (fields values evidence_fields_v2 raw)))
        ∷ ("artifact_hashes", artifact_hashes_v2 raw)
        ∷ ("session_binding_hash", session_binding_hash values raw)
        ∷ ("runtime_version", get raw "runtime_version")
        ∷ ("receipt_schema_version", get raw "schema_version")
        ∷ [] in
      dict (entry ++ ("receipt_hash", legacy_digest (dict entry)) ∷ [])
