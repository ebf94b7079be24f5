-- ===== src/ReceiptChain.antt =====
-- Receipt hashing (dingdongditch/contract/receipt_chain.py): the payload of a
-- receipt, its hash, and the chain entry of the current version. A receipt is the mapping that
-- `_as_dict` gives.
--
-- JSON values, the operations of Python's dicts and lists on them, their canonical bytes and SHA-256
-- are a parameter. Bytes and numbers that are not finite, which `canonical_json_bytes` refuses, are no
-- values here; `_canonical` itself is in Verify/Json.antt.
use dingdongditch.Prelude.{
  ℕ, String, Bool, true, false, not, ◌&&◌, List, [], ◌∷◌, ◌++◌, map, if◌then◌else◌, length, any,
}
use dingdongditch.Prelude.Equality.{Eq, string_eq}
pub mod Legacy
pub mod Verify

pub record Values : Type 1 where
  pub Value : Type 0
  -- Python's `==`, which takes 1, 1.0 and True for one another
  pub equals : Value → Value → Bool
  pub null : Value
  pub text : String → Value
  pub number : ℕ → Value
  pub flag : Bool → Value
  pub array : List Value → Value
  pub dict : List (String × Value) → Value
  -- `d.get(k)`, `k in d` and `{k: v for k, v in d.items() if k not in known}`
  pub get : Value → String → Value
  pub has : Value → String → Bool
  -- the copy of `d` with `d[k] = v`
  pub put : Value → String → Value → Value
  pub without : List String → Value → Value
  -- `isinstance(x, Mapping)`, `isinstance(x, str)`, `bool(x)`, the items of `x`, and `str(x)`
  pub is_mapping : Value → Bool
  pub is_text : Value → Bool
  pub truthy : Value → Bool
  pub elements : Value → List Value
  pub to_text : Value → Value
  -- `len(x)` of a text
  pub text_length : Value → ℕ
  pub Bytes : Type 0
  -- `canonical_json_bytes(x)`, which normalizes texts
  pub canonical_json_bytes : Value → Bytes
  -- `hashlib.sha256(bytes).hexdigest()`
  pub sha256 : Bytes → Value
  -- the same over the older bytes of `json.dumps`
  pub legacy_digest : Value → Value
  -- `sorted` by the artifact id and the checksum
  pub sorted : List (Value × Value) → List (Value × Value)

abbrev pub payload_fields : List String
payload_fields =
    "schema_version" ∷ "operation_id" ∷ "verdict" ∷ "action_type" ∷ "target_locator"
    ∷ "target_resolution" ∷ "target_url" ∷ "execution_status" ∷ "execution_error" ∷ "failure_kind"
    ∷ "action_executed_successfully" ∷ "action_evidence" ∷ "page_precondition" ∷ "page_transition"
    ∷ "navigation_occurred" ∷ "dispatch_document_url" ∷ "authority_decision" ∷ "transaction"
    ∷ "quorum_verification" ∷ "signed_plan" ∷ "identity" ∷ "mutation_arbitration" ∷ "speculation"
    ∷ "control_epoch" ∷ "expectation_results" ∷ "freshness" ∷ "runtime_version" ∷ []

abbrev pub presence_fields : List String
presence_fields =
    "target_locator" ∷ "target_resolution" ∷ "failure_kind" ∷ "execution_error" ∷ "action_evidence"
    ∷ "page_precondition" ∷ "page_transition" ∷ "dispatch_document_url" ∷ "authority_decision"
    ∷ "transaction" ∷ "quorum_verification" ∷ "control_epoch" ∷ "signed_plan" ∷ "identity"
    ∷ "mutation_arbitration" ∷ "speculation" ∷ "expectation_evidence" ∷ "artifacts" ∷ "browser" ∷ []

-- `_RECEIPT_CHAIN_KNOWN_FIELDS`
abbrev pub known_fields : List String
known_fields =
    "schema_version" ∷ "operation_id" ∷ "verdict" ∷ "action_type" ∷ "target_locator"
    ∷ "target_resolution" ∷ "target_url" ∷ "started_at_ms" ∷ "finished_at_ms"
    ∷ "action_started_at_ms" ∷ "action_completed_at_ms" ∷ "verification_completed_at_ms"
    ∷ "execution_status" ∷ "execution_error" ∷ "failure_kind" ∷ "action_executed_successfully"
    ∷ "action_evidence" ∷ "page_precondition" ∷ "page_transition" ∷ "navigation_occurred"
    ∷ "dispatch_document_url" ∷ "authority_decision" ∷ "transaction" ∷ "quorum_verification"
    ∷ "control_epoch" ∷ "signed_plan" ∷ "identity" ∷ "mutation_arbitration" ∷ "speculation"
    ∷ "expectation_results" ∷ "freshness" ∷ "expectation_evidence" ∷ "evidence" ∷ "artifacts"
    ∷ "runtime_version" ∷ "browser" ∷ "telemetry" ∷ "operation_timing" ∷ "cleanup"
    ∷ "expectations_declared" ∷ "pre_action_observation" ∷ "post_action_observation"
    ∷ "recovery_attempts" ∷ "limitations" ∷ "backend_identity" ∷ "browser_identity"
    ∷ "receipt_chain" ∷ []

abbrev pub browser_fields : List String
browser_fields = "engine" ∷ "channel" ∷ "browser_session_id" ∷ "context_id" ∷ "page_id" ∷ []

abbrev pub evidence_fields : List String
evidence_fields =
    "evidence" ∷ "expectation_evidence" ∷ "action_evidence" ∷ "quorum_verification" ∷ "signed_plan"
    ∷ "identity" ∷ "mutation_arbitration" ∷ "speculation" ∷ []

module _ (values : Values) where
  open values use {
    Value, null, text, number, flag, array, dict, get, has, put, without, is_mapping, is_text,
    truthy, elements, to_text, canonical_json_bytes, sha256,
  }

  -- `hashlib.sha256(canonical_json_bytes(x)).hexdigest()`
  abbrev pub digest : Value → Value
  digest x = sha256 (canonical_json_bytes x)

  -- `{key: d.get(key) for key in keys}`, as the entries of the dict
  abbrev pub fields : List String → Value → List (String × Value)
  fields keys d = map (λ key. (key, get d key)) keys

  -- `x or y`, and `x or {}`
  abbrev pub or_value : Value → Value → Value
  or_value x y = if truthy x then x else y

  abbrev pub or_empty : Value → Value
  or_empty x = or_value x (dict [])

  abbrev pub items_of : Value → List Value
  items_of x = if truthy x then elements x else []

  abbrev pub checksum : Value → Value
  checksum item =
      or_value (get item "sha256") (or_value (get item "checksum") (get item "checksum_sha256"))

  -- `str(item.get("artifact_id", ""))`
  abbrev pub artifact_id : Value → Value
  artifact_id item = to_text (if has item "artifact_id" then get item "artifact_id" else text "")

  abbrev pub manifest_item : Value → Value
  manifest_item item =
      if is_mapping item
      then dict (
          ("artifact_id", artifact_id item)
          ∷ (
            "sha256",
            if is_text (checksum item) && truthy (checksum item) then checksum item else null,
          )
          ∷ ("declaration_hash", digest item)
          ∷ [])
      else dict (("artifact_id", null) ∷ ("sha256", null) ∷ ("declaration_hash", digest item) ∷ [])

  abbrev pub artifact_manifest : Value → Value
  artifact_manifest raw =
      let items = map manifest_item (items_of (get raw "artifacts")) in
      dict (("count", number (length items)) ∷ ("items", array items) ∷ [])

  abbrev pub binding_of : Value → List (String × Value)
  binding_of browser = fields ("browser_session_id" ∷ "context_id" ∷ []) browser

  pub session_binding_hash : Value → Value
  session_binding_hash raw =
      let browser = get raw "browser" in
      if not (is_mapping browser)
      then null
      else if not
          (any (λ (entry : String × Value). is_text entry.1 && truthy entry.1) (binding_of browser))
      then null
      else digest (dict (binding_of browser))

  abbrev pub presence : List String → Value → List (String × Value)
  presence keys d = map (λ key. (key, flag (has d key))) keys

  abbrev pub field_presence : Value → Value
  field_presence raw = dict (presence presence_fields raw)

  abbrev pub bounded_evidence : Value → Value
  bounded_evidence raw = dict (fields ("expectation_evidence" ∷ "evidence" ∷ []) raw)

  abbrev pub browser_of : Value → Value
  browser_of raw = dict (fields browser_fields (or_empty (get raw "browser")))

  abbrev pub receipt_payload : Value → Value
  receipt_payload raw = dict (
      ("bounded_evidence", bounded_evidence raw)
      ∷ ("artifact_manifest", artifact_manifest raw)
      ∷ ("browser", browser_of raw)
      ∷ ("field_presence", field_presence raw)
      ∷ ("extensions", without known_fields raw)
      ∷ fields payload_fields raw)

  pub hash_receipt : Value → Value
  hash_receipt raw = digest (receipt_payload raw)

  -- The entry without its own hash, for the hashes of the receipt before, the plan and the
  -- operation, and the session.
  abbrev pub entry_fields : Value → Value → Value → Value → Value → List (String × Value)
  entry_fields raw previous plan operation session =
      ("chain_version", text "3")
      ∷ ("previous_receipt_hash", previous)
      ∷ ("receipt_payload_hash", hash_receipt raw)
      ∷ ("execution_plan_hash", plan)
      ∷ ("operation_hash", operation)
      ∷ ("policy_hash", get (or_empty (get raw "authority_decision")) "policy_hash")
      ∷ ("evidence_hash", digest (dict (fields evidence_fields raw)))
      ∷ ("artifact_hashes", artifact_manifest raw)
      ∷ ("session_binding_hash", session_binding_hash raw)
      ∷ ("runtime_version", get raw "runtime_version")
      ∷ ("receipt_schema_version", get raw "schema_version")
      ∷ ("session_id", session)
      ∷ []

  pub make_receipt_chain_entry : Value → Value → Value → Value → Value → Value
  make_receipt_chain_entry raw previous plan operation session =
      let entry = entry_fields raw previous plan operation session in
      dict (entry ++ ("receipt_hash", digest (dict entry)) ∷ [])

  -- `chain_receipt` of a mapping
  pub chain_receipt : Value → Value → Value → Value → Value → Value
  chain_receipt raw previous plan operation session =
      put raw "receipt_chain" (make_receipt_chain_entry raw previous plan operation session)
