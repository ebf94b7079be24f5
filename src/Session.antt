-- ===== src/Session.antt =====
-- A governed session (dingdongditch/runtime/stateful_session.py): its record, the prepared
-- operations (dingdongditch/contract/transaction.py), the offers of a handoff
-- (dingdongditch/contract/handoff.py), the evidence of a mutation (dingdongditch/contract/mutation.py)
-- and what the session takes from outside.
--
-- The record is that of one session. What the code takes from outside while it runs (the clock, the
-- token generator, the lock, the browser, the identity registry) is an answer of `Host` to a numbered
-- question; `answered` counts the questions, and is the one field that the source does not have.
pub mod Program
pub mod Guards
pub mod Firewall
pub mod Dispatch
pub mod Transaction
pub mod Handoff
pub mod Calls
pub mod Governance
pub mod Follows
pub mod Tokens
pub mod Leases
pub mod Chain
pub mod Ends
mod Tests
use dingdongditch.Prelude.{ℕ, String, Bool, Option, List}
use dingdongditch.Prelude.Equality.{Eq}
use dingdongditch.Verdict.{Verdict}
use dingdongditch.Action.{ActionType}
use dingdongditch.Authority.{
  AuthorityEnvelope, FirewallDecision, FirewallOutcome, ProvenanceClass, Readers,
}
use dingdongditch.Authority
use dingdongditch.ReceiptChain.{Values}

pub data PublicSessionStatus : Type 0 where
  open_session closed expired terminal : PublicSessionStatus

unfoldable pub PublicSessionStatus-discrete : Discrete PublicSessionStatus
PublicSessionStatus-discrete = hlevel

instance unfoldable pub session_status_eq : Eq PublicSessionStatus
session_status_eq = record { dec = PublicSessionStatus-discrete }

-- The kinds that an existing session raises.
pub data SessionFailureKind : Type 0 where
  session_closed session_expired terminal_browser_failure : SessionFailureKind
  operation_rejected cleanup_failure session_busy session_config_mismatch : SessionFailureKind
  control_lease_rejected handoff_token_invalid handoff_token_expired : SessionFailureKind
  handoff_already_claimed handoff_recipient_rejected handoff_checkpoint_stale : SessionFailureKind
  signed_plan_rejected mutation_conflict invalid_page_id : SessionFailureKind

pub data PreparationStatus : Type 0 where
  prepared committed invalidated : PreparationStatus

unfoldable pub PreparationStatus-discrete : Discrete PreparationStatus
PreparationStatus-discrete = hlevel

instance unfoldable pub preparation_status_eq : Eq PreparationStatus
preparation_status_eq = record { dec = PreparationStatus-discrete }

pub data CommitRejectedReason : Type 0 where
  preparation_not_found preparation_invalidated preparation_expired : CommitRejectedReason
  already_committed prepared_state_changed target_changed origin_changed : CommitRejectedReason
  page_changed payload_changed authority_changed authority_rejected : CommitRejectedReason
  secret_binding_unavailable secret_binding_changed preparation_required : CommitRejectedReason
  not_consequential mutation_epoch_changed : CommitRejectedReason

pub data MutationActor : Type 0 where
  agent human external_unknown : MutationActor

pub data MutationArbitrationPolicy : Type 0 where
  fail_on_external_mutation require_reprepare human_priority : MutationArbitrationPolicy

pub record MutationEvidence : Type 0 where
  pub mutation_epoch : ℕ
  pub actor : MutationActor
  pub policy : MutationArbitrationPolicy
  pub detected_at_ms : ℕ
  pub source : String
  pub preparation_invalidated : Bool

-- The envelope as the session reads it: what the firewall reads, and the rest.
pub record HostEnvelope : Type 0 where
  pub policy : AuthorityEnvelope
  pub digest : String
  pub require_preparation_for : List ActionType
  pub transfer_prepared_operations : Bool

-- `branching` is there for a guard that is not of the legacy kind: the actions of each branch and
-- then of the default, each as the operation that has it for its action. `bytes` is
-- `canonical_json_bytes(operation.to_public_dict())`.
pub record SessionOperation : Type 0 where
  pub operation_id : String
  pub outer : Authority.Operation
  pub branching : Option (List (List Authority.Operation))
  pub bytes : String

pub record ObservationReference : Type 0 where
  pub provenance : List ProvenanceClass
  pub control_epoch : Option ℕ
  pub mutation_epoch : Option ℕ

-- What `_capture_prepared_state` returns, with the binding that `prepare_operation` adds.
pub record PreparedState : Type 0 where
  pub page_id : String
  pub origin : String
  pub target_fingerprint : Option String
  pub state_fingerprint : String
  pub secret_binding : Option String

pub record PreparedOperation : Type 0 where
  pub expires_at_ms : ℕ
  pub status : PreparationStatus
  pub action_type : ActionType
  pub origin : String
  pub page_id : String
  pub state_fingerprint : String
  pub target_fingerprint : Option String
  pub operation_hash : String
  pub authority_policy_hash : String
  pub authority_decision : FirewallDecision
  pub mutation_epoch : Option ℕ
  pub arbitration_policy : Option MutationArbitrationPolicy

-- The branch that a speculation selected: its ids.
pub record SpeculationSummary : Type 0 where
  pub speculation_id : String
  pub branch_id : String

pub record PreparedRecord : Type 0 where
  pub shown : PreparedOperation
  pub operation : SessionOperation
  pub state : PreparedState
  pub signed_speculation_operation : Option String
  pub speculation_summary : Option SpeculationSummary

-- What carries a speculation across its parent's dispatch.
pub record SpeculationRecord : Type 0 where
  pub mutation_epoch : Option ℕ
  pub consumed : Bool
  pub parent_operation_hash : Option String

pub record IdentityAssertion : Type 0 where
  pub identity_id : String
  pub statement : String

pub record AgentHandoffCheckpoint : Type 0 where
  pub old_agent_id : Option String
  pub recipient_agent_id : Option String
  pub control_epoch : ℕ
  pub expires_at_ms : ℕ
  pub mutation_epoch : Option ℕ

pub record PendingHandoff : Type 0 where
  pub checkpoint : AgentHandoffCheckpoint
  pub claimed : Bool
  pub recipient_identity_assertion : Option IdentityAssertion
  pub recipient_identity_descriptor : Option String

pub record SignedPlanAuthority : Type 0 where
  pub issued_at_ms : ℕ
  pub expires_at_ms : ℕ
  pub agent_identity_id : Option String
  pub reference : String

-- `token_id` is the short digest of the token.
pub record ActiveTransaction : Type 0 where
  pub token_id : String
  pub preparation_fingerprint : String
  pub operation_hash : String

-- The `failure_kind` of a receipt: the session's own, with the outcome of the firewall that is a part
-- of the text, or one of the executor's.
pub data FailureCause : Type 0 where
  preparation_missing : FailureCause
  authority post_navigation post_dispatch : FirewallOutcome → FailureCause
  executor : String → FailureCause

-- The fields of an `ExecutionReceipt` that the session reads or writes. `branch_actions` is there if
-- the evidence of a guard lists the actions that it dispatched.
pub record ExecutionReceipt : Type 0 where
  pub operation_id : String
  pub verdict : Verdict
  pub execution_status : String
  pub failure_kind : Option FailureCause
  pub action_started_at_ms : Option ℕ
  pub branch_actions : Option (List ActionType)
  pub authority_decision : Option FirewallDecision
  pub transaction : Option ActiveTransaction
  pub control_epoch : Option ℕ
  pub signed_plan : Option String
  pub identity : Option (String × IdentityAssertion)
  pub speculation : Option SpeculationSummary
  pub mutation_arbitration : Option MutationEvidence

module _ (values : Values) where
  open values use {Value}

  pub record SessionRecord : Type 0 where
    pub session_id : String
    -- `backend is not None`
    pub has_backend : Bool
    pub last_activity_at_ms : ℕ
    pub idle_timeout_ms : ℕ
    pub status : PublicSessionStatus
    pub cleanup_errors : List String
    pub authority_envelope : Option HostEnvelope
    pub authority_action_count : ℕ
    pub authority_side_effect_count : ℕ
    pub preparations : List (String × PreparedRecord)
    pub active_commit_token : Option String
    pub active_transaction : Option ActiveTransaction
    pub receipt_chain_head : Option Value
    pub receipt_chain : List Value
    pub agent_id : Option String
    pub control_epoch : ℕ
    pub control_token : Option String
    pub pending_handoffs : List (String × PendingHandoff)
    pub signed_plan_authority : Option SignedPlanAuthority
    pub signed_plan_operation_bytes : List String
    pub signed_plan_next_index : ℕ
    pub has_identity_registry : Bool
    pub identity_assertion : Option IdentityAssertion
    pub identity_descriptor : Option String
    pub mutation_policy : Option MutationArbitrationPolicy
    pub mutation_epoch : ℕ
    pub mutation_state_fingerprint : Option String
    pub mutation_last_evidence : Option MutationEvidence
    pub mutation_events : List MutationEvidence
    pub speculations : List (String × SpeculationRecord)
    pub active_speculation : Option SpeculationSummary
    pub answered : ℕ

  -- The answers to the question of a number, and the functions that the source takes from libraries.
  pub record Host : Type 0 where
    -- `_now_ms()`
    pub now_ms : ℕ → ℕ
    -- `secrets.token_urlsafe(32)`
    pub token_urlsafe : ℕ → String
    -- `lock.acquire(blocking=False)`
    pub acquires : ℕ → Bool
    -- `backend.is_started`
    pub is_started : ℕ → Bool
    -- `backend.stop()` raises, and `backend.cleanup_errors` is not empty
    pub stop_raises : ℕ → Bool
    pub stop_errors : ℕ → Bool
    -- the fingerprint of `backend.transaction_scope_state`, `none` where one of them raises
    pub mutation_state : ℕ → Option String
    -- `backend.scoped_action_url` for the frame of an action: `none` where it raises, and
    -- `some none` where the answer is not a text
    pub scoped_action_url : ℕ → Authority.Operation → Option (Option String)
    -- `backend.page.url`
    pub page_url : ℕ → String
    -- `_capture_prepared_state`, `none` where it raises
    pub capture : ℕ → SessionOperation → Option PreparedState
    -- `authentication.bind_secret`, and the checks of a binding; `none` and `false` where they raise
    pub bind_secret : ℕ → String → Option String
    pub secret_holds : ℕ → Option String → String → Bool
    -- `identity_registry.verify` for a controller, with the `identity_id` of the descriptor
    pub verify_identity : ℕ → IdentityAssertion → Option String → Option String
    -- `_execute_operation`, `none` where it raises
    pub dispatch : ℕ → SessionOperation → Option ExecutionReceipt
    -- `_validate_agent_id` of a text does not raise
    pub valid_agent_id : String → Bool
    -- `hmac.new(key, ...)` of an operation's bytes, and `hashlib.sha256(token)[:24]`
    pub hmac_digest : String → String
    pub token_id : String → String
    -- the mapping of a receipt
    pub as_dict : ExecutionReceipt → Value
    pub readers : Readers
