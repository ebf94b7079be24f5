-- ===== src/Session/Dispatch.antt =====
-- `execute_operation` of a session: the guards, the firewall, the dispatch, the charge to the budget,
-- the check of the origin that was reached, and the receipt that is chained.
pub mod Governed
pub mod Budget
use dingdongditch.Prelude.{
  ℕ, suc, ◌+◌, ◌-◌, String, Bool, true, false, not, ◌&&◌, ◌||◌, Option, none, some, List, [], ◌∷◌,
  ◌++◌, map, ltb, is_some, is_empty, if◌then◌else◌, length, count,
}
use dingdongditch.Prelude.Equality.{◌==◌, contains, string_eq, nat_eq, option_eq}
use dingdongditch.Verdict.{Verdict, verified, not_verified, verdict_eq}
use dingdongditch.Action.{ActionType, navigate, action_eq}
use dingdongditch.Authority.{
  ProvenanceClass, FirewallDecision, FirewallOutcome, AuthorityEnvelope, merge_provenance, decide,
}
use dingdongditch.Authority
use dingdongditch.ReceiptChain.{Values, chain_receipt}
use dingdongditch.Session.{
  SessionRecord, Host, HostEnvelope, SessionOperation, ObservationReference, ExecutionReceipt,
  FailureCause, preparation_missing, authority, post_navigation, post_dispatch, SpeculationRecord,
  SignedPlanAuthority, IdentityAssertion, MutationArbitrationPolicy, MutationEvidence, terminal,
  operation_rejected, mutation_conflict,
}
use dingdongditch.Session.Program.{
  Program, Action, session_error, dispatch_error, raise_when, read, assign, ask, return, or_raise,
  ◌>>=◌, ◌>>◌,
}
use dingdongditch.Session.Guards.{
  access, lock, touch, require_control, require_identity, require_signed_plan_operation,
  active_backend, refresh_external_mutation, record_agent_mutation,
  reject_mutation_if_policy_requires,
}
use dingdongditch.Session.Firewall.{
  is_authorized, is_irreversible, as_count, needs_preparation, firewall_decision,
}

-- The caller's lease, the reference to an observation, and the authorization of a signed branch
pub record Request : Type 0 where
  pub agent_id : Option String
  pub control_token : Option String
  pub observation_reference : Option ObservationReference
  pub signed_speculation_operation : Option String

pub record SessionOperationResult : Type 0 where
  pub receipt : ExecutionReceipt
  pub recoverable : Bool
  pub terminal : Bool

-- `epoch is not None and epoch != current`
abbrev pub is_stale : Option ℕ → ℕ → Bool
is_stale none current = false
is_stale (some epoch) current = not (epoch == current)

abbrev stale_control : Option ObservationReference → ℕ → Bool
stale_control none current = false
stale_control (some reference) current = is_stale reference.control_epoch current

abbrev stale_mutation : Option ObservationReference → ℕ → Bool
stale_mutation none current = false
stale_mutation (some reference) current = is_stale reference.mutation_epoch current

-- The operation with the provenance of what was observed
abbrev add_provenance : List ProvenanceClass → Authority.Operation → Authority.Operation
add_provenance observed action = record action {
  provenance = merge_provenance (action.provenance ∷ observed ∷ []);
}

abbrev pub governed : SessionOperation → Option ObservationReference → SessionOperation
governed op none = op
governed op (some reference) = if is_empty reference.provenance then op else record op {
  outer = add_provenance reference.provenance op.outer;
  branching = all_branches op.branching;
}
  where
    all_branches :
        Option (List (List Authority.Operation)) → Option (List (List Authority.Operation))
    all_branches none = none
    all_branches (some alternatives) =
        some (map (map (add_provenance reference.provenance)) alternatives)

-- `_failed_receipt` with the verdict NOT_VERIFIED
unfoldable pub failed_receipt :
    SessionOperation → String → FailureCause → Option FirewallDecision → ExecutionReceipt
failed_receipt op status cause decision = record {
  operation_id = op.operation_id;
  verdict = not_verified;
  execution_status = status;
  failure_kind = some cause;
  action_started_at_ms = none;
  branch_actions = none;
  authority_decision = decision;
  transaction = none;
  control_epoch = none;
  signed_plan = none;
  identity = none;
  speculation = none;
  mutation_arbitration = none;
}

-- `_receipt_dispatch_counts`
unfoldable pub receipt_dispatch_counts :
    ExecutionReceipt → AuthorityEnvelope → SessionOperation → ℕ × ℕ
receipt_dispatch_counts receipt e op = counts receipt.branch_actions receipt.action_started_at_ms
  where
    counts : Option (List ActionType) → Option ℕ → ℕ × ℕ
    counts (some types) started =
        (length types, count (λ t. contains e.irreversible_action_types t) types)
    counts none none = (0, 0)
    counts none (some started) = (1, as_count (is_irreversible e op.outer))

module _ {values : Values} where
  -- What the session knows is written into the receipt.
  abbrev pub decorate : SessionRecord values → ExecutionReceipt → ExecutionReceipt
  decorate s receipt = record receipt {
    transaction =
        if is_some s.active_transaction then s.active_transaction else receipt.transaction;
    control_epoch = some s.control_epoch;
    signed_plan = plan_reference s.signed_plan_authority;
    identity = identity_reference s.identity_descriptor s.identity_assertion;
    speculation =
        if is_some s.active_speculation then s.active_speculation else receipt.speculation;
    mutation_arbitration = evidence s.mutation_policy s.mutation_last_evidence;
  }
    where
      plan_reference : Option SignedPlanAuthority → Option String
      plan_reference none = receipt.signed_plan
      plan_reference (some plan) = some plan.reference

      identity_reference :
          Option String → Option IdentityAssertion → Option (String × IdentityAssertion)
      identity_reference (some descriptor) (some assertion) = some (descriptor, assertion)
      identity_reference _ _ = receipt.identity

      evidence :
          Option MutationArbitrationPolicy → Option MutationEvidence → Option MutationEvidence
      evidence (some policy) (some last) = some last
      evidence _ _ = receipt.mutation_arbitration

-- The epoch of a speculation whose parent this dispatch was is the current one.
abbrev pub advance_speculation : String → ℕ → SpeculationRecord → SpeculationRecord
advance_speculation observed epoch item =
    if not item.consumed
      && item.parent_operation_hash == some observed
      && is_some item.mutation_epoch
    then record item { mutation_epoch = some epoch }
    else item

module _ {values : Values} (host : Host values) where
  open values use {Value, null, text, get}
  open host use {
    now_ms, is_started, scoped_action_url, page_url, dispatch, hmac_digest, as_dict, readers,
  }

  -- `backend.scoped_action_url`, or `backend.page.url`
  abbrev post_dispatch_url : SessionOperation → ℕ → String
  post_dispatch_url op n = url (scoped_action_url n op.outer)
    where
      url : Option (Option String) → String
      url (some (some answer)) = answer
      url _ = page_url n

  -- The decision on the origin that a dispatch reached, with the counts before it
  abbrev post_navigation_decision :
      SessionRecord values → HostEnvelope → SessionOperation → ℕ → FirewallDecision
  post_navigation_decision s e op n =
      let url = post_dispatch_url op n in
      decide readers op.outer e.policy (some url) (some url) (now_ms n)
        (s.authority_action_count - 1)
        (s.authority_side_effect_count - as_count (is_irreversible e.policy op.outer))

  abbrev reject_after : SessionOperation → FirewallDecision → ExecutionReceipt → ExecutionReceipt
  reject_after op decision receipt =
      let navigates = op.outer.action_type == navigate in
      record receipt {
        verdict = not_verified;
        execution_status =
            if navigates
            then "post_navigation_authority_rejected"
            else "post_dispatch_authority_rejected";
        failure_kind = some (
            if navigates then post_navigation decision.outcome else post_dispatch decision.outcome);
        authority_decision = some decision;
      }

  abbrev check_reached :
      HostEnvelope → SessionOperation → ExecutionReceipt → Program values ExecutionReceipt
  check_reached e op receipt = do
    s ← read
    decision ← ask (post_navigation_decision s e op)
    return (
        if is_some receipt.action_started_at_ms && not (is_authorized decision)
        then reject_after op decision receipt
        else receipt)

  abbrev charge : HostEnvelope → SessionOperation → ExecutionReceipt → Action values
  charge e op receipt =
      let counts = receipt_dispatch_counts receipt e.policy op in
      assign (λ s. record s {
        authority_action_count = s.authority_action_count + counts.0;
        authority_side_effect_count = s.authority_side_effect_count + counts.1;
      })

  abbrev run_dispatch : SessionOperation → Program values ExecutionReceipt
  run_dispatch op = ask (λ n. dispatch n op) >>= λ answer. or_raise answer dispatch_error

  -- The dispatch of what the firewall has authorized
  unfoldable pub dispatch_authorized :
      HostEnvelope
      → SessionOperation
      → SessionOperation
      → FirewallDecision
      → Program values ExecutionReceipt
  dispatch_authorized e op dispatched decision = do
    executed ← run_dispatch dispatched
    let receipt : ExecutionReceipt = record executed { authority_decision = some decision }
    charge e op receipt
    check_reached e op receipt

  abbrev decide_dispatch :
      HostEnvelope
      → SessionOperation
      → SessionOperation
      → FirewallDecision
      → Program values ExecutionReceipt
  decide_dispatch e op dispatched decision =
      if is_authorized decision
      then dispatch_authorized e op dispatched decision
      else return
          (failed_receipt op "authority_rejected" (authority decision.outcome) (some decision))

  -- The receipt of the operation under the envelope, if there is one
  unfoldable pub governed_receipt :
      SessionRecord values
      → Option HostEnvelope
      → SessionOperation
      → SessionOperation
      → Program values ExecutionReceipt
  governed_receipt s none op dispatched = run_dispatch dispatched
  governed_receipt s (some e) op dispatched =
      if needs_preparation e op && not (is_some s.active_commit_token)
      then return (failed_receipt op "preparation_required" preparation_missing none)
      else (firewall_decision host s e dispatched >>= decide_dispatch e op dispatched)

  abbrev pub or_null : Option Value → Value
  or_null none = null
  or_null (some v) = v

  -- The receipt's mapping, chained to the session's head
  unfoldable pub chained : SessionRecord values → SessionOperation → ExecutionReceipt → Value
  chained s op receipt =
      chain_receipt values (as_dict receipt) (or_null s.receipt_chain_head) null
        (text (hmac_digest op.bytes)) (text s.session_id)

  unfoldable pub append_receipt : SessionOperation → ExecutionReceipt → Action values
  append_receipt op receipt = assign (λ s. record s {
    receipt_chain = s.receipt_chain ++ chained s op receipt ∷ [];
    receipt_chain_head = some (get (get (chained s op receipt) "receipt_chain") "receipt_hash");
  })

  -- A dispatched step of a signed plan is consumed.
  abbrev consume_step : Option String → ExecutionReceipt → Action values
  consume_step signed_speculation receipt = assign (λ s. record s {
    signed_plan_next_index =
        if is_some s.signed_plan_authority
          && not (is_some signed_speculation)
          && is_some receipt.action_started_at_ms
        then suc s.signed_plan_next_index
        else s.signed_plan_next_index;
  })

  -- `_advance_speculations_after_parent`
  abbrev advance_speculations : SessionOperation → ExecutionReceipt → Action values
  advance_speculations op receipt = assign (λ s. record s {
    speculations =
        if receipt.verdict == verified && is_some receipt.action_started_at_ms
        then map
            (λ entry.
              (entry.0, advance_speculation (hmac_digest op.bytes) s.mutation_epoch entry.1))
            s.speculations
        else s.speculations;
  })

  abbrev after_dispatch : SessionOperation → ExecutionReceipt → Action values
  after_dispatch op receipt = do
    s ← read
    record_agent_mutation host s.mutation_policy
    advance_speculations op receipt

  -- What follows a receipt: it is chained, and the records of the session are brought up to date.
  unfoldable pub conclude :
      Option String → SessionOperation → ExecutionReceipt → Program values SessionOperationResult
  conclude signed_speculation op receipt = do
    s ← read
    let final : ExecutionReceipt = decorate s receipt
    append_receipt op final
    consume_step signed_speculation final
    (if is_some s.mutation_policy && is_some final.action_started_at_ms
        then after_dispatch op final
        else return tt)
    alive ← ask is_started
    assign (λ r. record r { status = if alive then r.status else terminal })
    touch host
    return (record { receipt = final; recoverable = alive; terminal = not alive })

  -- The body of `execute_operation`, under the lock; `dispatched` is what the browser is given.
  unfoldable pub execute_locked : SessionOperation → Request → Program values SessionOperationResult
  execute_locked op request = do
    require_control host request.agent_id request.control_token
    require_identity host
    require_signed_plan_operation host op request.signed_speculation_operation
    changed ← refresh_external_mutation host
    s ← read
    raise_when (stale_control request.observation_reference s.control_epoch)
        (session_error operation_rejected)
    raise_when (stale_mutation request.observation_reference s.mutation_epoch)
        (session_error mutation_conflict)
    reject_mutation_if_policy_requires host s.mutation_policy changed
        (is_some request.observation_reference)
    active_backend host
    receipt ← governed_receipt s s.authority_envelope op (governed op request.observation_reference)
    conclude request.signed_speculation_operation op receipt

  unfoldable pub execute_operation :
      SessionOperation → Request → Program values SessionOperationResult
  execute_operation op request = access host >> lock host >> execute_locked op request
