-- ===== src/Session/Transaction.antt =====
-- The two phases of a consequential operation (`prepare_operation`, `commit_operation`,
-- `_prepared_state_change_reason`).
pub mod Governed
pub mod Once
use dingdongditch.Prelude.{
  ℕ, ◌+◌, String, Bool, true, false, not, ◌&&◌, ◌||◌, Option, none, some, List, [], ◌∷◌, ltb, leb,
  is_some, if◌then◌else◌,
}
use dingdongditch.Prelude.Equality.{◌==◌, string_eq, nat_eq, option_eq}
use dingdongditch.Authority.{FirewallDecision}
use dingdongditch.ReceiptChain.{Values}
use dingdongditch.Session.{
  SessionRecord, Host, HostEnvelope, SessionOperation, PreparedState, PreparedOperation,
  PreparedRecord, SpeculationSummary, ExecutionReceipt, CommitRejectedReason,
  MutationArbitrationPolicy, fail_on_external_mutation, prepared, committed, invalidated,
  preparation_status_eq, preparation_not_found, preparation_invalidated, preparation_expired,
  already_committed, prepared_state_changed, target_changed, origin_changed, page_changed,
  payload_changed, authority_changed, authority_rejected, secret_binding_unavailable,
  secret_binding_changed, not_consequential, mutation_epoch_changed, operation_rejected,
}
use dingdongditch.Session.Program.{
  Program, Action, commit_error, value_error, raise_when, read, assign, ask, return, raise,
  or_raise, finally, lookup, adjust, ◌>>=◌, ◌>>◌,
}
use dingdongditch.Session.Guards.{
  access, lock, touch, set_status, require_control, require_identity, require_signed_plan_operation,
  active_backend, refresh_external_mutation, reject_mutation_if_policy_requires,
}
use dingdongditch.Session.Firewall.{is_authorized, needs_preparation, firewall_decision}
use dingdongditch.Session.Dispatch.{Request, execute_locked, is_stale}

-- `d[key] = value`
abbrev pub put {ℓ} : {A : Type ℓ} → String → A → List (String × A) → List (String × A)
put key a [] = (key, a) ∷ []
put key a (entry ∷ entries) =
    let rest = put key a entries in if entry.0 == key then (key, a) ∷ entries else entry ∷ rest

pub record CommitResult : Type 0 where
  pub committed : Bool
  pub rejection_reason : Option CommitRejectedReason
  pub receipt : Option ExecutionReceipt

abbrev pub rejected_commit : CommitRejectedReason → CommitResult
rejected_commit reason = record {
  committed = false;
  rejection_reason = some reason;
  receipt = none;
}

-- A refusal that keeps the preparation, and one that voids it
pub data Refusal : Type 0 where
  keeps_preparation voids_preparation : CommitRejectedReason → Refusal

unfoldable pub prepared_state_change_reason :
    PreparedState → PreparedState → Option CommitRejectedReason
prepared_state_change_reason before after =
    if not (before.page_id == after.page_id)
    then some page_changed
    else if not (before.origin == after.origin)
    then some origin_changed
    else if not (before.target_fingerprint == after.target_fingerprint)
    then some target_changed
    else if not (before.state_fingerprint == after.state_fingerprint)
    then some prepared_state_changed
    else none

abbrev fails_on_mutation : Option MutationArbitrationPolicy → Bool
fails_on_mutation (some fail_on_external_mutation) = true
fails_on_mutation _ = false

-- The hash of an operation that the caller sends along differs.
abbrev differs : Option String → String → Bool
differs none expected = false
differs (some sent) expected = not (sent == expected)

-- The refusals before the browser is looked at, for the time, the epoch, the policy, whether the
-- browser has changed, and the hash that the caller sends along
unfoldable pub early_refusal :
    ℕ
    → ℕ
    → Option MutationArbitrationPolicy
    → Bool
    → Option String
    → PreparedOperation
    → Option Refusal
early_refusal now epoch policy changed sent p =
    if p.status == committed
    then some (keeps_preparation already_committed)
    else if p.status == invalidated
    then some (keeps_preparation preparation_invalidated)
    else if leb p.expires_at_ms now
    then some (voids_preparation preparation_expired)
    else if is_stale p.mutation_epoch epoch
    then some (voids_preparation mutation_epoch_changed)
    else if changed && fails_on_mutation policy
    then some (voids_preparation mutation_epoch_changed)
    else if differs sent p.operation_hash
    then some (keeps_preparation payload_changed)
    else none

abbrev valid_ttl : ℕ → Bool
valid_ttl ttl = leb 100 ttl && leb ttl 300000

module _ {values : Values} (host : Host values) where
  open host use {now_ms, token_urlsafe, capture, bind_secret, secret_holds, hmac_digest, token_id}

  abbrev bind : Option String → PreparedState → Program values PreparedState
  bind none state = return state
  bind (some reference) state = do
    answer ← ask (λ n. bind_secret n reference)
    binding ← or_raise answer (commit_error secret_binding_unavailable)
    return (record state { secret_binding = some binding })

  abbrev arbitration : SessionRecord values → Option MutationArbitrationPolicy → Option ℕ
  arbitration s none = none
  arbitration s (some policy) = some s.mutation_epoch

  -- `_PreparedRecord` of a preparation that expires then
  unfoldable pub prepared_record :
      SessionRecord values
      → HostEnvelope
      → SessionOperation
      → PreparedState
      → FirewallDecision
      → ℕ
      → Option String
      → Option SpeculationSummary
      → PreparedRecord
  prepared_record s e op state decision expires signed summary = record {
    shown = shown;
    operation = op;
    state = state;
    signed_speculation_operation = signed;
    speculation_summary = summary;
  }
    where
      shown : PreparedOperation
      shown = record {
        expires_at_ms = expires;
        status = prepared;
        action_type = op.outer.action_type;
        origin = state.origin;
        page_id = state.page_id;
        state_fingerprint = state.state_fingerprint;
        target_fingerprint = state.target_fingerprint;
        operation_hash = hmac_digest op.bytes;
        authority_policy_hash = e.digest;
        authority_decision = decision;
        mutation_epoch = arbitration s s.mutation_policy;
        arbitration_policy = s.mutation_policy;
      }

  abbrev store : (ℕ → PreparedRecord) → ℕ → Program values String
  store made ttl = do
    token ← ask token_urlsafe
    now ← ask now_ms
    assign (λ r. record r { preparations = put token (made (now + ttl)) r.preparations })
    touch host
    return token

  -- Under an envelope that declares the operation consequential
  abbrev prepare_governed :
      SessionRecord values
      → Option HostEnvelope
      → SessionOperation
      → ℕ
      → Option String
      → Option SpeculationSummary
      → Program values String
  prepare_governed s none op ttl signed summary = raise (commit_error not_consequential)
  prepare_governed s (some e) op ttl signed summary = do
    raise_when (not (needs_preparation e op)) (commit_error not_consequential)
    raise_when (is_some op.branching) (commit_error prepared_state_changed)
    active_backend host
    decision ← firewall_decision host s e op
    raise_when (not (is_authorized decision)) (commit_error authority_rejected)
    answer ← ask (λ n. capture n op)
    captured ← or_raise answer (commit_error prepared_state_changed)
    state ← bind op.outer.secret_reference captured
    store (λ expires. prepared_record s e op state decision expires signed summary) ttl

  unfoldable pub prepare_locked :
      SessionOperation → ℕ → Request → Option SpeculationSummary → Program values String
  prepare_locked op ttl request summary = do
    require_control host request.agent_id request.control_token
    require_identity host
    require_signed_plan_operation host op request.signed_speculation_operation
    changed ← refresh_external_mutation host
    s ← read
    reject_mutation_if_policy_requires host s.mutation_policy changed true
    prepare_governed s s.authority_envelope op ttl request.signed_speculation_operation summary

  unfoldable pub prepare_operation :
      SessionOperation → ℕ → Request → Option SpeculationSummary → Program values String
  prepare_operation op ttl request summary = do
    raise_when (not (valid_ttl ttl)) value_error
    access host
    lock host
    prepare_locked op ttl request summary

  abbrev mark : String → PreparedRecord → Action values
  mark token p = assign (λ s. record s { preparations = adjust token (λ _. p) s.preparations })

  abbrev refuse_commit : String → PreparedRecord → Refusal → Program values CommitResult
  refuse_commit token p (keeps_preparation reason) = return (rejected_commit reason)
  refuse_commit token p (voids_preparation reason) = do
    mark token (set_status invalidated p)
    return (rejected_commit reason)

  -- What a commit writes before its dispatch, and what it restores after it
  unfoldable pub begin_commit :
      String → PreparedRecord → SessionRecord values → SessionRecord values
  begin_commit token p s = record s {
    preparations = adjust token (λ _. set_status committed p) s.preparations;
    active_commit_token = some token;
    active_transaction = some (record {
      token_id = token_id token;
      preparation_fingerprint = p.shown.state_fingerprint;
      operation_hash = p.shown.operation_hash;
    });
    active_speculation =
        if is_some p.speculation_summary then p.speculation_summary else s.active_speculation;
  }

  abbrev pub end_commit : Option SpeculationSummary → SessionRecord values → SessionRecord values
  end_commit prior s = record s {
    active_commit_token = none;
    active_transaction = none;
    active_speculation = prior;
  }

  -- The token is consumed, and then the operation is dispatched.
  unfoldable pub consume : String → PreparedRecord → Request → Program values CommitResult
  consume token p request = do
    s ← read
    assign (begin_commit token p)
    executed ←
        finally
          (access host
            >> execute_locked host p.operation (record request {
              observation_reference = none;
              signed_speculation_operation = p.signed_speculation_operation;
            }))
          (end_commit s.active_speculation)
    touch host
    return (record { committed = true; rejection_reason = none; receipt = some executed.receipt })

  abbrev recheck_secret :
      Option String → String → PreparedRecord → Request → Program values CommitResult
  recheck_secret none token p request = consume token p request
  recheck_secret (some binding) token p request = do
    holds ← ask (λ n. secret_holds n p.operation.outer.secret_reference binding)
    if holds
        then consume token p request
        else refuse_commit token p (voids_preparation secret_binding_changed)

  abbrev recheck_authority :
      SessionRecord values
      → Option HostEnvelope
      → String
      → PreparedRecord
      → Request
      → Program values CommitResult
  recheck_authority s none token p request =
      refuse_commit token p (voids_preparation authority_changed)
  recheck_authority s (some e) token p request =
      if e.digest == p.shown.authority_policy_hash
      then (firewall_decision host s e p.operation >>= λ decision.
          if is_authorized decision
          then recheck_secret p.state.secret_binding token p request
          else refuse_commit token p (voids_preparation authority_rejected))
      else refuse_commit token p (voids_preparation authority_changed)

  abbrev recheck_state :
      Option CommitRejectedReason → String → PreparedRecord → Request → Program values CommitResult
  recheck_state (some reason) token p request = refuse_commit token p (voids_preparation reason)
  recheck_state none token p request = do
    s ← read
    recheck_authority s s.authority_envelope token p request

  abbrev recheck : Option Refusal → String → PreparedRecord → Request → Program values CommitResult
  recheck (some refusal) token p request = refuse_commit token p refusal
  recheck none token p request = do
    active_backend host
    answer ← ask (λ n. capture n p.operation)
    current ← or_raise answer (commit_error prepared_state_changed)
    recheck_state (prepared_state_change_reason p.state current) token p request

  -- The digest of the operation that the caller sends along
  abbrev sent_hash : Option SessionOperation → Option String
  sent_hash none = none
  sent_hash (some op) = some (hmac_digest op.bytes)

  unfoldable pub commit_found :
      SessionRecord values
      → Bool
      → String
      → Option PreparedRecord
      → Option SessionOperation
      → Request
      → Program values CommitResult
  commit_found s changed token none sent request = return (rejected_commit preparation_not_found)
  commit_found s changed token (some p) sent request = do
    now ← ask now_ms
    recheck (early_refusal now s.mutation_epoch s.mutation_policy changed (sent_hash sent) p.shown)
        token p request

  unfoldable pub commit_locked :
      String → Option SessionOperation → Request → Program values CommitResult
  commit_locked token sent request = do
    require_control host request.agent_id request.control_token
    require_identity host
    changed ← refresh_external_mutation host
    s ← read
    commit_found s changed token (lookup token s.preparations) sent request

  unfoldable pub commit_operation :
      String → Option SessionOperation → Request → Program values CommitResult
  commit_operation token sent request = access host >> lock host >> commit_locked token sent request
