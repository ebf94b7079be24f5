-- ===== src/Session/Guards.antt =====
-- What every call of a session begins with (`_access`, `_locked`, `_require_control`,
-- `_require_identity`, `_require_signed_plan_operation`, `_active_backend`), the closing of a record,
-- and the arbitration of mutations.
pub mod Governed
pub mod Frame
pub mod Ends
use dingdongditch.Prelude.{
  ℕ, zero, suc, ◌+◌, ◌-◌, String, Bool, true, false, not, ◌&&◌, ◌||◌, Option, none, some, List, [],
  ◌∷◌, ◌++◌, map, ltb, leb, is_some, if◌then◌else◌, length, any, drop,
}
use dingdongditch.Prelude.Equality.{◌==◌, contains, string_eq, nat_eq, option_eq}
use dingdongditch.ReceiptChain.{Values}
use dingdongditch.Session.{
  SessionRecord, Host, PublicSessionStatus, open_session, closed, expired, terminal,
  session_status_eq, PreparationStatus, prepared, invalidated, preparation_status_eq,
  PreparedRecord, MutationActor, external_unknown, MutationArbitrationPolicy,
  fail_on_external_mutation, MutationEvidence, SignedPlanAuthority, IdentityAssertion,
  SessionOperation, session_closed, session_expired, terminal_browser_failure, session_busy,
  operation_rejected, control_lease_rejected, signed_plan_rejected, mutation_conflict,
}
use dingdongditch.Session.Program.{
  Program, Action, Error, session_error, raise_when, read, assign, ask, return, raise, or_raise,
  dispatch_error, suppressed, ◌>>=◌, ◌>>◌,
}

-- The last `n` entries: `del xs[:-n]`
abbrev pub last_entries {ℓ} : {A : Type ℓ} → ℕ → List A → List A
last_entries n xs = drop (length xs - n) xs

-- The largest epoch, `2**63 - 1`
abbrev pub max_epoch : ℕ
max_epoch = 9223372036854775807

-- `agent_id` and `control_token` of the record, and those of the caller
unfoldable pub lease_accepts : Option String → Option String → Option String → Option String → Bool
lease_accepts none held agent token = true
lease_accepts (some controller) (some held) (some agent) (some token) =
    agent == controller && token == held
lease_accepts _ _ _ _ = false

abbrev pub set_status : PreparationStatus → PreparedRecord → PreparedRecord
set_status status p = record p { shown = record p.shown { status = status } }

-- `INVALIDATED` where it was `PREPARED`
abbrev pub invalidate : PreparedRecord → PreparedRecord
invalidate p = if p.shown.status == prepared then set_status invalidated p else p

abbrev pub invalidate_all : List (String × PreparedRecord) → List (String × PreparedRecord)
invalidate_all = map (λ entry. (entry.0, invalidate entry.1))

abbrev is_prepared : String × PreparedRecord → Bool
is_prepared entry = entry.1.shown.status == prepared

-- A signed plan that names an identity, for a descriptor that has another
abbrev pub outside_plan : Option SignedPlanAuthority → Option String → Bool
outside_plan none identity = false
outside_plan (some authority) identity =
    is_some authority.agent_identity_id && not (identity == authority.agent_identity_id)

-- The `n`-th of a list
abbrev pub entry_at {ℓ} : {A : Type ℓ} → ℕ → List A → Option A
entry_at n [] = none
entry_at zero (x ∷ xs) = some x
entry_at (suc n) (x ∷ xs) = entry_at n xs

-- `before is not None and not compare_digest(before, current)`
abbrev pub has_changed : Option String → String → Bool
has_changed none current = false
has_changed (some before) current = not (before == current)

module _ {values : Values} (host : Host values) where
  open host use {
    now_ms, acquires, is_started, stop_raises, stop_errors, mutation_state, verify_identity,
  }

  abbrev pub touch : Action values
  touch = do now ← ask now_ms; assign (λ s. record s { last_activity_at_ms = now })

  abbrev note_error : Bool → String → Action values
  note_error failed message = assign (λ s. record s {
    cleanup_errors = if failed then s.cleanup_errors ++ message ∷ [] else s.cleanup_errors;
  })

  -- `backend.stop()` and its errors, where there is a backend
  abbrev stop_backend : Bool → Action values
  stop_backend false = return tt
  stop_backend true = do
    raises ← ask stop_raises
    note_error raises "browser cleanup failed"
    errors ← ask stop_errors
    s ← read
    note_error (errors && not (contains s.cleanup_errors "browser cleanup reported errors"))
        "browser cleanup reported errors"

  -- `_close_record`
  unfoldable pub close_record : PublicSessionStatus → Action values
  close_record status = do
    s ← read
    stop_backend s.has_backend
    assign (λ r. record r { has_backend = false; status = status })
    touch

  -- The refusals of `_require_record` of a record that is not open
  abbrev refusal : PublicSessionStatus → Option Error
  refusal open_session = none
  refusal closed = some (session_error session_closed)
  refusal expired = some (session_error session_expired)
  refusal terminal = some (session_error terminal_browser_failure)

  abbrev refuse : Option Error → Action values
  refuse none = return tt
  refuse (some e) = raise e

  unfoldable pub require_open : Action values
  require_open = read >>= λ s. refuse (refusal s.status)

  abbrev idle : SessionRecord values → ℕ → Bool
  idle s now = s.status == open_session && leb (s.last_activity_at_ms + s.idle_timeout_ms) now

  -- `with self._locked(record)`, before its body
  unfoldable pub lock : Action values
  lock = ask acquires >>= λ free. raise_when (not free) (session_error session_busy)

  abbrev expire : Action values
  expire = do
    lock
    s ← read
    now ← ask now_ms
    if idle s now then close_record expired else return tt

  -- `_expire_if_idle`: the test, and once more under the lock
  unfoldable pub expire_if_idle : Action values
  expire_if_idle = do s ← read; now ← ask now_ms; if idle s now then expire else return tt

  unfoldable pub access : Action values
  access = require_open >> expire_if_idle >> require_open

  unfoldable pub require_control : Option String → Option String → Action values
  require_control agent token = do
    s ← read
    raise_when (not (lease_accepts s.agent_id s.control_token agent token))
        (session_error control_lease_rejected)

  abbrev reauthenticate : SessionRecord values → Option IdentityAssertion → Action values
  reauthenticate s none = return tt
  reauthenticate s (some assertion) = do
    raise_when (not s.has_identity_registry) (session_error operation_rejected)
    answer ← ask (λ n. verify_identity n assertion s.agent_id)
    descriptor ← or_raise answer (session_error operation_rejected)
    raise_when (outside_plan s.signed_plan_authority (some descriptor))
        (session_error signed_plan_rejected)
    assign (λ r. record r { identity_descriptor = some descriptor })

  unfoldable pub require_identity : Action values
  require_identity = do s ← read; reauthenticate s s.identity_assertion

  -- The operation is the selected branch's, or the next step of the plan.
  unfoldable pub is_authorized_step : SessionRecord values → SessionOperation → Option String → Bool
  is_authorized_step s op (some expected) = op.bytes == expected
  is_authorized_step s op none =
      entry_at s.signed_plan_next_index s.signed_plan_operation_bytes == some op.bytes

  abbrev follows_plan :
      SessionRecord values
      → Option SignedPlanAuthority
      → SessionOperation
      → Option String
      → Action values
  follows_plan s none op signed_speculation =
      raise_when (is_some signed_speculation) (session_error signed_plan_rejected)
  follows_plan s (some authority) op signed_speculation = do
    now ← ask now_ms
    raise_when (ltb now authority.issued_at_ms || leb authority.expires_at_ms now)
        (session_error signed_plan_rejected)
    raise_when (not (is_authorized_step s op signed_speculation))
        (session_error signed_plan_rejected)

  unfoldable pub require_signed_plan_operation : SessionOperation → Option String → Action values
  require_signed_plan_operation op signed_speculation = do
    s ← read
    follows_plan s s.signed_plan_authority op signed_speculation

  abbrev fail_terminal : Action values
  fail_terminal = do
    assign (λ r. record r { status = terminal })
    raise (session_error terminal_browser_failure)

  unfoldable pub active_backend : Action values
  active_backend = do
    s ← read
    started ← ask is_started
    if s.has_backend && started then return tt else fail_terminal

  -- `_advance_mutation_epoch`, under a policy
  unfoldable pub advance_mutation_epoch :
      MutationArbitrationPolicy → MutationActor → String → Program values MutationEvidence
  advance_mutation_epoch policy actor source = do
    s ← read
    raise_when (leb max_epoch s.mutation_epoch) (session_error mutation_conflict)
    now ← ask now_ms
    let evidence : MutationEvidence = record {
      mutation_epoch = suc s.mutation_epoch;
      actor = actor;
      policy = policy;
      detected_at_ms = now;
      source = source;
      preparation_invalidated = any is_prepared s.preparations;
    }
    assign (λ r. record r {
      mutation_epoch = suc r.mutation_epoch;
      preparations = invalidate_all r.preparations;
      mutation_last_evidence = some evidence;
      mutation_events = last_entries 16 (r.mutation_events ++ evidence ∷ []);
    })
    return evidence

  abbrev external_change : MutationArbitrationPolicy → Program values Bool
  external_change policy = do
    evidence ← advance_mutation_epoch policy external_unknown "browser_state"
    return true

  abbrev compare_state :
      MutationArbitrationPolicy → Option String → Option String → Program values Bool
  compare_state policy before none = external_change policy
  compare_state policy before (some current) = do
    assign (λ r. record r { mutation_state_fingerprint = some current })
    if has_changed before current then external_change policy else return false

  abbrev refresh : SessionRecord values → Option MutationArbitrationPolicy → Program values Bool
  refresh s none = return false
  refresh s (some policy) = do
    active_backend
    answer ← ask mutation_state
    compare_state policy s.mutation_state_fingerprint answer

  -- `_refresh_external_mutation`: whether the browser's state has changed
  unfoldable pub refresh_external_mutation : Program values Bool
  refresh_external_mutation = do s ← read; refresh s s.mutation_policy

  abbrev keep_state : Option String → Action values
  keep_state none = raise dispatch_error
  keep_state (some current) = assign (λ r. record r { mutation_state_fingerprint = some current })

  -- `_initialize_mutation_monitor`, under a policy
  abbrev initialize_mutation_monitor : Action values
  initialize_mutation_monitor = do active_backend; answer ← ask mutation_state; keep_state answer

  -- `_record_agent_mutation`
  unfoldable pub record_agent_mutation : Option MutationArbitrationPolicy → Action values
  record_agent_mutation none = return tt
  record_agent_mutation (some policy) = do
    evidence ← advance_mutation_epoch policy external_unknown "agent_dispatch"
    suppressed initialize_mutation_monitor

  unfoldable pub reject_mutation_if_policy_requires :
      Option MutationArbitrationPolicy → Bool → Bool → Action values
  reject_mutation_if_policy_requires none changed fresh = return tt
  reject_mutation_if_policy_requires (some fail_on_external_mutation) changed fresh =
      raise_when changed (session_error mutation_conflict)
  reject_mutation_if_policy_requires (some _) changed fresh =
      raise_when (changed && not fresh) (session_error mutation_conflict)
