-- ===== src/Session/Handoff.antt =====
-- The handoff of a session between controllers (`prepare_agent_handoff`, `claim_agent_handoff`). What
-- a checkpoint shows of pages, pending preparations and authority is left out.
pub mod Governed
use dingdongditch.Prelude.{
  ℕ, suc, ◌+◌, String, Bool, true, false, not, ◌&&◌, ◌||◌, Option, none, some, List, [], ◌∷◌, leb,
  is_some, if◌then◌else◌,
}
use dingdongditch.Prelude.Equality.{◌==◌, string_eq, nat_eq, option_eq}
use dingdongditch.ReceiptChain.{Values}
use dingdongditch.Session.{
  SessionRecord, Host, HostEnvelope, IdentityAssertion, AgentHandoffCheckpoint, PendingHandoff,
  operation_rejected, handoff_token_invalid, handoff_token_expired, handoff_already_claimed,
  handoff_recipient_rejected, handoff_checkpoint_stale,
}
use dingdongditch.Session.Program.{
  Program, Action, session_error, value_error, raise_when, read, assign, ask, return, raise,
  or_raise, lookup, ◌>>=◌, ◌>>◌,
}
use dingdongditch.Session.Guards.{
  access, lock, touch, invalidate_all, outside_plan, max_epoch, require_control, require_identity,
  active_backend, refresh_external_mutation,
}
use dingdongditch.Session.Dispatch.{is_stale}

pub record AgentHandoff : Type 0 where
  pub agent_id : String
  pub control_epoch : ℕ
  pub control_token : String

abbrev valid_ttl : ℕ → Bool
valid_ttl ttl = leb 100 ttl && leb ttl 300000

abbrev is_transferable : Option HostEnvelope → Bool
is_transferable none = false
is_transferable (some e) = e.transfer_prepared_operations

-- `x is not None and x != new_agent_id`
abbrev is_other : Option String → String → Bool
is_other none agent = false
is_other (some expected) agent = not (expected == agent)

abbrev pub identity_of : Option IdentityAssertion → Option String
identity_of none = none
identity_of (some assertion) = some assertion.identity_id

module _ {values : Values} (host : Host values) where
  open host use {now_ms, token_urlsafe, verify_identity, valid_agent_id}

  abbrev validate_agent_id : Option String → Action values
  validate_agent_id none = return tt
  validate_agent_id (some agent) = raise_when (not (valid_agent_id agent)) value_error

  abbrev verify_recipient :
      Option IdentityAssertion → Option String → Program values (Option String)
  verify_recipient none recipient = return none
  verify_recipient (some assertion) recipient = do
    s ← read
    raise_when (not s.has_identity_registry) (session_error operation_rejected)
    answer ← ask (λ n. verify_identity n assertion recipient)
    descriptor ← or_raise answer (session_error operation_rejected)
    return (some descriptor)

  -- The offer of a record that expires then
  abbrev pub offer_of :
      SessionRecord values
      → ℕ
      → Option String
      → Option IdentityAssertion
      → Option String
      → PendingHandoff
  offer_of s expires recipient assertion descriptor =
      let epoch : Option ℕ = if is_some s.mutation_policy then some s.mutation_epoch else none in
      let checkpoint : AgentHandoffCheckpoint = record {
        old_agent_id = s.agent_id;
        recipient_agent_id = recipient;
        control_epoch = s.control_epoch;
        expires_at_ms = expires;
        mutation_epoch = epoch;
      } in
      record {
        checkpoint = checkpoint;
        claimed = false;
        recipient_identity_assertion = assertion;
        recipient_identity_descriptor = descriptor;
      }

  abbrev withdraw_preparations : Action values
  withdraw_preparations = assign (λ s. record s {
    preparations =
        if is_transferable s.authority_envelope
        then s.preparations
        else invalidate_all s.preparations;
  })

  abbrev store_offer : (ℕ → PendingHandoff) → ℕ → Program values String
  store_offer made ttl = do
    token ← ask token_urlsafe
    now ← ask now_ms
    assign (λ s. record s { pending_handoffs = (token, made (now + ttl)) ∷ [] })
    touch host
    return token

  -- The body of `prepare_agent_handoff`, under the lock: the token of the offer, which is the only one
  unfoldable pub offer_handoff :
      ℕ → Option String → Option IdentityAssertion → Program values String
  offer_handoff ttl recipient assertion = do
    changed ← refresh_external_mutation host
    descriptor ← verify_recipient assertion recipient
    active_backend host
    withdraw_preparations
    s ← read
    store_offer (λ expires. offer_of s expires recipient assertion descriptor) ttl

  unfoldable pub prepare_agent_handoff :
      Option String
      → Option String
      → ℕ
      → Option String
      → Option IdentityAssertion
      → Program values String
  prepare_agent_handoff agent held ttl recipient assertion = do
    raise_when (not (valid_ttl ttl)) value_error
    validate_agent_id recipient
    access host
    lock host
    require_control host agent held
    require_identity host
    offer_handoff ttl recipient assertion

  abbrev check_mutation : Option ℕ → Action values
  check_mutation none = return tt
  check_mutation (some epoch) = do
    changed ← refresh_external_mutation host
    s ← read
    raise_when (not (epoch == s.mutation_epoch)) (session_error handoff_checkpoint_stale)

  -- A present assertion has to hold for the new controller, if the offer brings no other.
  abbrev check_assertion :
      Option IdentityAssertion → Option IdentityAssertion → String → Action values
  check_assertion none (some assertion) agent = do
    answer ← ask (λ n. verify_identity n assertion (some agent))
    raise_when (not (is_some answer)) (session_error handoff_recipient_rejected)
  check_assertion _ _ agent = return tt

  abbrev replaced : Option IdentityAssertion → Option IdentityAssertion → Option IdentityAssertion
  replaced none present = present
  replaced (some next) present = some next

  -- The assignments of a claim, with the new token
  unfoldable pub take_control :
      PendingHandoff → String → String → SessionRecord values → SessionRecord values
  take_control pending agent token s = record s {
    agent_id = some agent;
    identity_assertion = replaced pending.recipient_identity_assertion s.identity_assertion;
    identity_descriptor =
        if is_some pending.recipient_identity_assertion
        then pending.recipient_identity_descriptor
        else s.identity_descriptor;
    control_epoch = suc s.control_epoch;
    control_token = some token;
    pending_handoffs = [];
  }

  -- The rest of a claim, for an offer that is there
  unfoldable pub claim_found : PendingHandoff → String → Option String → Program values AgentHandoff
  claim_found pending agent authenticated = do
    s ← read
    raise_when pending.claimed (session_error handoff_already_claimed)
    now ← ask now_ms
    raise_when (leb pending.checkpoint.expires_at_ms now) (session_error handoff_token_expired)
    raise_when
        (not (pending.checkpoint.control_epoch == s.control_epoch)
          || not (pending.checkpoint.old_agent_id == s.agent_id))
        (session_error handoff_checkpoint_stale)
    check_mutation pending.checkpoint.mutation_epoch
    raise_when (is_other pending.checkpoint.recipient_agent_id agent)
        (session_error handoff_recipient_rejected)
    raise_when (is_other authenticated agent) (session_error handoff_recipient_rejected)
    r ← read
    raise_when (leb max_epoch r.control_epoch) (session_error handoff_checkpoint_stale)
    check_assertion pending.recipient_identity_assertion r.identity_assertion agent
    raise_when
        (outside_plan r.signed_plan_authority
          (identity_of (replaced pending.recipient_identity_assertion r.identity_assertion)))
        (session_error handoff_recipient_rejected)
    token ← ask token_urlsafe
    assign (take_control pending agent token)
    touch host
    t ← read
    return (record { agent_id = agent; control_epoch = t.control_epoch; control_token = token })

  unfoldable pub claim_agent_handoff : String → String → Option String → Program values AgentHandoff
  claim_agent_handoff offered agent authenticated = do
    validate_agent_id (some agent)
    access host
    lock host
    s ← read
    pending ← or_raise (lookup offered s.pending_handoffs) (session_error handoff_token_invalid)
    claim_found pending agent authenticated
