-- ===== src/Session/Calls.antt =====
-- The calls that a session answers, in any order (`StatefulSessionRuntime`), with the ones that only
-- look (`get_session`, `observe_page`, `inspect_pages`, `inspect_dialogs`), `record_external_mutation`,
-- `close_session` and `cleanup_expired_sessions`.
pub mod Refinement
use dingdongditch.Prelude.{
  ℕ, ◌+◌, String, Bool, true, false, not, ◌&&◌, ◌||◌, Option, none, some, List, [], ◌∷◌, leb,
  is_some, is_empty, if◌then◌else◌,
}
use dingdongditch.Prelude.Equality.{◌==◌}
use dingdongditch.ReceiptChain.{Values}
use dingdongditch.Session.{
  SessionRecord, Host, SessionOperation, SpeculationSummary, IdentityAssertion, MutationActor,
  human, agent, external_unknown, MutationArbitrationPolicy, open_session, closed, expired,
  terminal, PublicSessionStatus, session_status_eq, cleanup_failure, mutation_conflict,
}
use dingdongditch.Session.Program.{
  Program, Action, Outcome, session_error, value_error, raise_when, read, ask, return, raise, ◌>>=◌,
  ◌>>◌,
}
use dingdongditch.Session.Guards.{
  access, lock, touch, close_record, expire_if_idle, require_control, active_backend,
  advance_mutation_epoch,
}
use dingdongditch.Session.Dispatch.{Request, SessionOperationResult, execute_operation}
use dingdongditch.Session.Transaction.{CommitResult, prepare_operation, commit_operation}
use dingdongditch.Session.Handoff.{AgentHandoff, prepare_agent_handoff, claim_agent_handoff}

-- `observe` carries a lease if the caller gives one; `inspect` never does.
pub data Call : Type 0 where
  get_session inspect cleanup : Call
  observe : Option String → Option String → Call
  prepare : SessionOperation → ℕ → Request → Option SpeculationSummary → Call
  commit : String → Option SessionOperation → Request → Call
  execute : SessionOperation → Request → Call
  offer : Option String → Option String → ℕ → Option String → Option IdentityAssertion → Call
  claim : String → String → Option String → Call
  report_mutation : MutationActor → Call
  close : Option String → Option String → Call

pub data Reply : Type 0 where
  done : Reply
  prepared_token offered_token : String → Reply
  commit_result : CommitResult → Reply
  operation_result : SessionOperationResult → Reply
  handoff : AgentHandoff → Reply

abbrev pub is_agent : MutationActor → Bool
is_agent agent = true
is_agent _ = false

module _ {values : Values} (host : Host values) where
  open host use {now_ms}

  abbrev inspect_pages : Action values
  inspect_pages = access host >> lock host >> active_backend host >> touch host

  -- A caller that gives nothing keeps the read-only path.
  abbrev require_lease : Option String → Option String → Action values
  require_lease none none = return tt
  require_lease agent_id token = require_control host agent_id token

  -- without a page to select
  abbrev observe_page : Option String → Option String → Action values
  observe_page agent_id token = do
    access host
    lock host
    require_lease agent_id token
    active_backend host
    touch host

  abbrev report : Option MutationArbitrationPolicy → MutationActor → Program values Reply
  report none actor = raise (session_error mutation_conflict)
  report (some policy) actor = do
    evidence ← advance_mutation_epoch host policy actor "trusted_host"
    return done

  unfoldable pub record_external_mutation : MutationActor → Program values Reply
  record_external_mutation actor = do
    raise_when (is_agent actor) value_error
    access host
    lock host
    s ← read
    report s.mutation_policy actor

  abbrev close_open : Option String → Option String → Action values
  close_open agent_id token = do
    lock host
    require_control host agent_id token
    close_record host closed
    s ← read
    raise_when (not (is_empty s.cleanup_errors)) (session_error cleanup_failure)

  abbrev is_shut : PublicSessionStatus → Bool
  is_shut status = status == closed || status == expired

  unfoldable pub close_session : Option String → Option String → Action values
  close_session agent_id token = do
    s ← read
    if is_shut s.status then return tt else close_open agent_id token

  abbrev overdue : ℕ → SessionRecord values → Bool
  overdue now s = s.status == open_session && leb (s.last_activity_at_ms + s.idle_timeout_ms) now

  abbrev clean : ℕ → Action values
  clean now = do lock host; s ← read; if overdue now s then close_record host expired else return tt

  -- `cleanup_expired_sessions`, at this session
  unfoldable pub cleanup_session : Action values
  cleanup_session = do now ← ask now_ms; s ← read; if overdue now s then clean now else return tt

  abbrev replied : {A : Type 0} → (A → Reply) → Program values A → Program values Reply
  replied reply m = m >>= λ a. return (reply a)

  unfoldable pub call : Call → Program values Reply
  call get_session = replied (λ _. done) (expire_if_idle host)
  call inspect = replied (λ _. done) inspect_pages
  call cleanup = replied (λ _. done) cleanup_session
  call (observe agent_id token) = replied (λ _. done) (observe_page agent_id token)
  call (prepare op ttl request summary) =
      replied prepared_token (prepare_operation host op ttl request summary)
  call (commit token sent request) =
      replied commit_result (commit_operation host token sent request)
  call (execute op request) = replied operation_result (execute_operation host op request)
  call (offer agent_id token ttl recipient assertion) =
      replied offered_token (prepare_agent_handoff host agent_id token ttl recipient assertion)
  call (claim offered agent_id authenticated) =
      replied handoff (claim_agent_handoff host offered agent_id authenticated)
  call (report_mutation actor) = record_external_mutation actor
  call (close agent_id token) = replied (λ _. done) (close_session agent_id token)

  -- One call after another, with what each returns or raises
  unfoldable pub run :
      List Call → SessionRecord values → List (Outcome Reply) × SessionRecord values
  run [] s = ([], s)
  run (c ∷ calls) s = let ran = call c s in let rest = run calls ran.1 in (ran.0 ∷ rest.0, rest.1)
