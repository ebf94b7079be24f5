-- ===== src/Session/Tests.antt =====
-- A session whose host draws texts of growing length, and whose browser, clock and executor answer the
-- same at all times.
use Prim.Native.String.{count}
use text.Mathlib.TextLemmas.{length-cons}
use mathlib.Core.Option.{some-injective}
use dingdongditch.Prelude.{
  nat_beq, arith, ℕ, zero, suc, ◌≤◌, ◌≡◌, refl, sym, ap, ◌∙◌, String, true, false, none, some, List,
  [], ◌∷◌,
}
use dingdongditch.Prelude.Equality.{string_eq, nat_eq, option_eq}
use dingdongditch.Verdict.{verified}
use dingdongditch.Action.{click, action_eq, ActionType-discrete}
use dingdongditch.Authority.{AuthorityEnvelope, Readers, decide, first_rule, rules}
use dingdongditch.Authority
use dingdongditch.ReceiptChain.{Values}
use dingdongditch.Session.{
  session_status_eq, preparation_status_eq, PreparationStatus-discrete,
  PublicSessionStatus-discrete, SessionRecord, Host, HostEnvelope, SessionOperation, PreparedState,
  ExecutionReceipt, open_session,
}
use dingdongditch.Session.Program.{
  ◌>>=◌, after, return, raise, raise_when, read, assign, ask_many, or_raise, finally,
}
use dingdongditch.Session.Guards.{
  lease_accepts, access, require_open, expire_if_idle, lock, require_control, require_identity,
  require_signed_plan_operation, refresh_external_mutation, reject_mutation_if_policy_requires,
  active_backend,
}
use dingdongditch.Session.Firewall.{
  needs_preparation, governed_action_types, firewall_decision, reservation, decide_all, decide_rest,
  decide_action,
}
use dingdongditch.Session.Dispatch.{
  Request, execute_locked, governed_receipt, dispatch_authorized, conclude, append_receipt,
}
use dingdongditch.Session.Transaction.{
  commit_operation, commit_locked, commit_found, prepare_operation, prepare_locked, early_refusal,
  prepared_record, prepared_state_change_reason, consume, begin_commit,
}
use dingdongditch.Session.Handoff.{
  claim_agent_handoff, prepare_agent_handoff, offer_handoff, claim_found, take_control,
}
use dingdongditch.Session.Transaction.Once.{has_committed, commit_once}
use dingdongditch.Session.Governance.{governance, Steps}
use dingdongditch.Session.Tokens.{Distinct, WellDrawn, Steps-WellDrawn}
use dingdongditch.ReceiptChain.Verify.Json.{
  json, composed, json_lawful, json_storing, nothing, word,
}
use dingdongditch.Session.Chain.{Linked, session_chain-Linked}
use dingdongditch.Session.Dispatch.Budget.{budget_kept}
use dingdongditch.Session.Leases.{superseded_lease, run-epoch}
use dingdongditch.Session.Calls.{Call, prepare, commit, offer, claim, run, call}
use dingdongditch.Session.Calls.Refinement.{run-Steps}

-- `n` letters
name : ℕ → String
name zero = ""
name (suc n) = String.◌∷◌ "x" (name n)

count-name : (n : ℕ) → count (name n) ≡ n
unfolding name
count-name zero = refl
count-name (suc n) = length-cons "x" (name n) ∙ ap suc (count-name n)

-- Values that tell nothing apart
abbrev plain : Values
plain = record {
  Value = ℕ;
  equals = nat_beq;
  null = 0;
  text = λ s. 1;
  number = λ n. 1;
  flag = λ b. 1;
  array = λ xs. 1;
  dict = λ d. 1;
  get = λ d k. 1;
  has = λ d k. true;
  put = λ d k v. d;
  without = λ ks d. d;
  is_mapping = λ x. true;
  is_text = λ x. true;
  truthy = λ x. true;
  elements = λ x. [];
  to_text = λ x. x;
  text_length = λ x. 64;
  Bytes = ℕ;
  canonical_json_bytes = λ x. x;
  sha256 = λ b. b;
  legacy_digest = λ x. x;
  sorted = λ pairs. pairs;
}

abbrev page : PreparedState
page = record {
  page_id = "p1";
  origin = "https://shop.example";
  target_fingerprint = some "t";
  state_fingerprint = "s";
  secret_binding = none;
}

abbrev clicked : ExecutionReceipt
clicked = record {
  operation_id = "pay";
  verdict = verified;
  execution_status = "completed";
  failure_kind = none;
  action_started_at_ms = some 5;
  branch_actions = none;
  authority_decision = none;
  transaction = none;
  control_epoch = none;
  signed_plan = none;
  identity = none;
  speculation = none;
  mutation_arbitration = none;
}

abbrev readers : Readers
readers = record {
  origin_of = λ url. "https://shop.example";
  matches_origin = λ origin patterns. true;
  file_name = λ path. path;
  file_size = λ path. none;
}

-- The host over some values, with one mapping for all receipts
abbrev host_over : (values : Values) → values.Value → Host values
host_over values mapping = record {
  now_ms = λ n. 10;
  token_urlsafe = name;
  acquires = λ n. true;
  is_started = λ n. true;
  stop_raises = λ n. false;
  stop_errors = λ n. false;
  mutation_state = λ n. some "m";
  scoped_action_url = λ n action. some (some "https://shop.example/cart");
  page_url = λ n. "https://shop.example/cart";
  capture = λ n op. some page;
  bind_secret = λ n reference. none;
  secret_holds = λ n reference binding. false;
  verify_identity = λ n assertion controller. none;
  dispatch = λ n op. some clicked;
  valid_agent_id = λ agent. true;
  hmac_digest = λ bytes. bytes;
  token_id = λ token. token;
  as_dict = λ receipt. mapping;
  readers = readers;
}

abbrev host : Host plain
host = host_over plain 1

host-Distinct : Distinct host
host-Distinct m n same = sym (count-name m) ∙ ap count same ∙ count-name n

abbrev policy : AuthorityEnvelope
policy = record {
  policy_id = "shop";
  granted_authorities = [];
  allowed_origins = [];
  denied_origins = [];
  allowed_action_types = [];
  denied_action_types = [];
  allowed_file_names = [];
  allowed_secret_references = [];
  max_upload_bytes = none;
  irreversible_action_types = click ∷ [];
  required_authority_by_action = λ action. none;
  expires_at_ms = none;
  max_action_count = some 3;
  max_side_effect_count = some 1;
  deny_untrusted_for_irreversible = true;
  allow_frame_actions = false;
}

abbrev envelope : HostEnvelope
envelope = record {
  policy = policy;
  digest = "d";
  require_preparation_for = click ∷ [];
  transfer_prepared_operations = false;
}

abbrev click_pay : Authority.Operation
click_pay = record {
  url = "https://shop.example/cart";
  action_type = click;
  provenance = [];
  frame_targeted = false;
  secret_reference = none;
  file_paths = none;
}

abbrev pay : SessionOperation
pay = record { operation_id = "pay"; outer = click_pay; branching = none; bytes = "pay" }

-- A session that no controller holds, at the start
abbrev fresh_over : (values : Values) → SessionRecord values
fresh_over values = record {
  session_id = "one";
  has_backend = true;
  last_activity_at_ms = 0;
  idle_timeout_ms = 1000;
  status = open_session;
  cleanup_errors = [];
  authority_envelope = some envelope;
  authority_action_count = 0;
  authority_side_effect_count = 0;
  preparations = [];
  active_commit_token = none;
  active_transaction = none;
  receipt_chain_head = none;
  receipt_chain = [];
  agent_id = none;
  control_epoch = 0;
  control_token = none;
  pending_handoffs = [];
  signed_plan_authority = none;
  signed_plan_operation_bytes = [];
  signed_plan_next_index = 0;
  has_identity_registry = false;
  identity_assertion = none;
  identity_descriptor = none;
  mutation_policy = none;
  mutation_epoch = 0;
  mutation_state_fingerprint = none;
  mutation_last_evidence = none;
  mutation_events = [];
  speculations = [];
  active_speculation = none;
  answered = 0;
}

abbrev fresh : SessionRecord plain
fresh = fresh_over plain

fresh-WellDrawn : WellDrawn host (governance host fresh)
fresh-WellDrawn = record {
  statuses_drawn = λ t h. ground arith;
  offers_drawn = λ t h. ground arith;
  lease_drawn = λ t h. ground arith;
}

abbrev anyone : Request
anyone = record {
  agent_id = none;
  control_token = none;
  observation_reference = none;
  signed_speculation_operation = none;
}

-- The session after a preparation
abbrev paying : SessionRecord plain
paying = (run host (prepare pay 1000 anyone none ∷ []) fresh).1

paying-WellDrawn : WellDrawn host (governance host paying)
paying-WellDrawn =
    Steps-WellDrawn host (run-Steps host (prepare pay 1000 anyone none ∷ []) fresh) fresh-WellDrawn

run-Steps_example : Steps host (governance host fresh) (governance host paying)
run-Steps_example = run-Steps host (prepare pay 1000 anyone none ∷ []) fresh

-- The sixth answer is the token of the preparation.
paying_committed : has_committed ((commit_operation host (name 5) none anyone paying).0) ≡ true
unfolding run call prepare_operation access require_open expire_if_idle lock prepare_locked
    require_control require_identity require_signed_plan_operation refresh_external_mutation
    reject_mutation_if_policy_requires needs_preparation governed_action_types active_backend
    firewall_decision reservation ◌>>=◌ after return raise raise_when read assign ask_many or_raise
    lease_accepts decide_all decide_rest decide_action decide first_rule rules string_eq action_eq
    ActionType-discrete session_status_eq PublicSessionStatus-discrete commit_operation
    commit_locked commit_found name early_refusal preparation_status_eq PreparationStatus-discrete
    prepared_record prepared_state_change_reason option_eq consume finally begin_commit
    execute_locked governed_receipt dispatch_authorized conclude append_receipt
paying_committed = refl

commit_once_example :
    has_committed (
      (commit_operation host (name 5) none anyone (
        (run host
          (commit (name 5) none anyone ∷ [])
          ((commit_operation host (name 5) none anyone paying).1)).1)).0)
    ≡ false
commit_once_example =
    commit_once host host-Distinct (name 5) paying none anyone (commit (name 5) none anyone ∷ [])
      none anyone paying-WellDrawn paying_committed

-- A session that a controller holds
abbrev governed : SessionRecord plain
governed = record fresh { agent_id = some "a"; control_token = some (name 0); answered = 1 }

governed-WellDrawn : WellDrawn host (governance host governed)
governed-WellDrawn = record {
  statuses_drawn = λ t h. ground arith;
  offers_drawn = λ t h. ground arith;
  lease_drawn = λ t h. (0, (omega arith, some-injective _ _ h));
}

-- The controller offers the session, and another claims it.
abbrev handoff : List Call
handoff = offer (some "a") (some (name 0)) 1000 none none ∷ claim (name 4) "b" none ∷ []

handoff_epoch : ((run host handoff governed).1).control_epoch ≡ 1
unfolding run call prepare_operation access require_open expire_if_idle lock prepare_locked
    require_control require_identity require_signed_plan_operation refresh_external_mutation
    reject_mutation_if_policy_requires needs_preparation governed_action_types active_backend
    firewall_decision reservation ◌>>=◌ after return raise raise_when read assign ask_many or_raise
    lease_accepts decide_all decide_rest decide_action decide first_rule rules string_eq action_eq
    ActionType-discrete session_status_eq PublicSessionStatus-discrete claim_agent_handoff
    prepare_agent_handoff name offer_handoff claim_found nat_eq option_eq take_control
handoff_epoch = refl

superseded_lease_example :
    lease_accepts
      (((run host handoff governed).1).agent_id)
      (((run host handoff governed).1).control_token)
      (some "a")
      (some (name 0))
    ≡ false
superseded_lease_example =
    superseded_lease host host-Distinct handoff governed (name 0) (some "a") governed-WellDrawn refl
      (omega (arith, handoff_epoch))

run-epoch_example : governed.control_epoch ≤ ((run host handoff governed).1).control_epoch
run-epoch_example = run-epoch host handoff governed

-- A session whose receipts are JSON, through a preparation and its commit
abbrev purchase : List Call
purchase = prepare pay 1000 anyone none ∷ commit (name 5) none anyone ∷ []

session_chain-Linked_example :
    Linked
      (host_over json nothing)
      (word (((run (host_over json nothing) purchase (fresh_over json)).1).session_id))
      nothing
      (((run (host_over json nothing) purchase (fresh_over json)).1).receipt_chain)
session_chain-Linked_example =
    session_chain-Linked (host_over json nothing) (json_lawful composed) (json_storing composed)
      purchase (fresh_over json) refl refl

-- The session within a commit, where a click may be dispatched
abbrev committing : SessionRecord plain
committing = record fresh { active_commit_token = some "t" }

budget_kept_example :
    ((governed_receipt host committing (some envelope) pay pay committing).1).authority_action_count
    ≤ 3
budget_kept_example =
    budget_kept host committing envelope pay pay 3 refl refl
      (λ n receipt is. ap (λ r. r.branch_actions) (sym (some-injective _ _ is))) (omega arith)
