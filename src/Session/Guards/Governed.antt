-- ===== src/Session/Guards/Governed.antt =====
-- The guards of a session, the closing of its record and the arbitration of mutations are steps of its
-- state machine.
use dingdongditch.Prelude.{
  String, ◌≡◌, refl, sym, Bool, true, false, ◌&&◌, Option, none, some, List, [], ◌∷◌, map,
  if◌then◌else◌, arith,
}
use mathlib.Core.Path.{subst}
use dingdongditch.ReceiptChain.{Values}
use dingdongditch.Session.{
  SessionRecord, Host, PublicSessionStatus, open_session, closed, expired, terminal,
  preparation_status_eq, PreparedRecord, MutationActor, MutationArbitrationPolicy,
  fail_on_external_mutation, require_reprepare, human_priority, IdentityAssertion,
  SignedPlanAuthority, SessionOperation,
}
use dingdongditch.Session.Program.{Program, return, after, read, ask_many, assign, raise, ◌>>=◌}
use dingdongditch.Session.Guards.{
  invalidate, invalidate_all, touch, stop_backend, close_record, refuse, refusal, require_open,
  lock, expire, expire_if_idle, access, require_control, reauthenticate, require_identity,
  follows_plan, require_signed_plan_operation, fail_terminal, active_backend,
  advance_mutation_epoch, external_change, compare_state, refresh, refresh_external_mutation,
  keep_state, initialize_mutation_monitor, record_agent_mutation, has_changed,
  reject_mutation_if_policy_requires,
}
use dingdongditch.Session.Governance.{
  governance, status_of, void, void_all, Step, answers, voids_all, Steps, stays, ◌▸◌,
}
use dingdongditch.Session.Follows.{
  Follows, Governed, asked, Follows-return, Follows-raise, Follows-seq, Follows-ask,
  Follows-or_raise, Follows-read, Follows-assign, Follows-Step, Follows-guard, Follows-if,
  Follows-raise_when, Follows-set, Follows-suppressed,
}

-- The view of preparations commutes with their invalidation.
status_of-invalidate :
    (entry : String × PreparedRecord)
    → status_of (entry.0, invalidate entry.1) ≡ (entry.0, void (entry.1.shown.status))
status_of-invalidate entry = ground arith

pub invalidate_all-void :
    (entries : List (String × PreparedRecord))
    → map status_of (invalidate_all entries) ≡ void_all (map status_of entries)
invalidate_all-void [] = refl
invalidate_all-void (entry ∷ entries) =
    λ i. status_of-invalidate entry i ∷ invalidate_all-void entries i

module _ {values : Values} (host : Host values) where
  pub touch-Governed : Governed host (touch host)
  touch-Governed s = Follows-ask host _ _ _ (Follows-set host _ refl)

  pub lock-Governed : Governed host (lock host)
  unfolding lock
  lock-Governed s = Follows-ask host _ _ _ (Follows-raise_when host _ _)

  stop_backend-Governed : (present : Bool) → Governed host (stop_backend host present)
  stop_backend-Governed false s = Follows-return host _
  stop_backend-Governed true s = Follows-ask host _ _ _ (
      Follows-assign host _ _ refl
        (Follows-ask host _ _ _ (Follows-read host _ (Follows-set host _ refl))))

  pub close_record-Governed :
      (status : PublicSessionStatus) → Governed host (close_record host status)
  unfolding close_record
  close_record-Governed status s = Follows-read host _ (
      Follows-seq host (stop_backend-Governed s.has_backend s)
        (λ a r. Follows-assign host _ _ refl (touch-Governed _)))

  refuse-Governed :
      (status : PublicSessionStatus) → Governed host (refuse host (refusal host status))
  refuse-Governed open_session s = Follows-return host _
  refuse-Governed closed s = Follows-raise host _
  refuse-Governed expired s = Follows-raise host _
  refuse-Governed terminal s = Follows-raise host _

  require_open-Governed : Governed host (require_open host)
  unfolding require_open
  require_open-Governed s = Follows-read host _ (refuse-Governed s.status s)

  expire-Governed : Governed host (expire host)
  expire-Governed s = Follows-seq host (lock-Governed s) (λ a r. Follows-read host _ (
      Follows-ask host _ _ _
        (Follows-if host (λ e. close_record-Governed expired _) (λ e. Follows-return host _))))

  pub expire_if_idle-Governed : Governed host (expire_if_idle host)
  unfolding expire_if_idle
  expire_if_idle-Governed s = Follows-read host _ (
      Follows-ask host _ _ _
        (Follows-if host (λ e. expire-Governed _) (λ e. Follows-return host _)))

  pub access-Governed : Governed host (access host)
  unfolding access
  access-Governed s =
      Follows-seq host (Follows-seq host (require_open-Governed s) (λ a. expire_if_idle-Governed))
        (λ a. require_open-Governed)

  pub require_control-Governed :
      (agent token : Option String) → Governed host (require_control host agent token)
  unfolding require_control
  require_control-Governed agent token s = Follows-read host _ (Follows-raise_when host _ _)

  reauthenticate-Governed :
      (r : SessionRecord values) (assertion : Option IdentityAssertion)
      → Governed host (reauthenticate host r assertion)
  reauthenticate-Governed r none s = Follows-return host _
  reauthenticate-Governed r (some assertion) s = Follows-guard host _ _ (λ e.
      Follows-ask host _ _ _
        (Follows-or_raise host _ _ (λ d h. Follows-guard host _ _ (λ e. Follows-set host _ refl))))

  pub require_identity-Governed : Governed host (require_identity host)
  unfolding require_identity
  require_identity-Governed s =
      Follows-read host _ (reauthenticate-Governed s s.identity_assertion s)

  follows_plan-Governed :
      (r : SessionRecord values) (authority : Option SignedPlanAuthority) (op : SessionOperation)
      (signed : Option String)
      → Governed host (follows_plan host r authority op signed)
  follows_plan-Governed r none op signed s = Follows-raise_when host _ _
  follows_plan-Governed r (some authority) op signed s =
      Follows-ask host _ _ _ (Follows-guard host _ _ (λ e. Follows-raise_when host _ _))

  pub require_signed_plan_operation-Governed :
      (op : SessionOperation) (signed : Option String)
      → Governed host (require_signed_plan_operation host op signed)
  unfolding require_signed_plan_operation
  require_signed_plan_operation-Governed op signed s =
      Follows-read host _ (follows_plan-Governed s s.signed_plan_authority op signed s)

  fail_terminal-Governed : Governed host (fail_terminal host)
  fail_terminal-Governed s = Follows-assign host _ _ refl (Follows-raise host _)

  pub active_backend-Governed : Governed host (active_backend host)
  unfolding active_backend
  active_backend-Governed s = Follows-read host _ (
      Follows-ask host _ _ _
        (Follows-if host (λ e. Follows-return host _) (λ e. fail_terminal-Governed _)))

  -- After a backend that is there, only the number of answers has changed.
  pub Follows-active {κ} :
      {B : Type κ} (k : Unit {0} → Program values B) {s : SessionRecord values}
      → Follows host (k tt) (asked host 1 s)
      → Follows host (active_backend host >>= k) s
  unfolding active_backend ◌>>=◌ after read ask_many return assign raise
  Follows-active k {s = s} p = record {
    steps = answers 1 ▸ continue (s.has_backend && host.is_started s.answered);
  }
    where
      continue :
          (there : Bool)
          → Steps host (governance host (asked host 1 s)) (
              governance host
                ((((if there then return tt else fail_terminal host) >>= k) (asked host 1 s)).1))
      continue true = p.steps
      continue false = stays

  -- A record whose preparations are invalidated, with all else that the machine sees as it was
  pub invalidated-Step :
      (s : SessionRecord values)
      → Step host
          (governance host s)
          (governance host (record s { preparations = invalidate_all s.preparations }))
  invalidated-Step s =
      subst (Step host (governance host s))
        (λ i. record (governance host s) { statuses = sym (invalidate_all-void s.preparations) i })
        voids_all

  pub advance_mutation_epoch-Governed :
      (policy : MutationArbitrationPolicy) (actor : MutationActor) (source : String)
      → Governed host (advance_mutation_epoch host policy actor source)
  unfolding advance_mutation_epoch
  advance_mutation_epoch-Governed policy actor source s = Follows-read host _ (
      Follows-guard host _ _ (λ e.
        Follows-ask host _ _ _
          (Follows-Step host _ _ (invalidated-Step (asked host 1 s)) (Follows-return host _))))

  external_change-Governed :
      (policy : MutationArbitrationPolicy) → Governed host (external_change host policy)
  external_change-Governed policy s =
      Follows-seq host (advance_mutation_epoch-Governed policy _ _ s) (λ a r. Follows-return host _)

  compare_state-Governed :
      (policy : MutationArbitrationPolicy) (before answer : Option String)
      → Governed host (compare_state host policy before answer)
  compare_state-Governed policy before none s = external_change-Governed policy s
  compare_state-Governed policy before (some current) s = Follows-assign host _ _ refl (
      Follows-if host {c = has_changed before current} {n = return false}
        (λ e. external_change-Governed policy _) (λ e. Follows-return host _))

  refresh-Governed :
      (r : SessionRecord values) (policy : Option MutationArbitrationPolicy)
      → Governed host (refresh host r policy)
  refresh-Governed r none s = Follows-return host _
  refresh-Governed r (some policy) s = Follows-seq host (active_backend-Governed s) (λ a t.
      Follows-ask host _ _ _ (compare_state-Governed policy r.mutation_state_fingerprint _ _))

  pub refresh_external_mutation-Governed : Governed host (refresh_external_mutation host)
  unfolding refresh_external_mutation
  refresh_external_mutation-Governed s =
      Follows-read host _ (refresh-Governed s s.mutation_policy s)

  keep_state-Governed : (answer : Option String) → Governed host (keep_state host answer)
  keep_state-Governed none s = Follows-raise host _
  keep_state-Governed (some current) s = Follows-set host _ refl

  initialize_mutation_monitor-Governed : Governed host (initialize_mutation_monitor host)
  initialize_mutation_monitor-Governed s =
      Follows-seq host (active_backend-Governed s)
        (λ a t. Follows-ask host _ _ _ (keep_state-Governed _ _))

  pub record_agent_mutation-Governed :
      (policy : Option MutationArbitrationPolicy)
      → Governed host (record_agent_mutation host policy)
  unfolding record_agent_mutation
  record_agent_mutation-Governed none s = Follows-return host _
  record_agent_mutation-Governed (some policy) s =
      Follows-seq host (advance_mutation_epoch-Governed policy _ _ s)
        (λ a t. Follows-suppressed host (initialize_mutation_monitor-Governed t))

  pub reject_mutation-Governed :
      (policy : Option MutationArbitrationPolicy) (changed fresh : Bool)
      → Governed host (reject_mutation_if_policy_requires host policy changed fresh)
  unfolding reject_mutation_if_policy_requires
  reject_mutation-Governed none changed fresh s = Follows-return host _
  reject_mutation-Governed (some fail_on_external_mutation) changed fresh s =
      Follows-raise_when host _ _
  reject_mutation-Governed (some require_reprepare) changed fresh s = Follows-raise_when host _ _
  reject_mutation-Governed (some human_priority) changed fresh s = Follows-raise_when host _ _
