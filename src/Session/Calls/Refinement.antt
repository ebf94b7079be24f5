-- ===== src/Session/Calls/Refinement.antt =====
-- Every call of a session, and every sequence of calls, is a sequence of steps of the state machine of
-- Session/Governance.antt.
use dingdongditch.Prelude.{ℕ, String, Option, none, some, List, [], ◌∷◌}
use dingdongditch.ReceiptChain.{Values}
use dingdongditch.Session.{
  SessionRecord, Host, MutationActor, MutationArbitrationPolicy, closed, expired,
}
use dingdongditch.Session.Program.{Program, return}
use dingdongditch.Session.Guards.Governed.{
  touch-Governed, lock-Governed, access-Governed, close_record-Governed, expire_if_idle-Governed,
  require_control-Governed, active_backend-Governed, advance_mutation_epoch-Governed,
}
use dingdongditch.Session.Dispatch.Governed.{execute_operation-Governed}
use dingdongditch.Session.Transaction.Governed.{
  prepare_operation-Governed, commit_operation-Governed,
}
use dingdongditch.Session.Handoff.Governed.{
  prepare_agent_handoff-Governed, claim_agent_handoff-Governed,
}
use dingdongditch.Session.Calls.{
  Call, get_session, inspect, cleanup, observe, prepare, commit, execute, offer, claim,
  report_mutation, close, Reply, inspect_pages, require_lease, observe_page, report,
  record_external_mutation, close_open, is_shut, close_session, overdue, clean, cleanup_session,
  replied, call, run,
}
use dingdongditch.Session.Governance.{governance, Steps, stays, Steps-trans}
use dingdongditch.Session.Follows.{
  Governed, asked, Follows-return, Follows-raise, Follows-seq, Follows-ask, Follows-read,
  Follows-guard, Follows-if, Follows-raise_when,
}

module _ {values : Values} (host : Host values) where
  inspect_pages-Governed : Governed host (inspect_pages host)
  inspect_pages-Governed s =
      Follows-seq host
        (Follows-seq host (Follows-seq host (access-Governed host s) (λ a. lock-Governed host))
          (λ a. active_backend-Governed host))
        (λ a. touch-Governed host)

  require_lease-Governed :
      (agent token : Option String) → Governed host (require_lease host agent token)
  require_lease-Governed none none s = Follows-return host _
  require_lease-Governed none (some token) s = require_control-Governed host _ _ s
  require_lease-Governed (some agent) token s = require_control-Governed host _ _ s

  observe_page-Governed :
      (agent token : Option String) → Governed host (observe_page host agent token)
  observe_page-Governed agent token s = Follows-seq host (access-Governed host s) (λ a s1.
      Follows-seq host (lock-Governed host s1) (λ b s2.
        Follows-seq host (require_lease-Governed agent token s2)
          (λ c s3. Follows-seq host (active_backend-Governed host s3) (λ d. touch-Governed host))))

  report-Governed :
      (policy : Option MutationArbitrationPolicy) (actor : MutationActor)
      → Governed host (report host policy actor)
  report-Governed none actor s = Follows-raise host _
  report-Governed (some policy) actor s =
      Follows-seq host (advance_mutation_epoch-Governed host policy actor _ s)
        (λ evidence t. Follows-return host _)

  record_external_mutation-Governed :
      (actor : MutationActor) → Governed host (record_external_mutation host actor)
  unfolding record_external_mutation
  record_external_mutation-Governed actor s = Follows-guard host _ _ (λ e.
      Follows-seq host (access-Governed host s) (λ a s1.
        Follows-seq host (lock-Governed host s1)
          (λ b s2. Follows-read host _ (report-Governed s2.mutation_policy actor s2))))

  close_open-Governed : (agent token : Option String) → Governed host (close_open host agent token)
  close_open-Governed agent token s = Follows-seq host (lock-Governed host s) (λ a s1.
      Follows-seq host (require_control-Governed host agent token s1) (λ b s2.
        Follows-seq host (close_record-Governed host closed s2)
          (λ c s3. Follows-read host _ (Follows-raise_when host _ _))))

  close_session-Governed :
      (agent token : Option String) → Governed host (close_session host agent token)
  unfolding close_session
  close_session-Governed agent token s = Follows-read host _ (
      Follows-if host {c = is_shut host s.status} {n = close_open host agent token}
        (λ e. Follows-return host _) (λ e. close_open-Governed agent token s))

  clean-Governed : (now : ℕ) → Governed host (clean host now)
  clean-Governed now s = Follows-seq host (lock-Governed host s) (λ a t. Follows-read host _ (
      Follows-if host {c = overdue host now t} {n = return tt}
        (λ h. close_record-Governed host expired t) (λ h. Follows-return host _)))

  cleanup_session-Governed : Governed host (cleanup_session host)
  unfolding cleanup_session
  cleanup_session-Governed s =
      let now = host.now_ms s.answered in
      Follows-ask host _ _ _ (
        Follows-read host _ (
          Follows-if host {c = overdue host now (asked host 1 s)} {n = return tt}
            (λ e. clean-Governed now _) (λ e. Follows-return host _)))

  replied-Governed :
      {A : Type 0} (reply : A → Reply) (m : Program values A)
      → Governed host m
      → Governed host (replied host reply m)
  replied-Governed reply m h s = Follows-seq host (h s) (λ a t. Follows-return host _)

  call-Governed : (c : Call) → Governed host (call host c)
  unfolding call
  call-Governed get_session = replied-Governed _ _ (expire_if_idle-Governed host)
  call-Governed inspect = replied-Governed _ _ inspect_pages-Governed
  call-Governed cleanup = replied-Governed _ _ cleanup_session-Governed
  call-Governed (observe agent token) = replied-Governed _ _ (observe_page-Governed agent token)
  call-Governed (prepare op ttl request summary) =
      replied-Governed _ _ (prepare_operation-Governed host op ttl request summary)
  call-Governed (commit token sent request) =
      replied-Governed _ _ (commit_operation-Governed host token sent request)
  call-Governed (execute op request) =
      replied-Governed _ _ (execute_operation-Governed host op request)
  call-Governed (offer agent token ttl recipient assertion) =
      replied-Governed _ _ (prepare_agent_handoff-Governed host agent token ttl recipient assertion)
  call-Governed (claim offered agent authenticated) =
      replied-Governed _ _ (claim_agent_handoff-Governed host offered agent authenticated)
  call-Governed (report_mutation actor) = record_external_mutation-Governed actor
  call-Governed (close agent token) = replied-Governed _ _ (close_session-Governed agent token)

  -- A session refines the state machine of tokens, controllers and receipts: whatever calls are made
  -- of it, in whatever order and with whatever errors, and whatever the outside answers, the states
  -- before and after are joined by steps of the machine.
  pub run-Steps :
      (calls : List Call) (s : SessionRecord values)
      → Steps host (governance host s) (governance host ((run host calls s).1))
  unfolding run
  run-Steps [] s = stays
  run-Steps (c ∷ calls) s =
      Steps-trans host ((call-Governed c s).steps) (run-Steps calls ((call host c s).1))
