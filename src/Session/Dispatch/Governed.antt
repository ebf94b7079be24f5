-- ===== src/Session/Dispatch/Governed.antt =====
-- `execute_operation` moves a session by steps of its state machine.
use dingdongditch.Prelude.{String, refl, not, ◌&&◌, Option, none, some, is_some}
use dingdongditch.ReceiptChain.{Values}
use dingdongditch.Authority.{FirewallDecision}
use dingdongditch.Session.{
  SessionRecord, Host, HostEnvelope, SessionOperation, ExecutionReceipt, authority,
}
use dingdongditch.Session.Program.{return}
use dingdongditch.Session.Guards.Governed.{
  touch-Governed, lock-Governed, access-Governed, require_control-Governed,
  require_identity-Governed, require_signed_plan_operation-Governed, active_backend-Governed,
  refresh_external_mutation-Governed, record_agent_mutation-Governed, reject_mutation-Governed,
}
use dingdongditch.Session.Firewall.{is_authorized, needs_preparation, firewall_decision}
use dingdongditch.Session.Dispatch.{
  Request, run_dispatch, check_reached, dispatch_authorized, decide_dispatch, governed_receipt,
  append_receipt, after_dispatch, conclude, execute_locked, execute_operation, chained, decorate,
  failed_receipt,
}
use dingdongditch.Session.Governance.{seals}
use dingdongditch.Session.Follows.{
  Governed, Follows-return, Follows-seq, Follows-ask, Follows-raise_or, Follows-read,
  Follows-assign, Follows-Step, Follows-guard, Follows-if, Follows-set,
}

module _ {values : Values} (host : Host values) where
  open values use {text}
  open host use {as_dict, hmac_digest}

  run_dispatch-Governed : (op : SessionOperation) → Governed host (run_dispatch host op)
  run_dispatch-Governed op s = Follows-ask host _ _ _ (Follows-raise_or host _ _)

  check_reached-Governed :
      (e : HostEnvelope) (op : SessionOperation) (receipt : ExecutionReceipt)
      → Governed host (check_reached host e op receipt)
  check_reached-Governed e op receipt s =
      Follows-read host _ (Follows-ask host _ _ _ (Follows-return host _))

  dispatch_authorized-Governed :
      (e : HostEnvelope) (op dispatched : SessionOperation) (decision : FirewallDecision)
      → Governed host (dispatch_authorized host e op dispatched decision)
  unfolding dispatch_authorized
  dispatch_authorized-Governed e op dispatched decision s =
      Follows-seq host (run_dispatch-Governed dispatched s) (λ executed r.
        Follows-assign host _ _ refl
          (check_reached-Governed e op (record executed { authority_decision = some decision }) _))

  decide_dispatch-Governed :
      (e : HostEnvelope) (op dispatched : SessionOperation) (decision : FirewallDecision)
      → Governed host (decide_dispatch host e op dispatched decision)
  decide_dispatch-Governed e op dispatched decision s =
      Follows-if host {c = is_authorized decision}
        {n = return
          (failed_receipt op "authority_rejected" (authority decision.outcome) (some decision))}
        (λ h. dispatch_authorized-Governed e op dispatched decision s) (λ h. Follows-return host _)

  governed_receipt-Governed :
      (r : SessionRecord values) (envelope : Option HostEnvelope) (op dispatched : SessionOperation)
      → Governed host (governed_receipt host r envelope op dispatched)
  unfolding governed_receipt firewall_decision
  governed_receipt-Governed r none op dispatched s = run_dispatch-Governed dispatched s
  governed_receipt-Governed r (some e) op dispatched s =
      Follows-if host {c = needs_preparation e op && not (is_some r.active_commit_token)}
        (λ h. Follows-return host _)
        (λ h. Follows-ask host _ _ _ (decide_dispatch-Governed e op dispatched _ _))

  after_dispatch-Governed :
      (op : SessionOperation) (receipt : ExecutionReceipt)
      → Governed host (after_dispatch host op receipt)
  after_dispatch-Governed op receipt s = Follows-read host _ (
      Follows-seq host (record_agent_mutation-Governed host s.mutation_policy s)
        (λ a r. Follows-set host _ refl))

  conclude-Governed :
      (signed : Option String) (op : SessionOperation) (receipt : ExecutionReceipt)
      → Governed host (conclude host signed op receipt)
  unfolding conclude append_receipt chained
  conclude-Governed signed op receipt s = Follows-read host _ (
      Follows-Step host _ _ (seals (as_dict (decorate s receipt)) (text (hmac_digest op.bytes))) (
        Follows-assign host _ _ refl (
          Follows-seq host
            (Follows-if host {c = is_some s.mutation_policy && is_some receipt.action_started_at_ms}
              (λ h. after_dispatch-Governed op (decorate s receipt) _) (λ h. Follows-return host _))
            (λ a r. Follows-ask host _ _ _ (
              Follows-assign host _ _ refl
                (Follows-seq host (touch-Governed host _) (λ b t. Follows-return host _)))))))

  pub execute_locked-Governed :
      (op : SessionOperation) (request : Request) → Governed host (execute_locked host op request)
  unfolding execute_locked
  execute_locked-Governed op request s =
      Follows-seq host (require_control-Governed host _ _ s) (λ a1 s1.
        Follows-seq host (require_identity-Governed host s1) (λ a2 s2.
          Follows-seq host (require_signed_plan_operation-Governed host op _ s2) (λ a3 s3.
            Follows-seq host (refresh_external_mutation-Governed host s3) (λ changed s4.
              Follows-read host _ (
                Follows-guard host _ _ (λ e1. Follows-guard host _ _ (λ e2.
                  Follows-seq host (reject_mutation-Governed host _ _ _ s4) (λ a5 s5.
                    Follows-seq host (active_backend-Governed host s5) (λ a6 s6.
                      Follows-seq host (governed_receipt-Governed s4 s4.authority_envelope op _ s6)
                        (λ receipt s7. conclude-Governed _ op receipt s7))))))))))

  pub execute_operation-Governed :
      (op : SessionOperation) (request : Request)
      → Governed host (execute_operation host op request)
  unfolding execute_operation
  execute_operation-Governed op request s =
      Follows-seq host (Follows-seq host (access-Governed host s) (λ a. lock-Governed host))
        (λ a. execute_locked-Governed op request)
