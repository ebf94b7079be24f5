-- ===== src/Session/Dispatch/Budget.antt =====
-- What a session dispatches, and what it charges to the budgets of its envelope.
use mathlib.Core.Path.{subst}
use dingdongditch.Prelude.{
  ℕ, suc, ◌+◌, ◌-◌, ◌≤◌, ◌<◌, ◌≡◌, Bool, true, false, none, some, is_some, length, Option-cases,
  inl, inr, arith,
}
use dingdongditch.ReceiptChain.{Values}
use dingdongditch.Authority.{FirewallDecision, FirewallOutcome}
use dingdongditch.Authority.Firewall.{decide-authorized}
use dingdongditch.Authority.Rules.{Below}
use dingdongditch.Session.{SessionRecord, Host, HostEnvelope, SessionOperation, ExecutionReceipt}
use dingdongditch.Session.Program.{
  Outcome, returned, raised, return, raise, after, read, ask_many, assign, or_raise, ◌>>=◌,
}
use dingdongditch.Session.Firewall.{
  is_authorized, decide_all, decide_rest, decide_action, reservation, scope_url, firewall_decision,
}
use dingdongditch.Session.Dispatch.{dispatch_authorized, governed_receipt, receipt_dispatch_counts}

-- The receipt says that an action was started.
abbrev pub was_dispatched : Outcome ExecutionReceipt → Bool
was_dispatched (returned receipt) = is_some receipt.action_started_at_ms
was_dispatched (raised e) = false

module _ {values : Values} (host : Host values) where
  -- The decision of an operation without branches is that of its action, for the present counts.
  single-authorized :
      (s : SessionRecord values) (e : HostEnvelope) (op : SessionOperation) (n : ℕ)
      → op.branching ≡ none
      → is_authorized (decide_all host s e op n) ≡ true
      → (decide_action host s e (reservation e.policy op) n op.outer).outcome
        ≡ FirewallOutcome.authorized
  unfolding decide_all reservation decide_rest
  single-authorized s e op n single h = ground arith

  -- An authorized action leaves room in the budget.
  room_left :
      (s : SessionRecord values) (e : HostEnvelope) (op : SessionOperation) (n m : ℕ)
      → op.branching ≡ none
      → e.policy.max_action_count ≡ some m
      → is_authorized (decide_all host s e op n) ≡ true
      → s.authority_action_count < m
  unfolding decide_action
  room_left s e op n m single limit h =
      let allowed =
        (decide-authorized host.readers op.outer e.policy (some (scope_url host n op.outer)) none
            (host.now_ms n) (s.authority_action_count + _) (s.authority_side_effect_count + _)).0
          (single-authorized s e op n single h) in
      let extra = (reservation e.policy op).max_actions - 1 in
      let below : s.authority_action_count + extra < m =
        subst (Below (s.authority_action_count + extra)) limit allowed.actions_left in
      omega arith

  -- One dispatch is charged for at most one action, if its receipt lists none of a guard's.
  charged :
      (e : HostEnvelope) (op dispatched : SessionOperation) (decision : FirewallDecision)
      (s : SessionRecord values)
      → ((n : ℕ) (receipt : ExecutionReceipt)
          → host.dispatch n dispatched ≡ some receipt
          → receipt.branch_actions ≡ none)
      → ((dispatch_authorized host e op dispatched decision s).1).authority_action_count
        ≤ suc s.authority_action_count
  unfolding dispatch_authorized receipt_dispatch_counts ◌>>=◌ after ask_many return read assign
      or_raise raise
  charged e op dispatched decision s plain =
      elim (Option-cases (host.dispatch s.answered dispatched)) [
        | inl raises ↦ ground arith
        | inr (receipt, is) ↦ ground (arith, plain s.answered receipt is)
      ]

  -- The budget of actions is kept: whatever the outside answers, an operation without branches leaves
  -- the count of actions within the envelope's limit if it was within it before. This supposes that
  -- receipts of the operation list no actions of a guard.
  pub budget_kept :
      (s : SessionRecord values) (e : HostEnvelope) (op dispatched : SessionOperation) (m : ℕ)
      → e.policy.max_action_count ≡ some m
      → dispatched.branching ≡ none
      → ((n : ℕ) (receipt : ExecutionReceipt)
          → host.dispatch n dispatched ≡ some receipt
          → receipt.branch_actions ≡ none)
      → s.authority_action_count ≤ m
      → ((governed_receipt host s (some e) op dispatched s).1).authority_action_count ≤ m
  unfolding governed_receipt firewall_decision ◌>>=◌ after ask_many return
  budget_kept s e op dispatched m limit single plain within = ground (
    arith,
    room_left s e dispatched s.answered m single limit,
    charged e op dispatched (decide_all host s e dispatched s.answered) (later s) plain,
  )
    where
      later : SessionRecord values → SessionRecord values
      later r = record r {
        answered = length ((reservation e.policy dispatched).candidates) + r.answered;
      }
