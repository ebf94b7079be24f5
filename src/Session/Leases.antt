-- ===== src/Session/Leases.antt =====
-- The control lease of a session after a handoff.

use dingdongditch.Prelude.{
  ℕ, ◌<◌, ◌≤◌, String, ◌≡◌, ◌≢◌, refl, ◌∙◌, false, Option, none, some, List, arith,
}
use dingdongditch.ReceiptChain.{Values}
use dingdongditch.Session.{SessionRecord, Host}
use dingdongditch.Session.Guards.{lease_accepts}
use dingdongditch.Session.Governance.{
  Governance, governance, Step, answers, prepares, voids, voids_all, consumes, offers_control,
  claims, seals, Steps, stays, ◌▸◌,
}
use dingdongditch.Session.Tokens.{Distinct, Drawn, WellDrawn}
use dingdongditch.Session.Calls.{Call, run}
use dingdongditch.Session.Calls.Refinement.{run-Steps}

module _ {values : Values} (host : Host values) where
  open host use {token_urlsafe}

  -- The control of a state is as it was, or the epoch is later and the lease was drawn since.
  data Control (g h : Governance host) : Type 0 where
    same_control :
        h.epoch ≡ g.epoch
        → h.lease ≡ g.lease
        → h.controller ≡ g.controller
        → g.drawn ≤ h.drawn
        → Control g h
    passed_on :
        g.epoch < h.epoch
        → (n : ℕ) → g.drawn ≤ n
        → h.lease ≡ some (token_urlsafe n)
        → (a : String) → h.controller ≡ some a
        → g.drawn ≤ h.drawn
        → Control g h

  Control-trans : {f g h : Governance host} → Control f g → Control g h → Control f h
  Control-trans (same_control e1 l1 c1 d1) (same_control e2 l2 c2 d2) =
      same_control (e2 ∙ e1) (l2 ∙ l1) (c2 ∙ c1) (omega arith)
  Control-trans (same_control e1 l1 c1 d1) (passed_on e2 n d l2 a c2 d2) =
      passed_on (omega arith) n (omega arith) l2 a c2 (omega arith)
  Control-trans (passed_on e1 n d l1 a c1 d1) (same_control e2 l2 c2 d2) =
      passed_on (omega arith) n d (l2 ∙ l1) a (c2 ∙ c1) (omega arith)
  Control-trans (passed_on e1 n d l1 a c1 d1) (passed_on e2 m d' l2 b c2 d2) =
      passed_on (omega arith) m (omega arith) l2 b c2 (omega arith)

  Step-Control : {g h : Governance host} → Step host g h → Control g h
  Step-Control (answers n) = same_control refl refl refl (omega arith)
  Step-Control (prepares n) = same_control refl refl refl (omega arith)
  Step-Control (voids token held) = same_control refl refl refl (omega arith)
  Step-Control voids_all = same_control refl refl refl (omega arith)
  Step-Control (consumes token held) = same_control refl refl refl (omega arith)
  Step-Control (offers_control n) = same_control refl refl refl (omega arith)
  Step-Control {g = g} (claims offered agent there) =
      passed_on (omega arith) g.drawn (omega arith) refl agent refl (omega arith)
  Step-Control (seals receipt operation) = same_control refl refl refl (omega arith)

  Steps-Control : {g h : Governance host} → Steps host g h → Control g h
  Steps-Control stays = same_control refl refl refl (omega arith)
  Steps-Control (p ▸ ps) = Control-trans (Step-Control p) (Steps-Control ps)

  -- The epoch of control never falls, whatever calls are made.
  pub run-epoch :
      (calls : List Call) (s : SessionRecord values)
      → s.control_epoch ≤ ((run host calls s).1).control_epoch
  run-epoch calls s = elim (Steps-Control (run-Steps host calls s)) [
    | same_control e l c d ↦ omega arith
    | passed_on e n d l a c d' ↦ omega arith
  ]

  -- A lease that was drawn before is not accepted where a later one is held.
  late_lease :
      (n m : ℕ) (held : String) (a : String) (agent : Option String)
      → Distinct host
      → n ≤ m
      → Drawn host n held
      → lease_accepts (some a) (some (token_urlsafe m)) agent (some held) ≡ false
  unfolding lease_accepts
  late_lease n m held a none distinct le drawn = refl
  late_lease n m held a (some b) distinct le (i, (below, is)) =
      let differ : held ≢ token_urlsafe m =
        λ same. (let equal : i ≡ m = distinct i m (is ∙ same) in omega arith) in
      ground arith

  -- A superseded controller is shut out for good: if calls have raised the epoch of control, then the
  -- lease of before them is not accepted, whoever presents it. This supposes that the token generator
  -- does not repeat itself, and that the tokens of the session are its.
  pub superseded_lease :
      Distinct host
      → (calls : List Call) (s : SessionRecord values) (held : String) (agent : Option String)
      → WellDrawn host (governance host s)
      → s.control_token ≡ some held
      → s.control_epoch < ((run host calls s).1).control_epoch
      → lease_accepts
          (((run host calls s).1).agent_id)
          (((run host calls s).1).control_token)
          agent
          (some held)
        ≡ false
  superseded_lease distinct calls s held agent w is later =
      elim (Steps-Control (run-Steps host calls s)) [
        | same_control e l c d ↦ ground arith
        | passed_on e n d l a c d' ↦
            rw (l, c) (late_lease s.answered n held a agent distinct d (w.lease_drawn held is))
      ]
