-- ===== src/Session/Transaction/Once.antt =====
-- A preparation is committed at most once.
use mathlib.Core.Option.{some-injective}
use dingdongditch.Prelude.{
  ℕ, String, ◌≡◌, refl, sym, ◌∙◌, Bool, true, false, Option, none, some, List, [], ◌∷◌, map, arith,
}
use dingdongditch.Prelude.Equality.{◌==◌, string_eq}
use dingdongditch.ReceiptChain.{Values}
use dingdongditch.Session.{
  SessionRecord, Host, HostEnvelope, SessionOperation, PreparedOperation, PreparedRecord,
  CommitRejectedReason, MutationArbitrationPolicy, committed, preparation_status_eq,
  secret_binding_changed, authority_changed, authority_rejected, already_committed,
}
use dingdongditch.Session.Program.{lookup, adjust, raised, returned, Outcome, finally, ◌>>◌}
use dingdongditch.Session.Guards.{
  access, lock, touch, require_control, require_identity, refresh_external_mutation, set_status,
}
use dingdongditch.Session.Guards.Governed.{
  touch-Governed, lock-Governed, access-Governed, require_control-Governed,
  require_identity-Governed, refresh_external_mutation-Governed,
}
use dingdongditch.Session.Firewall.{is_authorized, decide_all, firewall_decision}
use dingdongditch.Session.Dispatch.{Request}
use dingdongditch.Session.Transaction.{
  Refusal, keeps_preparation, voids_preparation, early_refusal, refuse_commit, begin_commit,
  consume, recheck_secret, recheck_authority, recheck_state, recheck, commit_found, commit_locked,
  commit_operation, sent_hash, CommitResult,
}
use dingdongditch.Session.Transaction.Governed.{
  Held, Held-asked, no_refusal-prepared, lookup-status_of, begin_commit-Step,
}
use dingdongditch.Session.Dispatch.Governed.{execute_locked-Governed}
use dingdongditch.Session.Calls.{Call, run}
use dingdongditch.Session.Calls.Refinement.{run-Steps}
use dingdongditch.Session.Governance.{Governance, governance, status_of, answers, stays, ◌▸◌}
use dingdongditch.Session.Follows.{asked, Follows-seq, Follows-finally}
use dingdongditch.Session.Tokens.{Distinct, WellDrawn, Steps-WellDrawn, Steps-committed}
use dingdongditch.Session.Guards.Ends.{Ends-active}
use dingdongditch.Session.Ends.{
  Ends, Holds, Ends-return, Ends-read, Ends-assign, Ends-if, Ends-bind, Ends-ask, Ends-or_raise,
  Stable,
}

-- A result that says that the token was committed, and no exception
abbrev pub has_committed : Outcome CommitResult → Bool
has_committed (returned result) = result.committed
has_committed (raised e) = false

module _ {values : Values} (host : Host values) where
  -- The token is consumed.
  pub record Spent (token : String) (g : Governance host) : Type 0 where
    pub well_drawn : WellDrawn host g
    pub spent : lookup token g.statuses ≡ some committed

  pub Spent-stable : Distinct host → (token : String) → Stable host (Spent token)
  Spent-stable distinct token = record {
    keeps = λ g h steps w. record {
      well_drawn = Steps-WellDrawn host steps w.well_drawn;
      spent = Steps-committed host token distinct w.well_drawn steps w.spent;
    };
  }

  abbrev NotCommitted : CommitResult → SessionRecord values → Type 0
  NotCommitted result s = result.committed ≡ false

  refuse_commit-NotCommitted :
      (token : String) (p : PreparedRecord) (refusal : Refusal) (s : SessionRecord values)
      → Ends host NotCommitted (refuse_commit host token p refusal) s
  refuse_commit-NotCommitted token p (keeps_preparation reason) s = Ends-return host _ refl
  refuse_commit-NotCommitted token p (voids_preparation reason) s =
      Ends-assign host _ _ (Ends-return host _ refl)

  -- A preparation that is committed is refused before the browser is looked at.
  early_refusal-committed :
      (now epoch : ℕ) (policy : Option MutationArbitrationPolicy) (changed : Bool)
      (sent : Option String) (p : PreparedOperation)
      → p.status ≡ committed
      → early_refusal now epoch policy changed sent p ≡ some (keeps_preparation already_committed)
  unfolding early_refusal
  early_refusal-committed now epoch policy changed sent p h = ground arith

  recheck-NotCommitted :
      (refusal : Option Refusal) (token : String) (p : PreparedRecord) (request : Request)
      (s : SessionRecord values)
      → refusal ≡ some (keeps_preparation already_committed)
      → Ends host NotCommitted (recheck host refusal token p request) s
  recheck-NotCommitted none token p request s h = ground arith
  recheck-NotCommitted (some refusal) token p request s h =
      refuse_commit-NotCommitted token p refusal s

  commit_found-NotCommitted :
      (changed : Bool) (token : String) (found : Option PreparedRecord)
      (sent : Option SessionOperation) (request : Request) (s : SessionRecord values)
      → lookup token s.preparations ≡ found
      → Spent token (governance host s)
      → Ends host NotCommitted (commit_found host s changed token found sent request) s
  unfolding commit_found
  commit_found-NotCommitted changed token none sent request s h w = Ends-return host _ refl
  commit_found-NotCommitted changed token (some p) sent request s h w = Ends-ask host _ _ _ (
      recheck-NotCommitted _ token p request _ (
        early_refusal-committed _ _ _ changed _ p.shown
          (some-injective _ _ (sym (lookup-status_of token s.preparations p h) ∙ w.spent))))

  commit_operation-NotCommitted :
      (token : String) (sent : Option SessionOperation) (request : Request)
      (s : SessionRecord values)
      → Distinct host
      → Spent token (governance host s)
      → Ends host NotCommitted (commit_operation host token sent request) s
  unfolding commit_operation commit_locked
  commit_operation-NotCommitted token sent request s distinct w =
      let stable : Stable host (Spent token) = Spent-stable distinct token in
      Ends-bind host stable (access host >> lock host) _
        (Follows-seq host (access-Governed host s) (λ a. lock-Governed host)) w
        (λ a w1.
          Ends-bind host stable (require_control host _ _) _ (require_control-Governed host _ _ _)
            w1
            (λ b w2.
              Ends-bind host stable (require_identity host) _ (require_identity-Governed host _) w2
                (λ c w3.
                  Ends-bind host stable (refresh_external_mutation host) _
                    (refresh_external_mutation-Governed host _) w3
                    (λ changed w4.
                      Ends-read host _
                        (commit_found-NotCommitted changed token _ sent request _ refl w4)))))

  lookup-marked :
      (token : String) (p : PreparedRecord) (entries : List (String × PreparedRecord))
      (q : PreparedRecord)
      → lookup token entries ≡ some q
      → lookup token (map status_of (adjust token (λ _. set_status committed p) entries))
        ≡ some committed
  lookup-marked token p [] q h = ground arith
  lookup-marked token p (entry ∷ entries) q h = ground (arith, lookup-marked token p entries q)

  begin_commit-Spent :
      (token : String) (p : PreparedRecord) (s : SessionRecord values)
      → WellDrawn host (governance host s)
      → Held host token p s
      → Spent token (governance host (begin_commit host token p s))
  unfolding begin_commit
  begin_commit-Spent token p s w held = record {
    well_drawn = Steps-WellDrawn host (begin_commit-Step host token p s held ▸ stays) w;
    spent = lookup-marked token p s.preparations p held.found;
  }

  -- If the result says that the token was committed, the token is consumed.
  abbrev Marks : String → CommitResult → SessionRecord values → Type 0
  Marks token result s = result.committed ≡ true → Spent token (governance host s)

  consume-Marks :
      (token : String) (p : PreparedRecord) (request : Request) (s : SessionRecord values)
      → Distinct host
      → WellDrawn host (governance host s)
      → Held host token p s
      → Ends host (Marks token) (consume host token p request) s
  unfolding consume
  consume-Marks token p request s distinct w held =
      let stable : Stable host (Spent token) = Spent-stable distinct token in
      Ends-read host _ (
        Ends-assign host _ _ (
          Ends-bind host stable (finally _ _) _
            (Follows-finally host _ _ (λ t. refl)
              (Follows-seq host (access-Governed host _)
                (λ a. execute_locked-Governed host p.operation _)))
            (begin_commit-Spent token p s w held)
            (λ executed w1.
              Ends-bind host stable (touch host) _ (touch-Governed host _) w1
                (λ b w2. Ends-return host _ (λ done. w2)))))

  refuse-Marks :
      (token : String) (p : PreparedRecord) (refusal : Refusal) (s : SessionRecord values)
      → Ends host (Marks token) (refuse_commit host token p refusal) s
  refuse-Marks token p (keeps_preparation reason) s = Ends-return host _ (λ done. ground arith)
  refuse-Marks token p (voids_preparation reason) s =
      Ends-assign host _ _ (Ends-return host _ (λ done. ground arith))

  -- The record has the preparation, and its tokens were drawn.
  record Ready (token : String) (p : PreparedRecord) (s : SessionRecord values) : Type 0 where
    held : Held host token p s
    well_drawn : WellDrawn host (governance host s)

  Ready-asked :
      {token : String} {p : PreparedRecord} {s : SessionRecord values} (n : ℕ)
      → Ready token p s
      → Ready token p (asked host n s)
  Ready-asked n r = record {
    held = Held-asked host n r.held;
    well_drawn = Steps-WellDrawn host (answers n ▸ stays) r.well_drawn;
  }

  module _ (distinct : Distinct host) where
    recheck_secret-Marks :
        (binding : Option String) (token : String) (p : PreparedRecord) (request : Request)
        (s : SessionRecord values)
        → Ready token p s
        → Ends host (Marks token) (recheck_secret host binding token p request) s
    recheck_secret-Marks none token p request s r =
        consume-Marks token p request s distinct r.well_drawn r.held
    recheck_secret-Marks (some binding) token p request s r =
        let later : Ready token p (asked host 1 s) = Ready-asked 1 r in
        Ends-ask host _ _ _ (
          Ends-if host (host.secret_holds s.answered p.operation.outer.secret_reference binding) _ _
            (consume-Marks token p request _ distinct later.well_drawn later.held)
            (refuse-Marks token p (voids_preparation secret_binding_changed) _))

    recheck_authority-Marks :
        (q : SessionRecord values) (envelope : Option HostEnvelope) (token : String)
        (p : PreparedRecord) (request : Request) (s : SessionRecord values)
        → Ready token p s
        → Ends host (Marks token) (recheck_authority host q envelope token p request) s
    unfolding firewall_decision
    recheck_authority-Marks q none token p request s r =
        refuse-Marks token p (voids_preparation authority_changed) s
    recheck_authority-Marks q (some e) token p request s r =
        Ends-if host (e.digest == p.shown.authority_policy_hash) _ _
          (Ends-ask host _ _ _ (
            Ends-if host (is_authorized (decide_all host q e p.operation s.answered)) _ _
              (recheck_secret-Marks p.state.secret_binding token p request _ (Ready-asked _ r))
              (refuse-Marks token p (voids_preparation authority_rejected) _)))
          (refuse-Marks token p (voids_preparation authority_changed) s)

    recheck_state-Marks :
        (reason : Option CommitRejectedReason) (token : String) (p : PreparedRecord)
        (request : Request) (s : SessionRecord values)
        → Ready token p s
        → Ends host (Marks token) (recheck_state host reason token p request) s
    recheck_state-Marks (some reason) token p request s r =
        refuse-Marks token p (voids_preparation reason) s
    recheck_state-Marks none token p request s r =
        Ends-read host _ (recheck_authority-Marks s s.authority_envelope token p request s r)

    recheck-Marks :
        (refusal : Option Refusal) (token : String) (p : PreparedRecord) (request : Request)
        (s : SessionRecord values)
        → (refusal ≡ none → Ready token p s)
        → Ends host (Marks token) (recheck host refusal token p request) s
    recheck-Marks (some refusal) token p request s h = refuse-Marks token p refusal s
    recheck-Marks none token p request s h = Ends-active host _ (
        Ends-ask host _ _ _ (
          Ends-or_raise host _ _ _ (λ current.
            recheck_state-Marks _ token p request _ (Ready-asked 1 (Ready-asked 1 (h refl))))))

    commit_found-Marks :
        (changed : Bool) (token : String) (found : Option PreparedRecord)
        (sent : Option SessionOperation) (request : Request) (s : SessionRecord values)
        → lookup token s.preparations ≡ found
        → WellDrawn host (governance host s)
        → Ends host (Marks token) (commit_found host s changed token found sent request) s
    unfolding commit_found
    commit_found-Marks changed token none sent request s h w =
        Ends-return host _ (λ done. ground arith)
    commit_found-Marks changed token (some p) sent request s h w = Ends-ask host _ _ _ (
        recheck-Marks _ token p request _ (λ e. Ready-asked 1 (record {
          held = record {
            found = h;
            is_prepared = no_refusal-prepared _ _ _ changed (sent_hash host sent) p.shown e;
          };
          well_drawn = w;
        })))

    commit_operation-Marks :
        (token : String) (sent : Option SessionOperation) (request : Request)
        (s : SessionRecord values)
        → WellDrawn host (governance host s)
        → Ends host (Marks token) (commit_operation host token sent request) s
    unfolding commit_operation commit_locked
    commit_operation-Marks token sent request s w =
        let stable : Stable host (WellDrawn host) = record {
          keeps = λ g h steps. Steps-WellDrawn host steps;
        } in
        Ends-bind host stable (access host >> lock host) _
          (Follows-seq host (access-Governed host s) (λ a. lock-Governed host)) w
          (λ a w1.
            Ends-bind host stable (require_control host _ _) _ (require_control-Governed host _ _ _)
              w1
              (λ b w2.
                Ends-bind host stable (require_identity host) _ (require_identity-Governed host _)
                  w2
                  (λ c w3.
                    Ends-bind host stable (refresh_external_mutation host) _
                      (refresh_external_mutation-Governed host _) w3
                      (λ changed w4.
                        Ends-read host _
                          (commit_found-Marks changed token _ sent request _ refl w4)))))

    committed-Spent :
        (token : String) (o : Outcome CommitResult) (s : SessionRecord values)
        → Holds host (Marks token) o s
        → has_committed o ≡ true
        → Spent token (governance host s)
    committed-Spent token (returned result) s h done = h done
    committed-Spent token (raised e) s h done = ground arith

    not_committed :
        (o : Outcome CommitResult) (s : SessionRecord values)
        → Holds host NotCommitted o s
        → has_committed o ≡ false
    not_committed (returned result) s h = h
    not_committed (raised e) s h = refl

    -- A token that is consumed is never committed again: after any calls, a commit of it is refused or
    -- raises. This supposes that the token generator does not repeat itself.
    pub commit-Spent :
        (token : String) (s : SessionRecord values) (calls : List Call)
        (sent : Option SessionOperation) (request : Request)
        → Spent token (governance host s)
        → has_committed ((commit_operation host token sent request ((run host calls s).1)).0)
          ≡ false
    commit-Spent token s calls sent request w =
        let later : Spent token (governance host ((run host calls s).1)) =
          (Spent-stable distinct token).keeps _ _ (run-Steps host calls s) w in
        not_committed _ _ ((commit_operation-NotCommitted token sent request _ distinct later).ends)

    -- A preparation is committed at most once: after a commit whose result says that the token was
    -- committed, and after any further calls, no commit of the same token is committed. This supposes
    -- that the token generator does not repeat itself, and that the tokens of the session are its.
    pub commit_once :
        (token : String) (s : SessionRecord values) (sent : Option SessionOperation)
        (request : Request) (calls : List Call) (resent : Option SessionOperation)
        (retried : Request)
        → WellDrawn host (governance host s)
        → has_committed ((commit_operation host token sent request s).0) ≡ true
        → has_committed (
            (commit_operation host token resent retried
              ((run host calls ((commit_operation host token sent request s).1)).1)).0)
          ≡ false
    commit_once token s sent request calls resent retried w done =
        commit-Spent token _ calls resent retried
          (committed-Spent token _ _ ((commit_operation-Marks token sent request s w).ends) done)
