-- ===== src/Session/Transaction/Governed.antt =====
-- `prepare_operation` and `commit_operation` move a session by steps of its state machine: a
-- preparation is voided or consumed only while it is prepared.
use mathlib.Core.Path.{subst}
use dingdongditch.Prelude.{
  ℕ, ◌+◌, String, ◌≡◌, refl, sym, ap, ◌∙◌, Bool, Option, none, some, List, [], ◌∷◌, map, arith,
}
use dingdongditch.Prelude.Equality.{◌==◌, string_eq}
use dingdongditch.Authority.{FirewallDecision}
use dingdongditch.ReceiptChain.{Values}
use dingdongditch.Session.{
  SessionRecord, Host, HostEnvelope, SessionOperation, PreparedState, PreparedOperation,
  PreparedRecord, SpeculationSummary, CommitRejectedReason, MutationArbitrationPolicy,
  PreparationStatus, prepared, committed, invalidated, preparation_status_eq,
  secret_binding_changed, authority_changed, authority_rejected,
}
use dingdongditch.Session.Program.{return, after, ask_many, assign, lookup, adjust, ◌>>=◌}
use dingdongditch.Session.Guards.{set_status}
use dingdongditch.Session.Guards.Governed.{
  touch-Governed, lock-Governed, access-Governed, require_control-Governed,
  require_identity-Governed, require_signed_plan_operation-Governed, Follows-active,
  refresh_external_mutation-Governed, reject_mutation-Governed,
}
use dingdongditch.Session.Firewall.{is_authorized, decide_all, firewall_decision}
use dingdongditch.Session.Dispatch.{Request}
use dingdongditch.Session.Dispatch.Governed.{execute_locked-Governed}
use dingdongditch.Session.Transaction.{
  put, prepared_record, bind, store, prepare_governed, prepare_locked, prepare_operation, Refusal,
  keeps_preparation, voids_preparation, early_refusal, refuse_commit, begin_commit, consume,
  recheck_secret, recheck_authority, recheck_state, recheck, commit_found, commit_locked,
  commit_operation, sent_hash,
}
use dingdongditch.Session.Governance.{
  governance, status_of, Step, answers, stays, ◌▸◌, prepares, voids, consumes,
}
use dingdongditch.Session.Follows.{
  Follows, Governed, asked, Follows-return, Follows-raise, Follows-seq, Follows-ask,
  Follows-or_raise, Follows-read, Follows-Step, Follows-guard, Follows-if, Follows-finally,
}

-- The view of preparations commutes with the operations of the dictionary.
pub lookup-status_of :
    (token : String) (entries : List (String × PreparedRecord)) (p : PreparedRecord)
    → lookup token entries ≡ some p
    → lookup token (map status_of entries) ≡ some (p.shown.status)
lookup-status_of token [] p h = ground arith
lookup-status_of token (entry ∷ entries) p h = ground (arith, lookup-status_of token entries p)

adjust-status_of :
    (token : String) (p : PreparedRecord) (entries : List (String × PreparedRecord))
    → map status_of (adjust token (λ _. p) entries)
      ≡ adjust token (λ _. p.shown.status) (map status_of entries)
adjust-status_of token p [] = refl
adjust-status_of token p (entry ∷ entries) = ground (arith, adjust-status_of token p entries)

put-status_of :
    (token : String) (p : PreparedRecord) (entries : List (String × PreparedRecord))
    → map status_of (put token p entries) ≡ put token (p.shown.status) (map status_of entries)
put-status_of token p [] = refl
put-status_of token p (entry ∷ entries) = ground (arith, put-status_of token p entries)

-- A refusal that voids, and no refusal, are for a preparation that is still prepared.
early_refusal-prepared :
    (now epoch : ℕ) (policy : Option MutationArbitrationPolicy) (changed : Bool)
    (sent : Option String) (p : PreparedOperation) (reason : CommitRejectedReason)
    → early_refusal now epoch policy changed sent p ≡ some (voids_preparation reason)
    → p.status ≡ prepared
unfolding early_refusal
early_refusal-prepared now epoch policy changed sent p reason h = ground arith

pub no_refusal-prepared :
    (now epoch : ℕ) (policy : Option MutationArbitrationPolicy) (changed : Bool)
    (sent : Option String) (p : PreparedOperation)
    → early_refusal now epoch policy changed sent p ≡ none
    → p.status ≡ prepared
unfolding early_refusal
no_refusal-prepared now epoch policy changed sent p h = ground arith

module _ {values : Values} (host : Host values) where
  open host use {token_urlsafe, secret_holds}

  bind-Governed :
      (reference : Option String) (state : PreparedState)
      → Governed host (bind host reference state)
  bind-Governed none state s = Follows-return host _
  bind-Governed (some reference) state s =
      Follows-ask host _ _ _ (Follows-or_raise host _ _ (λ binding h. Follows-return host _))

  -- An entry that is stored, and the statuses that the machine sees then
  stored-Step :
      (p : PreparedRecord) (s : SessionRecord values)
      → p.shown.status ≡ prepared
      → Step host (governance host s) (
          governance host (record s {
            preparations = put (token_urlsafe s.answered) p s.preparations;
            answered = 1 + (1 + s.answered);
          }))
  stored-Step p s h =
      let token = token_urlsafe s.answered in
      let seen : put token prepared (map status_of s.preparations)
          ≡ map status_of (put token p s.preparations) =
        sym (
          put-status_of token p s.preparations
          ∙ ap (λ status. put token status (map status_of s.preparations)) h) in
      subst (Step host (governance host s))
        (λ i. record (governance host s) { statuses = seen i; drawn = 1 + (1 + s.answered) })
        (prepares 1)

  -- The same for a preparation that is marked while it is prepared
  pub marked :
      (token : String) (p : PreparedRecord) (status : PreparationStatus) (s : SessionRecord values)
      → adjust token (λ _. status) (map status_of s.preparations)
        ≡ map status_of (adjust token (λ _. set_status status p) s.preparations)
  marked token p status s = sym (adjust-status_of token (set_status status p) s.preparations)

  store-Governed :
      (made : ℕ → PreparedRecord) (ttl : ℕ)
      → ((n : ℕ) → (made n).shown.status ≡ prepared)
      → Governed host (store host made ttl)
  unfolding ◌>>=◌ after ask_many assign return
  store-Governed made ttl h s = record { steps = stored-Step (made _) s (h _) ▸ answers 1 ▸ stays }

  made-prepared :
      (r : SessionRecord values) (e : HostEnvelope) (op : SessionOperation) (state : PreparedState)
      (decision : FirewallDecision) (expires : ℕ) (signed : Option String)
      (summary : Option SpeculationSummary)
      → (prepared_record host r e op state decision expires signed summary).shown.status ≡ prepared
  unfolding prepared_record
  made-prepared r e op state decision expires signed summary = refl

  prepare_governed-Governed :
      (r : SessionRecord values) (envelope : Option HostEnvelope) (op : SessionOperation) (ttl : ℕ)
      (signed : Option String) (summary : Option SpeculationSummary)
      → Governed host (prepare_governed host r envelope op ttl signed summary)
  unfolding firewall_decision
  prepare_governed-Governed r none op ttl signed summary s = Follows-raise host _
  prepare_governed-Governed r (some e) op ttl signed summary s = Follows-guard host _ _ (λ e1.
      Follows-guard host _ _ (λ e2. Follows-active host _ (
        Follows-ask host _ _ _ (
          Follows-guard host _ _ (λ e3. Follows-ask host _ _ _ (
            Follows-or_raise host _ _ (λ captured e4.
              Follows-seq host (bind-Governed op.outer.secret_reference captured _) (λ state.
                let decision = decide_all host r e op (1 + s.answered) in
                store-Governed
                  (λ expires. prepared_record host r e op state decision expires signed summary) ttl
                  (λ n. made-prepared r e op state decision n signed summary)))))))))

  prepare_locked-Governed :
      (op : SessionOperation) (ttl : ℕ) (request : Request) (summary : Option SpeculationSummary)
      → Governed host (prepare_locked host op ttl request summary)
  unfolding prepare_locked
  prepare_locked-Governed op ttl request summary s =
      Follows-seq host (require_control-Governed host _ _ s) (λ a1 s1.
        Follows-seq host (require_identity-Governed host s1) (λ a2 s2.
          Follows-seq host (require_signed_plan_operation-Governed host op _ s2) (λ a3 s3.
            Follows-seq host (refresh_external_mutation-Governed host s3) (λ changed s4.
              Follows-read host _ (
                Follows-seq host (reject_mutation-Governed host _ _ _ s4)
                  (λ a5. prepare_governed-Governed s4 s4.authority_envelope op ttl _ summary))))))

  pub prepare_operation-Governed :
      (op : SessionOperation) (ttl : ℕ) (request : Request) (summary : Option SpeculationSummary)
      → Governed host (prepare_operation host op ttl request summary)
  unfolding prepare_operation
  prepare_operation-Governed op ttl request summary s = Follows-guard host _ _ (λ e.
      Follows-seq host (access-Governed host s) (λ a s1.
        Follows-seq host (lock-Governed host s1)
          (λ b. prepare_locked-Governed op ttl request summary)))

  -- The record has the preparation, and it is prepared.
  pub record Held (token : String) (p : PreparedRecord) (s : SessionRecord values) : Type 0 where
    pub found : lookup token s.preparations ≡ some p
    pub is_prepared : p.shown.status ≡ prepared

  pub Held-status :
      {token : String} {p : PreparedRecord} {s : SessionRecord values}
      → Held token p s
      → lookup token (map status_of s.preparations) ≡ some prepared
  Held-status {token = token} {p = p} {s = s} held =
      lookup-status_of token s.preparations p held.found ∙ ap some held.is_prepared

  void-Governed :
      (token : String) (p : PreparedRecord) (reason : CommitRejectedReason)
      (s : SessionRecord values)
      → Held token p s
      → Follows host (refuse_commit host token p (voids_preparation reason)) s
  void-Governed token p reason s held =
      Follows-Step host _ _
        (subst (Step host (governance host s))
          (λ i. record (governance host s) { statuses = marked token p invalidated s i })
          (voids token (Held-status held)))
        (Follows-return host _)

  -- What a commit writes before its dispatch consumes the token.
  pub begin_commit-Step :
      (token : String) (p : PreparedRecord) (s : SessionRecord values)
      → Held token p s
      → Step host (governance host s) (governance host (begin_commit host token p s))
  unfolding begin_commit
  begin_commit-Step token p s held =
      subst (Step host (governance host s))
        (λ i. record (governance host s) { statuses = marked token p committed s i })
        (consumes token (Held-status held))

  consume-Governed :
      (token : String) (p : PreparedRecord) (request : Request) (s : SessionRecord values)
      → Held token p s
      → Follows host (consume host token p request) s
  unfolding consume
  consume-Governed token p request s held = Follows-read host _ (
      Follows-Step host _ _ (begin_commit-Step token p s held) (
        Follows-seq host
          (Follows-finally host _ _ (λ t. refl)
            (Follows-seq host (access-Governed host _)
              (λ a. execute_locked-Governed host p.operation _)))
          (λ executed t. Follows-seq host (touch-Governed host t) (λ b u. Follows-return host _))))

  -- An answer changes nothing of what is held.
  pub Held-asked :
      {token : String} {p : PreparedRecord} {s : SessionRecord values} (n : ℕ)
      → Held token p s
      → Held token p (asked host n s)
  Held-asked n held = record { found = held.found; is_prepared = held.is_prepared }

  recheck_secret-Governed :
      (binding : Option String) (token : String) (p : PreparedRecord) (request : Request)
      (s : SessionRecord values)
      → Held token p s
      → Follows host (recheck_secret host binding token p request) s
  recheck_secret-Governed none token p request s held = consume-Governed token p request s held
  recheck_secret-Governed (some binding) token p request s held = Follows-ask host _ _ _ (
      Follows-if host {c = secret_holds s.answered p.operation.outer.secret_reference binding}
        {n = refuse_commit host token p (voids_preparation secret_binding_changed)}
        (λ e. consume-Governed token p request _ (Held-asked 1 held))
        (λ e. void-Governed token p _ _ (Held-asked 1 held)))

  recheck_authority-Governed :
      (r : SessionRecord values) (envelope : Option HostEnvelope) (token : String)
      (p : PreparedRecord) (request : Request) (s : SessionRecord values)
      → Held token p s
      → Follows host (recheck_authority host r envelope token p request) s
  unfolding firewall_decision
  recheck_authority-Governed r none token p request s held = void-Governed token p _ s held
  recheck_authority-Governed r (some e) token p request s held =
      Follows-if host {c = e.digest == p.shown.authority_policy_hash}
        {n = refuse_commit host token p (voids_preparation authority_changed)}
        (λ e1. Follows-ask host _ _ _ (
          Follows-if host {c = is_authorized (decide_all host r e p.operation s.answered)}
            {n = refuse_commit host token p (voids_preparation authority_rejected)}
            (λ e2.
              recheck_secret-Governed p.state.secret_binding token p request _ (Held-asked _ held))
            (λ e2. void-Governed token p _ _ (Held-asked _ held))))
        (λ e1. void-Governed token p _ s held)

  recheck_state-Governed :
      (reason : Option CommitRejectedReason) (token : String) (p : PreparedRecord)
      (request : Request) (s : SessionRecord values)
      → Held token p s
      → Follows host (recheck_state host reason token p request) s
  recheck_state-Governed (some reason) token p request s held = void-Governed token p reason s held
  recheck_state-Governed none token p request s held =
      Follows-read host _ (recheck_authority-Governed s s.authority_envelope token p request s held)

  recheck-Governed :
      (refusal : Option Refusal) (token : String) (p : PreparedRecord) (request : Request)
      (s : SessionRecord values)
      → (refusal ≡ none → Held token p s)
      → ((reason : CommitRejectedReason)
          → refusal ≡ some (voids_preparation reason)
          → Held token p s)
      → Follows host (recheck host refusal token p request) s
  recheck-Governed (some (keeps_preparation reason)) token p request s h1 h2 = Follows-return host _
  recheck-Governed (some (voids_preparation reason)) token p request s h1 h2 =
      void-Governed token p reason s (h2 reason refl)
  recheck-Governed none token p request s h1 h2 = Follows-active host _ (
      Follows-ask host _ _ _ (
        Follows-or_raise host _ _ (λ current e.
          recheck_state-Governed _ token p request _ (Held-asked 1 (Held-asked 1 (h1 refl))))))

  commit_found-Governed :
      (changed : Bool) (token : String) (found : Option PreparedRecord)
      (sent : Option SessionOperation) (request : Request) (s : SessionRecord values)
      → lookup token s.preparations ≡ found
      → Follows host (commit_found host s changed token found sent request) s
  unfolding commit_found
  commit_found-Governed changed token none sent request s h = Follows-return host _
  commit_found-Governed changed token (some p) sent request s h = Follows-ask host _ _ _ (
      recheck-Governed _ token p request _
        (λ e. record {
          found = h;
          is_prepared = no_refusal-prepared _ _ _ changed (sent_hash host sent) p.shown e;
        })
        (λ reason e. record {
          found = h;
          is_prepared = early_refusal-prepared _ _ _ changed (sent_hash host sent) p.shown reason e;
        }))

  commit_locked-Governed :
      (token : String) (sent : Option SessionOperation) (request : Request)
      → Governed host (commit_locked host token sent request)
  unfolding commit_locked
  commit_locked-Governed token sent request s =
      Follows-seq host (require_control-Governed host _ _ s) (λ a1 s1.
        Follows-seq host (require_identity-Governed host s1) (λ a2 s2.
          Follows-seq host (refresh_external_mutation-Governed host s2) (λ changed s3.
            Follows-read host _ (commit_found-Governed changed token _ sent request s3 refl))))

  pub commit_operation-Governed :
      (token : String) (sent : Option SessionOperation) (request : Request)
      → Governed host (commit_operation host token sent request)
  unfolding commit_operation
  commit_operation-Governed token sent request s =
      Follows-seq host (Follows-seq host (access-Governed host s) (λ a. lock-Governed host))
        (λ a. commit_locked-Governed token sent request)
