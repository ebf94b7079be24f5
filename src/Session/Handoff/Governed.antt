-- ===== src/Session/Handoff/Governed.antt =====
-- `prepare_agent_handoff` and `claim_agent_handoff` move a session by steps of its state machine.
use mathlib.Core.Path.{subst}
use dingdongditch.Prelude.{
  ℕ, ◌+◌, String, ◌≡◌, refl, sym, ap, ◌∙◌, Bool, true, false, not, ◌||◌, Option, none, some, List,
  [], ◌∷◌, map, if◌then◌else◌, arith,
}
use dingdongditch.Prelude.Equality.{◌==◌, string_eq, nat_eq, option_eq}
use dingdongditch.ReceiptChain.{Values}
use dingdongditch.Session.{SessionRecord, Host, IdentityAssertion, PendingHandoff}
use dingdongditch.Session.Program.{
  Program, return, after, ask, ask_many, assign, read, raise_when, lookup, ◌>>=◌,
}
use dingdongditch.Session.Guards.{invalidate_all, refresh_external_mutation}
use dingdongditch.Session.Guards.Frame.{
  Keeps, Keeps-bind, refresh_external_mutation-Keeps, control_of,
}
use dingdongditch.Session.Guards.Governed.{
  touch-Governed, lock-Governed, access-Governed, require_control-Governed,
  require_identity-Governed, refresh_external_mutation-Governed, Follows-active, invalidated-Step,
}
use dingdongditch.Session.Handoff.{
  validate_agent_id, verify_recipient, is_transferable, withdraw_preparations, store_offer,
  offer_handoff, prepare_agent_handoff, check_mutation, check_assertion, take_control, offer_of,
  claim_found, claim_agent_handoff,
}
use dingdongditch.Session.Governance.{
  governance, epoch_of, Step, answers, Steps, stays, ◌▸◌, offers_control, claims,
}
use dingdongditch.Session.Follows.{
  Follows, Governed, asked, Follows-return, Follows-seq, Follows-bind, Follows-ask,
  Follows-or_raise, Follows-read, Follows-guard, Follows-raise_when,
}

lookup-epoch_of :
    (token : String) (entries : List (String × PendingHandoff)) (p : PendingHandoff)
    → lookup token entries ≡ some p
    → lookup token (map epoch_of entries) ≡ some (p.checkpoint.control_epoch)
lookup-epoch_of token [] p h = ground arith
lookup-epoch_of token (entry ∷ entries) p h = ground (arith, lookup-epoch_of token entries p)

module _ {values : Values} (host : Host values) where
  validate_agent_id-Governed :
      (agent : Option String) → Governed host (validate_agent_id host agent)
  validate_agent_id-Governed none s = Follows-return host _
  validate_agent_id-Governed (some agent) s = Follows-raise_when host _ _

  verify_recipient-Governed :
      (assertion : Option IdentityAssertion) (recipient : Option String)
      → Governed host (verify_recipient host assertion recipient)
  verify_recipient-Governed none recipient s = Follows-return host _
  verify_recipient-Governed (some assertion) recipient s = Follows-read host _ (
      Follows-guard host _ _
        (λ e. Follows-ask host _ _ _ (Follows-or_raise host _ _ (λ d h. Follows-return host _))))

  withdraw-Steps :
      (transferable : Bool) (s : SessionRecord values)
      → Steps host (governance host s) (
          governance host (record s {
            preparations = if transferable then s.preparations else invalidate_all s.preparations;
          }))
  withdraw-Steps true s = stays
  withdraw-Steps false s = invalidated-Step host s ▸ stays

  withdraw_preparations-Governed : Governed host (withdraw_preparations host)
  unfolding assign
  withdraw_preparations-Governed s = record {
    steps = withdraw-Steps (is_transferable s.authority_envelope) s;
  }

  store_offer-Governed :
      (s : SessionRecord values) (made : ℕ → PendingHandoff) (ttl : ℕ)
      → ((n : ℕ) → (made n).checkpoint.control_epoch ≡ s.control_epoch)
      → Follows host (store_offer host made ttl) s
  unfolding ◌>>=◌ after ask_many assign return
  store_offer-Governed s made ttl h = record {
    steps =
        subst (Step host (governance host s))
          (λ i. record (governance host s) {
            offers = (host.token_urlsafe s.answered, sym (h (made_at s)) i) ∷ [];
            drawn = 1 + (1 + s.answered);
          })
          (offers_control 1)
        ▸ answers 1
        ▸ stays;
  }
    where
      made_at : SessionRecord values → ℕ
      made_at r = host.now_ms (1 + r.answered) + ttl

  offer_handoff-Governed :
      (ttl : ℕ) (recipient : Option String) (assertion : Option IdentityAssertion)
      → Governed host (offer_handoff host ttl recipient assertion)
  unfolding offer_handoff
  offer_handoff-Governed ttl recipient assertion s =
      Follows-seq host (refresh_external_mutation-Governed host s) (λ changed s1.
        Follows-seq host (verify_recipient-Governed assertion recipient s1) (λ descriptor s2.
          Follows-active host _ (
            Follows-seq host (withdraw_preparations-Governed _) (λ a s3. Follows-read host _ (
              store_offer-Governed s3
                (λ expires. offer_of host s3 expires recipient assertion descriptor) ttl
                (λ n. refl))))))

  pub prepare_agent_handoff-Governed :
      (agent held : Option String) (ttl : ℕ) (recipient : Option String)
      (assertion : Option IdentityAssertion)
      → Governed host (prepare_agent_handoff host agent held ttl recipient assertion)
  unfolding prepare_agent_handoff
  prepare_agent_handoff-Governed agent held ttl recipient assertion s = Follows-guard host _ _ (λ e.
      Follows-seq host (validate_agent_id-Governed recipient s) (λ a s1.
        Follows-seq host (access-Governed host s1) (λ b s2.
          Follows-seq host (lock-Governed host s2) (λ c s3.
            Follows-seq host (require_control-Governed host agent held s3) (λ d s4.
              Follows-seq host (require_identity-Governed host s4)
                (λ x. offer_handoff-Governed ttl recipient assertion))))))

  check_mutation-Governed : (epoch : Option ℕ) → Governed host (check_mutation host epoch)
  check_mutation-Governed none s = Follows-return host _
  check_mutation-Governed (some epoch) s =
      Follows-seq host (refresh_external_mutation-Governed host s)
        (λ changed t. Follows-read host _ (Follows-raise_when host _ _))

  check_mutation-Keeps : (epoch : Option ℕ) → Keeps host (check_mutation host epoch)
  unfolding return ◌>>=◌ after read raise_when
  check_mutation-Keeps none s = refl
  check_mutation-Keeps (some epoch) s =
      Keeps-bind host (refresh_external_mutation host) _ (refresh_external_mutation-Keeps host)
        (λ changed t. ground arith) s

  check_assertion-Governed :
      (next present : Option IdentityAssertion) (agent : String)
      → Governed host (check_assertion host next present agent)
  check_assertion-Governed none (some assertion) agent s =
      Follows-ask host _ _ _ (Follows-raise_when host _ _)
  check_assertion-Governed none none agent s = Follows-return host _
  check_assertion-Governed (some next) present agent s = Follows-return host _

  check_assertion-Keeps :
      (next present : Option IdentityAssertion) (agent : String)
      → Keeps host (check_assertion host next present agent)
  unfolding return ◌>>=◌ after ask_many raise_when
  check_assertion-Keeps next present agent s = ground arith

  -- An offer that is there, for the present epoch
  current-offer :
      (offered : String) (p : PendingHandoff) (s t : SessionRecord values)
      → control_of host t ≡ control_of host s
      → lookup offered s.pending_handoffs ≡ some p
      → p.checkpoint.control_epoch ≡ s.control_epoch
      → lookup offered (map epoch_of t.pending_handoffs) ≡ some (t.control_epoch)
  current-offer offered p s t kept h same =
      lookup-epoch_of offered t.pending_handoffs p (ap (λ c. lookup offered (c.0)) kept ∙ h)
      ∙ ap some (same ∙ sym (ap (λ c. c.1) kept))

  -- The end of a claim: the new controller's token, at an offer of the present epoch
  Follows-take {ℓ} :
      {B : Type ℓ} (offered agent : String) (p : PendingHandoff) (s t : SessionRecord values)
      (k : String → Unit {0} → Program values B)
      → control_of host t ≡ control_of host s
      → lookup offered s.pending_handoffs ≡ some p
      → p.checkpoint.control_epoch ≡ s.control_epoch
      → ((token : String) → Governed host (k token tt))
      → Follows host
          (ask host.token_urlsafe >>= λ token. assign (take_control host p agent token) >>= k token)
          t
  unfolding ◌>>=◌ after ask_many assign take_control
  Follows-take offered agent p s t k kept h same rest = record {
    steps =
        claims offered agent (current-offer offered p s t kept h same)
        ▸ (rest (host.token_urlsafe t.answered) _).steps;
  }

  -- The tests of a stale checkpoint let only one of the present epoch through.
  not_stale :
      (epoch current : ℕ) (old present : Option String)
      → (not (epoch == current) || not (old == present)) ≡ false
      → epoch ≡ current
  not_stale epoch current old present h = ground arith

  claim_found-Governed :
      (offered : String) (p : PendingHandoff) (agent : String) (authenticated : Option String)
      (s : SessionRecord values)
      → lookup offered s.pending_handoffs ≡ some p
      → Follows host (claim_found host p agent authenticated) s
  unfolding claim_found
  claim_found-Governed offered p agent authenticated s h = Follows-read host _ (
      Follows-guard host _ _ (λ e1. Follows-ask host _ _ _ (
        Follows-guard host _ _ (λ e2. Follows-guard host _ _ (λ e3.
          Follows-bind host (check_mutation-Governed p.checkpoint.mutation_epoch _) (λ a e4.
            Follows-guard host _ _ (λ e5. Follows-guard host _ _ (λ e6. Follows-read host _ (
              Follows-guard host _ _ (λ e7.
                Follows-bind host
                  (check_assertion-Governed p.recipient_identity_assertion _ agent _)
                  (λ b e8. Follows-guard host _ _ (λ e9.
                    Follows-take offered agent p s _ _
                      (check_assertion-Keeps p.recipient_identity_assertion _ agent _
                        ∙ check_mutation-Keeps p.checkpoint.mutation_epoch (asked host 1 s))
                      h (not_stale _ _ _ _ e3)
                      (λ token t.
                        Follows-seq host (touch-Governed host t)
                          (λ c u. Follows-read host _ (Follows-return host _)))))))))))))))

  pub claim_agent_handoff-Governed :
      (offered agent : String) (authenticated : Option String)
      → Governed host (claim_agent_handoff host offered agent authenticated)
  unfolding claim_agent_handoff
  claim_agent_handoff-Governed offered agent authenticated s =
      Follows-seq host (validate_agent_id-Governed (some agent) s) (λ a s1.
        Follows-seq host (access-Governed host s1) (λ b s2.
          Follows-seq host (lock-Governed host s2) (λ c s3. Follows-read host _ (
            Follows-or_raise host _ _
              (λ p h. claim_found-Governed offered p agent authenticated s3 h)))))
