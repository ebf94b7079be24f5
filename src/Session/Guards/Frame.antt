-- ===== src/Session/Guards/Frame.antt =====
-- What the arbitration of mutations leaves as it was: the offers and the control of a session.
use dingdongditch.Prelude.{ℕ, ◌+◌, String, ◌≡◌, refl, ◌∙◌, Option, none, some, List, arith}
use dingdongditch.ReceiptChain.{Values}
use dingdongditch.Session.{
  SessionRecord, Host, MutationArbitrationPolicy, MutationActor, external_unknown, PendingHandoff,
}
use dingdongditch.Session.Program.{
  Program, Outcome, returned, raised, after, return, raise, raise_when, read, ask_many, assign,
  ◌>>=◌,
}
use dingdongditch.Session.Guards.{
  active_backend, advance_mutation_epoch, external_change, compare_state, refresh,
  refresh_external_mutation,
}

module _ {values : Values} (host : Host values) where
  abbrev pub control_of : SessionRecord values → List (String × PendingHandoff) × ℕ
  control_of s = (s.pending_handoffs, s.control_epoch)

  -- A program that leaves them as they were
  abbrev pub Keeps {ℓ} : {A : Type ℓ} → Program values A → Type 0
  Keeps m = (s : SessionRecord values) → control_of ((m s).1) ≡ control_of s

  module _ {ℓ κ} {A : Type ℓ} {B : Type κ} where
    after-Keeps :
        (o : Outcome A) (k : A → Program values B) → ((a : A) → Keeps (k a)) → Keeps (after o k)
    unfolding after
    after-Keeps (returned a) k h s = h a s
    after-Keeps (raised e) k h s = refl

    pub Keeps-bind :
        (m : Program values A) (k : A → Program values B)
        → Keeps m
        → ((a : A) → Keeps (k a))
        → Keeps (m >>= k)
    unfolding ◌>>=◌
    Keeps-bind m k p q s = after-Keeps ((m s).0) k q ((m s).1) ∙ p s

  active_backend-Keeps : Keeps (active_backend host)
  unfolding active_backend ◌>>=◌ after read ask_many assign return raise
  active_backend-Keeps s = ground arith

  advance-Keeps :
      (policy : MutationArbitrationPolicy) (actor : MutationActor) (source : String)
      → Keeps (advance_mutation_epoch host policy actor source)
  unfolding advance_mutation_epoch ◌>>=◌ after read ask_many assign return raise_when
  advance-Keeps policy actor source s = ground arith

  external_change-Keeps : (policy : MutationArbitrationPolicy) → Keeps (external_change host policy)
  unfolding return
  external_change-Keeps policy =
      Keeps-bind _ _ (advance-Keeps policy external_unknown "browser_state") (λ a s. refl)

  compare_state-Keeps :
      (policy : MutationArbitrationPolicy) (before answer : Option String)
      → Keeps (compare_state host policy before answer)
  unfolding ◌>>=◌ after assign return
  compare_state-Keeps policy before none s = external_change-Keeps policy s
  compare_state-Keeps policy before (some current) s =
      ground (
        arith,
        external_change-Keeps policy (record s { mutation_state_fingerprint = some current }),
      )

  refresh-Keeps :
      (r : SessionRecord values) (policy : Option MutationArbitrationPolicy)
      → Keeps (refresh host r policy)
  unfolding return ◌>>=◌ after ask_many
  refresh-Keeps r none s = refl
  refresh-Keeps r (some policy) s =
      Keeps-bind (active_backend host) _ active_backend-Keeps
        (λ a t.
          compare_state-Keeps policy r.mutation_state_fingerprint (host.mutation_state t.answered)
            (record t { answered = 1 + t.answered }))
        s

  pub refresh_external_mutation-Keeps : Keeps (refresh_external_mutation host)
  unfolding refresh_external_mutation ◌>>=◌ after read
  refresh_external_mutation-Keeps s = refresh-Keeps s s.mutation_policy s
