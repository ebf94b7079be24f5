-- ===== src/Decision/Laws.antt =====
-- About `_decide_verdict` (dingdongditch/runtime/executor.py): what a verdict rests on.
use text.Mathlib.TextEquality.{eq_iff}
use dingdongditch.Prelude.{
  ℕ, ◌<◌, ◌≡◌, ◌≢◌, ◌↔◌, refl, String, Bool, true, false, Option, none, some, List, [], ◌∷◌, map,
  arith, is_true, any, all, ◌⊎◌, inl, inr, Option-cases, All,
}
use dingdongditch.Prelude.Equality.{◌==◌, string_eq, option_eq}
use dingdongditch.Verdict.{verified, execution_failed}
use dingdongditch.Evidence.{ExpectationResult}
use dingdongditch.Action.{
  ActionType, click, wait_for, switch_to_page, close_page, switch_to_opener, download,
}
use dingdongditch.Decision.{
  Download, ActionEvidence, early_verdict, expectation_verdict, evidence_or_empty, decide_verdict,
  download_completed, leaves_page,
}

abbrev AllPass : List ExpectationResult → Type 0
AllPass = All (λ r. r.result ≡ "pass")

-- Expectations are declared, and every result is a pass, on fresh evidence.
pub record Proved (declared : ℕ) (results : List ExpectationResult) (stale : List String)
    : Type 0 where
  pub some_declared : 0 < declared
  pub fresh : stale ≡ []
  pub evaluated : results ≢ []
  pub passed : AllPass results

-- The action's own evidence proves the operation.
pub data SelfProved (e : ActionEvidence) (declared : ℕ) : ActionType → Type 0 where
  waited : e.condition_satisfied ≡ some true → declared ≡ 0 → SelfProved e declared wait_for
  switched : e.dispatched ≡ some true → SelfProved e declared switch_to_page
  closed : e.dispatched ≡ some true → SelfProved e declared close_page
  returned : e.dispatched ≡ some true → SelfProved e declared switch_to_opener
  downloaded :
      (d : Download)
      → e.download_evidence ≡ some d
      → d.state ≡ some "completed"
      → d.has_artifact ≡ true
      → d.page_policy_passed ≡ some true
      → declared ≡ 0
      → SelfProved e declared download
  opened :
      (policy : String)
      → e.transition_policy ≡ some policy
      → policy ≢ ""
      → policy ≢ "same_page"
      → All (λ passed. passed ≡ some true) e.new_page_passed
      → SelfProved e declared click

abbrev pass_results : List ExpectationResult → List String
pass_results = map (λ r. r.result)

distinct_words : ◌≢◌ {A = String} "pass" "fail" × ◌≢◌ {A = String} "pass" "indeterminate"
distinct_words =
    (ground (arith, eq_iff "pass" "fail"), ground (arith, eq_iff "pass" "indeterminate"))

all_pass :
    (rs : List ExpectationResult) → (all (λ r. r == "pass") (pass_results rs) ≡ true) ↔ AllPass rs
all_pass [] = ground arith
all_pass (r ∷ rs) = ground (arith, all_pass rs)

no_other_word :
    (word : String) (rs : List ExpectationResult)
    → "pass" ≢ word
    → AllPass rs
    → any (λ r. r == word) (pass_results rs) ≡ false
no_other_word word [] ne h = refl
no_other_word word (r ∷ rs) ne h = ground (arith, no_other_word word rs ne h.1)

expectation_verdict-Proved :
    (declared : ℕ) (results : List ExpectationResult) (stale : List String)
    → (expectation_verdict declared results stale ≡ verified) ↔ Proved declared results stale
unfolding expectation_verdict
expectation_verdict-Proved declared [] stale =
    (λ h. absurd (sound_nil h), λ h. absurd (h.evaluated refl))
  where
    sound_nil : expectation_verdict declared [] stale ≡ verified → ⊥
    sound_nil h = ground arith
expectation_verdict-Proved declared (r ∷ rs) stale = (
  λ h. ground (arith, all_pass (r ∷ rs)),
  λ h. ground (
    arith,
    h.passed,
    all_pass (r ∷ rs),
    no_other_word "fail" (r ∷ rs) distinct_words.0 h.passed,
    no_other_word "indeterminate" (r ∷ rs) distinct_words.1 h.passed,
  ),
)

all-true : (bs : List (Option Bool)) → all is_true bs ≡ true → All (λ passed. passed ≡ some true) bs
all-true [] h = tt
all-true (none ∷ bs) h = cc
all-true (some false ∷ bs) h = cc
all-true (some true ∷ bs) h = (refl, all-true bs h)

is_true-some : (b : Option Bool) → is_true b ≡ true → b ≡ some true
is_true-some none h = cc
is_true-some (some false) h = cc
is_true-some (some true) h = refl

download_completed-eq-true :
    (o : Option Download)
    → download_completed o ≡ true
    → (d : Download) × (o ≡ some d)
      × (d.state ≡ some "completed")
      × (d.has_artifact ≡ true)
      × (is_true d.page_policy_passed ≡ true)
download_completed-eq-true none h = cc
download_completed-eq-true (some d) h = (d, refl, ground arith, ground arith, ground arith)

leaves_page-eq-true :
    (o : Option String)
    → leaves_page o ≡ true
    → (policy : String) × (o ≡ some policy) × (policy ≢ "") × (policy ≢ "same_page")
leaves_page-eq-true none h = cc
leaves_page-eq-true (some policy) h = (policy, refl, ground arith, ground arith)

early_verdict-SelfProved :
    (a : ActionType) (e : ActionEvidence) (declared : ℕ)
    → early_verdict (some a) e declared ≡ some verified
    → SelfProved e declared a
unfolding early_verdict
early_verdict-SelfProved ActionType.wait_for e n h =
    waited (is_true-some _ (ground arith)) (ground arith)
early_verdict-SelfProved ActionType.switch_to_page e n h = switched (is_true-some _ (ground arith))
early_verdict-SelfProved ActionType.close_page e n h = closed (is_true-some _ (ground arith))
early_verdict-SelfProved ActionType.switch_to_opener e n h =
    returned (is_true-some _ (ground arith))
early_verdict-SelfProved ActionType.download e n h =
    let (d, found, state, artifact, policy) =
      download_completed-eq-true e.download_evidence (ground arith) in
    downloaded d found state artifact (is_true-some _ policy) (ground arith)
early_verdict-SelfProved ActionType.click e n h =
    let (policy, found, named, other) = leaves_page-eq-true e.transition_policy (ground arith) in
    opened policy found named other (all-true e.new_page_passed (ground arith))
early_verdict-SelfProved _ e n h = cc

-- `_decide_verdict` says VERIFIED only if the action succeeded and its own evidence or the results prove
-- the operation.
pub verdict_needs_proof :
    (action_ok : Bool) (declared : ℕ) (results : List ExpectationResult) (stale : List String)
    (a : ActionType) (evidence : Option ActionEvidence)
    → decide_verdict action_ok declared results stale (some a) evidence ≡ verified
    → (action_ok ≡ true)
      × (Proved declared results stale ⊎ SelfProved (evidence_or_empty evidence) declared a)
unfolding decide_verdict
verdict_needs_proof false declared results stale a evidence h = cc
verdict_needs_proof true declared results stale a evidence h =
    elim (Option-cases (early_verdict (some a) (evidence_or_empty evidence) declared)) [
      | inl quiet ↦ (
        refl,
        inl (
            (expectation_verdict-Proved declared results stale).0
              (rw (quiet, decide_verdict) at h)),
      )
      | inr (v, early) ↦ (
        refl,
        inr (early_verdict-SelfProved a _ declared (cc (early, rw (early, decide_verdict) at h))),
      )
    ]

-- The action types whose verdict rests on the expectations alone.
abbrev pub is_plain : ActionType → Bool
is_plain wait_for = false
is_plain switch_to_page = false
is_plain close_page = false
is_plain switch_to_opener = false
is_plain download = false
is_plain click = false
is_plain _ = true

early_verdict-plain :
    (a : ActionType) (e : ActionEvidence) (declared : ℕ)
    → is_plain a ≡ true
    → early_verdict (some a) e declared ≡ none
unfolding early_verdict
early_verdict-plain wait_for e n h = cc
early_verdict-plain switch_to_page e n h = cc
early_verdict-plain close_page e n h = cc
early_verdict-plain switch_to_opener e n h = cc
early_verdict-plain download e n h = cc
early_verdict-plain click e n h = cc
early_verdict-plain _ e n h = refl

-- For every other action type that succeeded, `_decide_verdict` says VERIFIED exactly when the results
-- prove the operation.
pub plain_verdict_iff :
    (declared : ℕ) (results : List ExpectationResult) (stale : List String) (a : ActionType)
    (evidence : Option ActionEvidence)
    → is_plain a ≡ true
    → (decide_verdict true declared results stale (some a) evidence ≡ verified)
      ↔ Proved declared results stale
unfolding decide_verdict
plain_verdict_iff declared results stale a evidence h =
    rw (early_verdict-plain a (evidence_or_empty evidence) declared h, decide_verdict)
      (expectation_verdict-Proved declared results stale)

early_verdict-ne :
    (a : ActionType) (e : ActionEvidence) (declared : ℕ)
    → early_verdict (some a) e declared ≢ some execution_failed
unfolding early_verdict
early_verdict-ne wait_for e n = ground arith
early_verdict-ne _ e n = ground arith

expectation_verdict-ne :
    (declared : ℕ) (results : List ExpectationResult) (stale : List String)
    → expectation_verdict declared results stale ≢ execution_failed
unfolding expectation_verdict
expectation_verdict-ne declared results stale = ground arith

pub execution_failed_iff :
    (action_ok : Bool) (declared : ℕ) (results : List ExpectationResult) (stale : List String)
    (a : ActionType) (evidence : Option ActionEvidence)
    → (decide_verdict action_ok declared results stale (some a) evidence ≡ execution_failed)
      ↔ (action_ok ≡ false)
unfolding decide_verdict
execution_failed_iff false declared results stale a evidence = ground arith
execution_failed_iff true declared results stale a evidence =
    let e = evidence_or_empty evidence in
    ground (arith, early_verdict-ne a e declared, expectation_verdict-ne declared results stale)
