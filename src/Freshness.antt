-- ===== src/Freshness.antt =====
-- Freshness of evidence (dingdongditch/runtime/freshness.py). Times are milliseconds of a
-- monotonic clock, so they are naturals, and `FreshnessPolicy.validate` makes `max_age_ms`
-- positive. An age is a difference of integers in the source; it is compared here without a
-- subtraction, since `-` on the naturals stops at 0. The notes are left out.
pub mod Laws
mod Tests
use dingdongditch.Prelude.{
  ℕ, ◌+◌, String, Bool, true, false, not, ◌&&◌, ◌||◌, Option, none, some, List, [], ◌∷◌, ◌++◌, ltb,
  leb, if◌then◌else◌,
}
use dingdongditch.Prelude.Equality.{◌==◌, contains, string_eq}
use dingdongditch.Evidence.{EvidenceSignal}

pub record FreshnessPolicy : Type 0 where
  pub max_age_ms : ℕ

-- `age > policy.max_age_ms` with `age = verified_at - collected_at`
abbrev pub too_old : FreshnessPolicy → ℕ → ℕ → Bool
too_old policy verified_at collected_at = ltb (policy.max_age_ms + collected_at) verified_at

pub is_signal_fresh_for_verification : EvidenceSignal → ℕ → ℕ → FreshnessPolicy → Bool
is_signal_fresh_for_verification signal action_started_at_ms verification_completed_at_ms policy =
    if ltb signal.collected_at_ms action_started_at_ms
    then false
    else not (too_old policy verification_completed_at_ms signal.collected_at_ms)

-- `{s.signal_id: s for s in signals}.get(signal_id)`: the last signal of an id is kept.
pub by_id : String → List EvidenceSignal → Option EvidenceSignal
by_id k [] = none
by_id k (s ∷ signals) = elim (by_id k signals) [
  | none ↦ if s.signal_id == k then some s else none
  | some later ↦ some later
]

-- The two tests of one round, and what they append.
stale_after : FreshnessPolicy → ℕ → Option ℕ → String → EvidenceSignal → List String → List String
stale_after policy started verified_at signal_id signal stale =
    let early = if ltb signal.collected_at_ms started then stale ++ signal_id ∷ [] else stale in
    elim verified_at [
      | none ↦ early
      | some completed ↦
          if too_old policy completed signal.collected_at_ms && not (contains early signal_id)
          then early ++ signal_id ∷ []
          else early
    ]

-- The loop over the used ids. The source iterates a set, whose order is any order of the ids.
pub stale_loop :
    FreshnessPolicy → ℕ → Option ℕ → List EvidenceSignal → List String → List String → List String
unfolding stale_after
stale_loop policy started verified_at signals [] stale = stale
stale_loop policy started verified_at signals (k ∷ ids) stale =
    let next : List String = elim (by_id k signals) [
      | none ↦ stale
      | some signal ↦ stale_after policy started verified_at k signal stale
    ] in
    stale_loop policy started verified_at signals ids next

-- `evaluate_freshness(...).stale_signal_ids`
pub evaluate_freshness :
    FreshnessPolicy → Option ℕ → Option ℕ → List EvidenceSignal → List String → List String
evaluate_freshness policy none verified_at signals used = []
evaluate_freshness policy (some started) verified_at signals used =
    stale_loop policy started verified_at signals used []
