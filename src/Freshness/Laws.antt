-- ===== src/Freshness/Laws.antt =====
-- About the two functions of dingdongditch/runtime/freshness.py.
use dingdongditch.Prelude.{
  ℕ, ◌≡◌, String, Bool, false, not, ◌&&◌, ◌||◌, none, some, List, [], ◌∷◌, arith, inl, inr,
  Option-cases,
}
use dingdongditch.Prelude.Equality.{◌==◌, contains, contains-append, string_eq}
use dingdongditch.Evidence.{EvidenceSignal}
use dingdongditch.Freshness.{
  FreshnessPolicy, is_signal_fresh_for_verification, by_id, stale_after, stale_loop,
  evaluate_freshness,
}

module _ (policy : FreshnessPolicy) (started completed : ℕ) (signals : List EvidenceSignal) where
  -- A used id is stale if the collector has a signal of the id that is not fresh.
  abbrev pub is_stale : String → Bool
  is_stale k = elim (by_id k signals) [
    | none ↦ false
    | some signal ↦ not (is_signal_fresh_for_verification signal started completed policy)
  ]

  contains-stale_after :
      (k j : String) (signal : EvidenceSignal) (stale : List String)
      → contains (stale_after policy started (some completed) k signal stale) j ≡ (
          contains stale j
          || j == k && not (is_signal_fresh_for_verification signal started completed policy))
  unfolding stale_after is_signal_fresh_for_verification
  contains-stale_after k j signal stale = grind (arith, contains-append)

  contains-stale_loop :
      (j : String) (ids stale : List String)
      → contains (stale_loop policy started (some completed) signals ids stale) j
        ≡ (contains stale j || contains ids j && is_stale j)
  unfolding stale_loop
  contains-stale_loop j [] stale = ground arith
  contains-stale_loop j (k ∷ ids) stale = elim (Option-cases (by_id k signals)) [
    | inl missing ↦ rw missing (ground (arith, contains-stale_loop j ids stale))
    | inr (signal, found) ↦
        let next = stale_after policy started (some completed) k signal stale in
        rw found
          (ground (arith, contains-stale_loop j ids next, contains-stale_after k j signal stale))
  ]

  -- `evaluate_freshness` calls an id stale exactly when verification used it and the latest
  -- signal of that id fails `is_signal_fresh_for_verification`: it was collected before the action
  -- started, or is older than the policy allows. An id without a signal is not stale.
  pub evaluate_freshness-stale :
      (used : List String) (j : String)
      → contains (evaluate_freshness policy (some started) (some completed) signals used) j
        ≡ (contains used j && is_stale j)
  unfolding evaluate_freshness
  evaluate_freshness-stale used j = contains-stale_loop j used []
