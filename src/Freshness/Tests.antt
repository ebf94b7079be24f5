-- ===== src/Freshness/Tests.antt =====
-- Signals of which one is too old.
use dingdongditch.Prelude.{ℕ, ◌≡◌, String, ◌&&◌, some, List, [], ◌∷◌}
use dingdongditch.Prelude.Equality.{contains, string_eq}
use dingdongditch.Evidence.{SignalKind, EvidenceSignal}
use dingdongditch.Freshness.{FreshnessPolicy, evaluate_freshness}
use dingdongditch.Freshness.Laws.{is_stale, evaluate_freshness-stale}

abbrev at : String → ℕ → EvidenceSignal
at id time = record { signal_id = id; kind = SignalKind.dom_state; collected_at_ms = time }

abbrev policy : FreshnessPolicy
policy = record { max_age_ms = 100 }

abbrev signals : List EvidenceSignal
signals = at "s1" 120 ∷ at "s2" 300 ∷ []

evaluate_freshness-stale_example :
    contains {A = String}
      (evaluate_freshness policy (some 100) (some 350) signals ("s1" ∷ "s2" ∷ []))
      "s1"
    ≡ (contains {A = String} ("s1" ∷ "s2" ∷ []) "s1" && is_stale policy 100 350 signals "s1")
evaluate_freshness-stale_example =
    evaluate_freshness-stale policy 100 350 signals ("s1" ∷ "s2" ∷ []) "s1"
