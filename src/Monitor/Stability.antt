-- ===== src/Monitor/Stability.antt =====
-- About the completion of a response (dingdongditch/runtime/generation_monitor.py).
use dingdongditch.Prelude.{
  ℕ, zero, suc, ◌+◌, ◌≤◌, ◌<◌, ◌≡◌, ◌≢◌, refl, String, true, false, not, ◌&&◌, List, [], ◌∷◌, arith,
  inl, inr, Bool-cases,
}
use dingdongditch.Prelude.Equality.{◌==◌, string_eq}
use dingdongditch.Prelude.Raise.{ok}
use dingdongditch.Monitor.{
  GenerationStatus, Monitor, Observation, new, next_monitor, observe, observe_all,
}

-- Of a history, latest first, the first `n` observations are fresh, idle and show the text.
abbrev pub Settled : String → ℕ → List Observation → Type 0
Settled t zero history = Unit
Settled t (suc n) [] = ⊥
Settled t (suc n) (o ∷ history) =
    (o.fresh ≡ true) × (o.generation_active ≡ false) × (o.text ≡ t) × Settled t n history

Settled-≤ :
    (t : String) (m n : ℕ) (history : List Observation)
    → m ≤ n
    → Settled t n history
    → Settled t m history
Settled-≤ t zero n history h s = tt
Settled-≤ t (suc m) zero history h s = absurd (omega arith)
Settled-≤ t (suc m) (suc n) [] h s = s
Settled-≤ t (suc m) (suc n) (o ∷ history) h s =
    (s.0, s.1, s.2, Settled-≤ t m n history (omega arith) s.3)

n+1-suc : (n : ℕ) → n + 1 ≡ suc n
n+1-suc n = omega arith

-- A new observation continues the settled ones.
Settled-next :
    (t : String) (n : ℕ) (o : Observation) (history : List Observation)
    → o.fresh ≡ true
    → o.generation_active ≡ false
    → o.text ≡ t
    → Settled t n history
    → Settled t (n + 1) (o ∷ history)
Settled-next t n o history f a e s = rw (n+1-suc n) (f, a, e, s)

-- The observations with the latest first, before those of `history`.
abbrev pub latest_first : List Observation → List Observation → List Observation
latest_first [] history = history
latest_first (o ∷ os) history = latest_first os (o ∷ history)

-- The count of the monitor is backed by its history.
record Backed (baseline : String) (required : ℕ) (m : Monitor) (history : List Observation)
    : Type 0 where
  based : m.baseline_text ≡ baseline
  needs : m.stable_observations_required ≡ required
  settled : Settled m.last_text m.stable history
  changed : 0 < m.stable → m.last_text ≢ baseline

Backed-shown :
    (baseline : String) (required : ℕ) (m : Monitor) (t : String) (n : ℕ)
    (history : List Observation)
    → m.baseline_text ≡ baseline
    → m.stable_observations_required ≡ required
    → m.last_text ≡ t
    → m.stable ≡ n
    → Settled t n history
    → (0 < n → t ≢ baseline)
    → Backed baseline required m history
Backed-shown baseline required m t n history p q e f s c = record {
  based = p;
  needs = q;
  settled = rw (e, f) s;
  changed = rw (e, f) c;
}

module _ (signature : String → List String → String) (baseline : String) (required : ℕ) where
  observe-Backed :
      (m : Monitor) (o : Observation) (history : List Observation)
      → Backed baseline required m history
      → Backed baseline required (observe signature m o).1 (o ∷ history)
  unfolding observe next_monitor
  observe-Backed m o history b =
      elim (Bool-cases (
        o.fresh
        && not (o.text == m.baseline_text)
        && o.text == m.last_text
        && not o.generation_active)) [
          | inl settles ↦
              Backed-shown baseline required _ m.last_text (m.stable + 1) (o ∷ history) b.based
                b.needs (ground arith) (ground arith)
                (Settled-next _ _ o history (ground arith) (ground arith) (ground arith) b.settled)
                (λ _. ground (arith, b.based))
          | inr moves ↦
              Backed-shown baseline required _ _ 0 (o ∷ history) b.based b.needs refl (ground arith)
                tt (λ h. absurd (omega arith))
        ]

  observe_all-Backed :
      (os : List Observation) (m : Monitor) (history : List Observation)
      → Backed baseline required m history
      → Backed baseline required (observe_all signature os m) (latest_first os history)
  unfolding observe_all
  observe_all-Backed [] m history b = b
  observe_all-Backed (o ∷ os) m history b =
      observe_all-Backed os (observe signature m o).1 (o ∷ history) (observe-Backed m o history b)

  observe-fresh :
      (m : Monitor) (o : Observation)
      → 1 ≤ m.stable_observations_required
      → (observe signature m o).0 ≡ GenerationStatus.completed
      → o.fresh ≡ true
  unfolding observe
  observe-fresh m o positive h = ground arith

  observe-count :
      (m : Monitor) (o : Observation)
      → (observe signature m o).0 ≡ GenerationStatus.completed
      → m.stable_observations_required ≤ (observe signature m o).1.stable
  unfolding observe next_monitor
  observe-count m o h = ground arith

  observe-text :
      (m : Monitor) (o : Observation)
      → o.fresh ≡ true
      → (observe signature m o).1.last_text ≡ o.text
  unfolding observe next_monitor
  observe-text m o h = ground arith

  new-Backed :
      (lease : ℕ) (m : Monitor)
      → new baseline lease required ≡ ok m
      → Backed baseline required m [] × (1 ≤ required)
  unfolding new
  new-Backed lease m h = (
    Backed-shown baseline required m m.last_text 0 [] (ground arith) (ground arith) refl
        (ground arith) tt (λ none_yet. absurd (omega arith)),
    ground arith,
  )

-- A monitor that was constructed with `stable_observations_required = required` and has seen the
-- observations `os` reports COMPLETED on the next one only if the last `required` observations,
-- this one included, are fresh, show no generation at work and all show the same text, and that
-- text is not the baseline.
pub completed_is_stable :
    (signature : String → List String → String) (baseline : String) (lease required : ℕ)
    (m : Monitor) (os : List Observation) (o : Observation)
    → new baseline lease required ≡ ok m
    → (observe signature (observe_all signature os m) o).0 ≡ GenerationStatus.completed
    → (1 ≤ required) × Settled o.text required (o ∷ latest_first os []) × (o.text ≢ baseline)
completed_is_stable signature baseline lease required m os o made h =
    let (first, positive) = new-Backed signature baseline required lease m made in
    let before = observe_all-Backed signature baseline required os m [] first in
    let seen = observe_all signature os m in
    let after = observe-Backed signature baseline required seen o (latest_first os []) before in
    let count = observe-count signature baseline required seen o h in
    let fresh = observe-fresh signature baseline required seen o (omega (arith, before.needs)) h in
    let shown = observe-text signature baseline required seen o fresh in
    (
      positive,
      Settled-≤ o.text required _ (o ∷ latest_first os []) (omega (arith, before.needs))
          (rw shown at after.settled),
      rw shown at (after.changed (omega (arith, before.needs))),
    )
