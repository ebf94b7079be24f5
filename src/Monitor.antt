-- ===== src/Monitor.antt =====
-- The progress monitor of a generated response (dingdongditch/runtime/generation_monitor.py).
-- The SHA-256 signature of a text and its progress signals is a parameter. A sample keeps what the
-- evidence says of time and progress; ids, lengths and hashes are left out.
pub mod Stability
mod Tests
use dingdongditch.Prelude.{
  ℕ, suc, ◌+◌, ◌-◌, String, Bool, true, false, not, ◌&&◌, ◌||◌, Option, none, some, List, [], ◌∷◌,
  ◌++◌, leb, ltb, if◌then◌else◌, is_some,
}
use dingdongditch.Prelude.Equality.{◌==◌, string_eq}
use dingdongditch.Prelude.Raise.{Result, ok, raised, raise_if, ◌>>=◌, ◌>>◌}

pub data GenerationStatus : Type 0 where
  observing completed generation_stalled : GenerationStatus

pub record Sample : Type 0 where
  pub captured_at_ms : ℕ
  pub fresh : Bool
  pub generation_active : Bool
  pub meaningful_progress : Bool
  pub no_progress_ms : ℕ
  pub stable_idle_samples : ℕ

pub record Monitor : Type 0 where
  pub baseline_text : String
  pub no_progress_lease_ms : ℕ
  pub stable_observations_required : ℕ
  pub last_signature : Option String
  pub last_text : String
  pub last_progress_at_ms : Option ℕ
  pub stable : ℕ
  pub evidence : List Sample

pub record Observation : Type 0 where
  pub captured_at_ms : ℕ
  pub text : String
  pub generation_active : Bool
  pub progress_signals : List String
  pub fresh : Bool

-- The constructor; it refuses a lease or a count below 1.
pub new : String → ℕ → ℕ → Result Monitor
new baseline lease required = do
  raise_if (ltb lease 1) "no_progress_lease_ms must be positive"
  raise_if (ltb required 1) "stable_observations_required must be positive"
  ok (record {
    baseline_text = baseline;
    no_progress_lease_ms = lease;
    stable_observations_required = required;
    last_signature = none;
    last_text = "";
    last_progress_at_ms = none;
    stable = 0;
    evidence = [];
  })

-- `last is not None and signature != last`
abbrev pub differs : Option String → String → Bool
differs none signature = false
differs (some last) signature = not (last == signature)

abbrev pub idle_since : Option ℕ → ℕ → ℕ
idle_since none now = 0
idle_since (some at) now = now - at

module _ (signature : String → List String → String) where
  abbrev pub has_progress : Monitor → Observation → Bool
  has_progress m o = differs m.last_signature (signature o.text o.progress_signals)

  -- `_last_progress_at_ms` after the observation
  abbrev pub progress_at : Monitor → Observation → Option ℕ
  progress_at m o =
      if o.fresh && (not (is_some m.last_progress_at_ms) || has_progress m o)
      then some o.captured_at_ms
      else m.last_progress_at_ms

  -- `_stable` after the observation
  abbrev pub stable_after : Monitor → Observation → ℕ
  stable_after m o =
      if o.fresh
        && not (o.text == m.baseline_text)
        && o.text == m.last_text
        && not o.generation_active
      then m.stable + 1
      else 0

  abbrev pub idle_ms : Monitor → Observation → ℕ
  idle_ms m o = idle_since (progress_at m o) o.captured_at_ms

  pub next_monitor : Monitor → Observation → Monitor
  next_monitor m o = record m {
    last_signature =
        (if o.fresh then some (signature o.text o.progress_signals) else m.last_signature);
    last_text = (if o.fresh then o.text else m.last_text);
    last_progress_at_ms = progress_at m o;
    stable = stable_after m o;
    evidence =
        m.evidence
        ++ record {
          captured_at_ms = o.captured_at_ms;
          fresh = o.fresh;
          generation_active = o.generation_active;
          meaningful_progress = has_progress m o;
          no_progress_ms = idle_ms m o;
          stable_idle_samples = stable_after m o;
        }
          ∷ [];
  }

  pub observe : Monitor → Observation → GenerationStatus × Monitor
  unfolding next_monitor
  observe m o = (
    if leb m.stable_observations_required (stable_after m o)
        then GenerationStatus.completed
        else if o.fresh && o.generation_active && leb m.no_progress_lease_ms (idle_ms m o)
        then GenerationStatus.generation_stalled
        else GenerationStatus.observing,
    next_monitor m o,
  )

  -- The monitor after a sequence of observations.
  pub observe_all : List Observation → Monitor → Monitor
  observe_all [] m = m
  observe_all (o ∷ os) m = observe_all os (observe m o).1
