-- ===== src/Monitor/Tests.antt =====
-- A response that settles after two equal observations.
use dingdongditch.Prelude.{ℕ, ◌≤◌, ◌≡◌, ◌≢◌, refl, String, Bool, true, false, none, List, [], ◌∷◌}
use dingdongditch.Prelude.Equality.{string_eq}
use dingdongditch.Prelude.Raise.{ok}
use dingdongditch.Monitor.{GenerationStatus, Monitor, Observation, new, observe, observe_all}
use dingdongditch.Monitor.Stability.{Settled, latest_first, completed_is_stable}

abbrev text_only : String → List String → String
text_only text signals = text

abbrev shows : ℕ → String → Bool → Observation
shows time text active = record {
  captured_at_ms = time;
  text = text;
  generation_active = active;
  progress_signals = [];
  fresh = true;
}

abbrev fresh_monitor : Monitor
fresh_monitor = record {
  baseline_text = "ask";
  no_progress_lease_ms = 500;
  stable_observations_required = 2;
  last_signature = none;
  last_text = "";
  last_progress_at_ms = none;
  stable = 0;
  evidence = [];
}

abbrev seen : List Observation
seen = shows 10 "an" true ∷ shows 20 "answer" false ∷ shows 30 "answer" false ∷ []

constructed : new "ask" 500 2 ≡ ok fresh_monitor
unfolding new
constructed = refl

completes :
    (observe text_only (observe_all text_only seen fresh_monitor) (shows 40 "answer" false)).0
    ≡ GenerationStatus.completed
unfolding observe observe_all string_eq
completes = refl

completed_is_stable_example :
    (1 ≤ 2)
    × Settled "answer" 2 (shows 40 "answer" false ∷ latest_first seen [])
    × ◌≢◌ {A = String} "answer" "ask"
completed_is_stable_example =
    completed_is_stable text_only "ask" 500 2 fresh_monitor seen (shows 40 "answer" false)
      constructed completes
