-- ===== src/Deadline.antt =====
-- The plan deadline and its extension for a video that still plays
-- (dingdongditch/runtime/plan_timing.py). Times are milliseconds of a monotonic clock, and
-- `max(0, a - b)` of the source is `-` on the naturals.
--
-- Python's floats, and the untyped values that the browser reports, are a parameter: which values
-- are finite numbers, the sign tests that the code makes, and the rounded remaining playback time.
pub mod Bounds
pub mod Rounds
mod Tests
use dingdongditch.Prelude.{
  ℕ, ◌+◌, ◌-◌, String, Bool, true, false, not, ◌&&◌, ◌||◌, Option, none, some, List, [], ◌∷◌, ◌++◌,
  ltb, leb, if◌then◌else◌, is_some,
}

pub record Floats : Type 1 where
  -- What the browser reports under a key, and a finite float.
  pub Value : Type 0
  pub Float : Type 0
  -- `float(value)`, if it is finite (`_is_finite_number`)
  pub finite : Value → Option Float
  pub is_infinite : Value → Bool
  pub is_nan : Value → Bool
  -- `0 < x`
  pub positive : Float → Bool
  pub zero_float : Float
  -- `int(value) < 1`
  pub below_one : Value → Bool
  -- `int(ceil(max(0.0, (duration - current) / rate) * 1000.0))`
  pub remaining_ms : Float → Float → Float → ℕ

pub record Decision : Type 0 where
  pub extension_reason : String
  pub requested_extension_ms : ℕ
  pub granted_extension_ms : ℕ
  pub original_wait_deadline_ms : ℕ
  pub resulting_wait_deadline_ms : ℕ
  pub original_plan_deadline_ms : Option ℕ
  pub resulting_plan_deadline_ms : Option ℕ
  pub max_plan_timeout_ms : Option ℕ
  pub ceiling_prevented_full_extension : Bool
  pub adaptive_timeout_enabled : Bool

pub record PlanTimingState : Type 0 where
  pub initial_plan_timeout_ms : Option ℕ
  pub adaptive_timeout_enabled : Bool
  pub max_plan_timeout_ms : Option ℕ
  pub plan_started_at_ms : ℕ
  pub plan_deadline_ms : Option ℕ
  pub decisions : List Decision

-- `start + budget`, if there is a budget.
abbrev pub budget_end : ℕ → Option ℕ → Option ℕ
budget_end started none = none
budget_end started (some budget) = some (started + budget)

pub from_plan : Option ℕ → Bool → Option ℕ → ℕ → PlanTimingState
from_plan initial adaptive max_ms started = record {
  initial_plan_timeout_ms = initial;
  adaptive_timeout_enabled = adaptive;
  max_plan_timeout_ms = max_ms;
  plan_started_at_ms = started;
  plan_deadline_ms = budget_end started initial;
  decisions = [];
}

abbrev pub plan_ceiling_ms : PlanTimingState → Option ℕ
plan_ceiling_ms t = budget_end t.plan_started_at_ms t.max_plan_timeout_ms

abbrev deadline_passed : Option ℕ → ℕ → Bool
deadline_passed none now = false
deadline_passed (some deadline) now = leb deadline now

pub expired : PlanTimingState → ℕ → Bool
expired t now = deadline_passed t.plan_deadline_ms now

-- `min` with a ceiling that may be missing, and whether it cut.
abbrev pub capped_at : Option ℕ → ℕ → ℕ
capped_at none target = target
capped_at (some ceiling) target = if ltb ceiling target then ceiling else target

abbrev pub cuts : Option ℕ → ℕ → Bool
cuts none target = false
cuts (some ceiling) target = ltb ceiling target

-- How far a deadline that may be missing must move.
abbrev pub beyond : Option ℕ → ℕ → ℕ
beyond none target = 0
beyond (some deadline) target = target - deadline

abbrev pub moved : Option ℕ → ℕ → Option ℕ
moved none by = none
moved (some deadline) by = some (deadline + by)

abbrev max_of : ℕ → ℕ → ℕ
max_of a b = if ltb a b then b else a

-- The decision that changes nothing.
abbrev pub base_decision : String → ℕ → Option PlanTimingState → Decision
base_decision reason wait none = record {
  extension_reason = reason;
  requested_extension_ms = 0;
  granted_extension_ms = 0;
  original_wait_deadline_ms = wait;
  resulting_wait_deadline_ms = wait;
  original_plan_deadline_ms = none;
  resulting_plan_deadline_ms = none;
  max_plan_timeout_ms = none;
  ceiling_prevented_full_extension = false;
  adaptive_timeout_enabled = false;
}
base_decision reason wait (some t) = record {
  extension_reason = reason;
  requested_extension_ms = 0;
  granted_extension_ms = 0;
  original_wait_deadline_ms = wait;
  resulting_wait_deadline_ms = wait;
  original_plan_deadline_ms = t.plan_deadline_ms;
  resulting_plan_deadline_ms = t.plan_deadline_ms;
  max_plan_timeout_ms = t.max_plan_timeout_ms;
  ceiling_prevented_full_extension = false;
  adaptive_timeout_enabled = t.adaptive_timeout_enabled;
}

-- From the target deadline on: the request, the cap by the plan's ceiling, the grant.
pub extend_to : ℕ → ℕ → PlanTimingState → Decision
extend_to target wait t =
    let ceiling = plan_ceiling_ms t in
    let requested = max_of (target - wait) (beyond t.plan_deadline_ms target) in
    let capped = cuts ceiling target in
    let granted_wait = capped_at ceiling target - wait in
    let granted_plan = beyond t.plan_deadline_ms (capped_at ceiling target) in
    let granted = max_of granted_wait granted_plan in
    let prevented = capped && ltb granted requested in
    if leb requested 0
    then base_decision "no_extension_needed" wait (some t)
    else if leb granted 0
    then record {
      extension_reason = (if capped then "ceiling_blocks_extension" else "no_extension_needed");
      requested_extension_ms = requested;
      granted_extension_ms = granted;
      original_wait_deadline_ms = wait;
      resulting_wait_deadline_ms = wait;
      original_plan_deadline_ms = t.plan_deadline_ms;
      resulting_plan_deadline_ms = t.plan_deadline_ms;
      max_plan_timeout_ms = t.max_plan_timeout_ms;
      ceiling_prevented_full_extension = prevented;
      adaptive_timeout_enabled = t.adaptive_timeout_enabled;
    }
    else record {
      extension_reason =
          (if prevented
            then "video_ended_remaining_playback_capped"
            else "video_ended_remaining_playback");
      requested_extension_ms = requested;
      granted_extension_ms = granted;
      original_wait_deadline_ms = wait;
      resulting_wait_deadline_ms = wait + granted_wait;
      original_plan_deadline_ms = t.plan_deadline_ms;
      resulting_plan_deadline_ms = moved t.plan_deadline_ms granted_plan;
      max_plan_timeout_ms = t.max_plan_timeout_ms;
      ceiling_prevented_full_extension = prevented;
      adaptive_timeout_enabled = t.adaptive_timeout_enabled;
    }

-- `apply_extension_decision`: the new wait deadline, and the plan's state if there is one.
pub apply_wait : Decision → ℕ → ℕ
apply_wait d wait =
    if ltb 0 d.granted_extension_ms then max_of wait d.resulting_wait_deadline_ms else wait

latest : Option ℕ → Option ℕ → Option ℕ
latest (some a) (some b) = some (max_of a b)
latest a _ = a

pub apply_plan : Decision → PlanTimingState → PlanTimingState
unfolding latest
apply_plan d t = record t {
  plan_deadline_ms =
      (if ltb 0 d.granted_extension_ms
        then latest t.plan_deadline_ms d.resulting_plan_deadline_ms
        else t.plan_deadline_ms);
  decisions = t.decisions ++ d ∷ [];
}

pub apply_extension_decision : Decision → ℕ → Option PlanTimingState → ℕ × Option PlanTimingState
unfolding apply_wait apply_plan
apply_extension_decision d wait none = (apply_wait d wait, none)
apply_extension_decision d wait (some t) = (apply_wait d wait, some (apply_plan d t))

module _ (floats : Floats) where
  open floats use {
    Value, Float, finite, is_infinite, is_nan, positive, zero_float, below_one, remaining_ms,
  }

  -- What the browser reports of the video. `loop`, `ended` and `paused` are as the code tests them.
  pub record Observed : Type 0 where
    pub duration : Option Value
    pub current_time : Option Value
    pub playback_rate : Option Value
    pub ready_state : Option Value
    pub loop : Bool
    pub ended : Bool
    pub paused : Bool

  abbrev pub as_finite : Option Value → Option Float
  as_finite none = none
  as_finite (some v) = finite v

  -- The reason for a duration that is not a finite number.
  abbrev bad_duration : Option Value → String
  bad_duration none = "invalid_duration"
  bad_duration (some v) =
      if is_infinite v
      then "infinite_duration"
      else if is_nan v
      then "nan_duration"
      else "invalid_duration"

  abbrev pub is_positive : Option Float → Bool
  is_positive none = false
  is_positive (some x) = positive x

  abbrev pub time_or_zero : Option Float → Float
  time_or_zero none = zero_float
  time_or_zero (some x) = x

  -- `_is_finite_number(ready_state) and int(ready_state) < 1`
  abbrev pub has_no_metadata : Option Value → Bool
  has_no_metadata none = false
  has_no_metadata (some v) = is_some (finite v) && below_one v

  -- The reason to refuse an extension on what was observed, or the remaining playback time.
  remaining : Observed → Option Float → Option Float → Float → String × Option ℕ
  remaining o none rate current = (bad_duration o.duration, none)
  remaining o (some duration) none current =
      (if positive duration then "invalid_playback_rate" else "zero_duration", none)
  remaining o (some duration) (some rate) current =
      if not (positive duration)
      then ("zero_duration", none)
      else if not (positive rate)
      then ("invalid_playback_rate", none)
      else if o.paused && not (positive current)
      then ("never_started", none)
      else if has_no_metadata o.ready_state
      then ("stalled_or_no_metadata", none)
      else ("", some (remaining_ms duration current rate))

  pub assess : Observed → String × Option ℕ
  unfolding remaining
  assess o =
      if o.ended
      then ("already_ended", none)
      else if o.loop
      then ("looping_media", none)
      else remaining o (as_finite o.duration) (as_finite o.playback_rate)
          (time_or_zero (as_finite o.current_time))

  -- `compute_video_ended_extension`
  pub compute_video_ended_extension : Observed → ℕ → ℕ → Option PlanTimingState → ℕ → Decision
  unfolding extend_to
  compute_video_ended_extension o now wait none margin =
      base_decision "adaptation_disabled" wait none
  compute_video_ended_extension o now wait (some t) margin =
      if not t.adaptive_timeout_enabled
      then base_decision "adaptation_disabled" wait (some t)
      else let (reason, left) = assess o in
        elim left [
          | none ↦ base_decision reason wait (some t)
          | some ms ↦ extend_to (now + (ms + margin)) wait t
        ]
