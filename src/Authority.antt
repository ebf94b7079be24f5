-- ===== src/Authority.antt =====
-- The authority envelope and its firewall (dingdongditch/contract/authority.py).
--
-- Origins are strings here. What reads a URL or an origin pattern (`_origin`, `_matches_origin`,
-- which rest on Python's URL and IDNA codecs) and what reads a path (`Path(p).name`,
-- `Path(p).stat()`) is a parameter, and so is the hash of a policy. The text of a reason is left
-- out: each rule has one.
pub mod Provenance
pub mod Rules
pub mod Firewall
mod Tests
use dingdongditch.Prelude.{
  ℕ, ◌+◌, String, Bool, true, false, not, ◌&&◌, ◌||◌, Option, none, some, List, [], ◌∷◌, ◌++◌, map,
  ltb, leb, is_some, is_empty, if◌then◌else◌, any,
}
use dingdongditch.Prelude.Equality.{Eq, ◌==◌, contains, string_eq}
use dingdongditch.Action.{ActionType, navigate, action_eq}

pub data ProvenanceClass : Type 0 where
  user_authority host_policy agent_reasoning web_untrusted : ProvenanceClass
  third_party_content secret_provider system_runtime : ProvenanceClass

pub ProvenanceClass-discrete : Discrete ProvenanceClass
ProvenanceClass-discrete = hlevel

instance unfoldable pub provenance_eq : Eq ProvenanceClass
provenance_eq = record { dec = ProvenanceClass-discrete }

-- One group of `merge_provenance`: each label that is not there yet is appended.
merge_group : List ProvenanceClass → List ProvenanceClass → List ProvenanceClass
merge_group merged [] = merged
merge_group merged (v ∷ vs) =
    merge_group (if contains merged v then merged else merged ++ v ∷ []) vs

merge_onto : List ProvenanceClass → List (List ProvenanceClass) → List ProvenanceClass
unfolding merge_group
merge_onto merged [] = merged
merge_onto merged (g ∷ gs) = merge_onto (merge_group merged g) gs

pub merge_provenance : List (List ProvenanceClass) → List ProvenanceClass
unfolding merge_onto
merge_provenance = merge_onto []

pub data FirewallOutcome : Type 0 where
  authorized policy_rejected authority_insufficient origin_not_allowed : FirewallOutcome
  action_not_allowed authority_expired side_effect_budget_exceeded : FirewallOutcome
  provenance_policy_rejected : FirewallOutcome

-- The fields that the firewall reads. `required_authority_by_action` is a mapping.
pub record AuthorityEnvelope : Type 0 where
  pub policy_id : String
  pub granted_authorities : List ProvenanceClass
  pub allowed_origins : List String
  pub denied_origins : List String
  pub allowed_action_types : List ActionType
  pub denied_action_types : List ActionType
  pub allowed_file_names : List String
  pub allowed_secret_references : List String
  pub max_upload_bytes : Option ℕ
  pub irreversible_action_types : List ActionType
  pub required_authority_by_action : ActionType → Option ProvenanceClass
  pub expires_at_ms : Option ℕ
  pub max_action_count : Option ℕ
  pub max_side_effect_count : Option ℕ
  pub deny_untrusted_for_irreversible : Bool
  pub allow_frame_actions : Bool

-- What the firewall reads of an operation. `file_paths` is there if the action carries an upload
-- authorization; `frame_targeted` says that it names a frame or a frame path.
pub record Operation : Type 0 where
  pub url : String
  pub action_type : ActionType
  pub provenance : List ProvenanceClass
  pub frame_targeted : Bool
  pub secret_reference : Option String
  pub file_paths : Option (List String)

pub record FirewallDecision : Type 0 where
  pub outcome : FirewallOutcome
  pub policy_id : String
  pub required_authority : Option ProvenanceClass
  pub available_authorities : List ProvenanceClass
  pub rule_matched : String
  pub origin : String
  pub action_type : ActionType
  pub input_provenance : List ProvenanceClass
  pub action_count : ℕ
  pub side_effect_count : ℕ

-- What the code reads through Python's libraries.
pub record Readers : Type 0 where
  -- `_origin`: the origin of an http(s) URL, and "" of anything else
  pub origin_of : String → String
  -- `_matches_origin`
  pub matches_origin : String → List String → Bool
  -- `Path(path).name`
  pub file_name : String → String
  -- `Path(path).stat().st_size`, `none` where it raises `OSError`
  pub file_size : String → Option ℕ

-- A test of the firewall, with the outcome and the rule of a decision that it makes.
pub record Rule : Type 0 where
  pub applies : Bool
  pub outcome : FirewallOutcome
  pub name : String

abbrev pub rule : Bool → FirewallOutcome → String → Rule
rule applies outcome name = record { applies = applies; outcome = outcome; name = name }

-- A limit that is there is reached, or passed.
abbrev pub reached : Option ℕ → ℕ → Bool
reached none n = false
reached (some limit) n = leb limit n

abbrev pub is_privileged : ProvenanceClass → Bool
is_privileged ProvenanceClass.user_authority = true
is_privileged ProvenanceClass.host_policy = true
is_privileged ProvenanceClass.secret_provider = true
is_privileged ProvenanceClass.system_runtime = true
is_privileged _ = false

abbrev pub is_untrusted : ProvenanceClass → Bool
is_untrusted ProvenanceClass.web_untrusted = true
is_untrusted ProvenanceClass.third_party_content = true
is_untrusted _ = false

-- `required is not None and required not in granted`
abbrev pub lacks : Option ProvenanceClass → List ProvenanceClass → Bool
lacks none granted = false
lacks (some required) granted = not (contains granted required)

abbrev pub unlisted_secret : Option String → List String → Bool
unlisted_secret none allowed = false
unlisted_secret (some reference) allowed =
    not (is_empty allowed) && not (contains allowed reference)

-- `x or y` on optional texts, down to a text that is there
abbrev pub text_or : Option String → String → String
text_or none d = d
text_or (some s) d = if s == "" then d else s

abbrev pub add_sizes : Option ℕ → Option ℕ → Option ℕ
add_sizes (some a) (some b) = some (a + b)
add_sizes _ _ = none

abbrev pub exceeds : Option ℕ → ℕ → Bool
exceeds none limit = true
exceeds (some total) limit = ltb limit total

-- The sequence of tests, each of which may return.
unfoldable pub first_rule : List Rule → FirewallOutcome × String
first_rule [] = (FirewallOutcome.authorized, "envelope_authorized")
first_rule (r ∷ rs) = if r.applies then (r.outcome, r.name) else first_rule rs

module _ (readers : Readers) where
  open readers use {origin_of, matches_origin, file_name, file_size}

  abbrev pub unlisted_file : Option (List String) → List String → Bool
  unlisted_file none allowed = false
  unlisted_file (some files) allowed =
      not (is_empty allowed) && any (λ path. not (contains allowed (file_name path))) files

  -- `sum(Path(path).stat().st_size for path in files)`, `none` where one raises
  abbrev pub total_size : List String → Option ℕ
  total_size [] = some 0
  total_size (path ∷ files) = add_sizes (file_size path) (total_size files)

  -- The upload is too large, or its size is unknown, where the envelope has a limit.
  abbrev pub oversized : Option (List String) → Option ℕ → Bool
  oversized none limit = false
  oversized (some files) none = false
  oversized (some files) (some limit) = exceeds (total_size files) limit

  -- `effective_url or (operation.url if navigate else (current_url or operation.url))`
  unfoldable pub effective_origin : Operation → Option String → Option String → String
  effective_origin op current effective =
      origin_of
        (text_or effective (if op.action_type == navigate then op.url else text_or current op.url))

  -- The tests of `decide`, in their order.
  unfoldable pub rules :
      Operation → AuthorityEnvelope → Option String → Option String → ℕ → ℕ → ℕ → List Rule
  unfolding effective_origin
  rules op e current effective now_ms action_count side_effect_count =
      let origin = effective_origin op current effective in
      let irreversible = contains e.irreversible_action_types op.action_type in
      rule (reached e.expires_at_ms now_ms) FirewallOutcome.authority_expired "expires_at_ms"
      ∷ rule (any is_privileged op.provenance) FirewallOutcome.provenance_policy_rejected
          "planner_provenance"
      ∷ rule (origin == "") FirewallOutcome.origin_not_allowed "network_origin"
      ∷ rule (reached e.max_action_count action_count) FirewallOutcome.side_effect_budget_exceeded
          "max_action_count"
      ∷ rule (irreversible && reached e.max_side_effect_count side_effect_count)
          FirewallOutcome.side_effect_budget_exceeded "max_side_effect_count"
      ∷ rule (not (is_empty e.denied_origins) && matches_origin origin e.denied_origins)
          FirewallOutcome.origin_not_allowed "denied_origins"
      ∷ rule (not (is_empty e.allowed_origins) && not (matches_origin origin e.allowed_origins))
          FirewallOutcome.origin_not_allowed "allowed_origins"
      ∷ rule (contains e.denied_action_types op.action_type) FirewallOutcome.action_not_allowed
          "denied_action_types"
      ∷ rule
          (not (is_empty e.allowed_action_types)
            && not (contains e.allowed_action_types op.action_type))
          FirewallOutcome.action_not_allowed "allowed_action_types"
      ∷ rule (op.frame_targeted && not e.allow_frame_actions) FirewallOutcome.policy_rejected
          "frame_actions"
      ∷ rule (op.frame_targeted && origin == "") FirewallOutcome.policy_rejected "frame_origin"
      ∷ rule (lacks (e.required_authority_by_action op.action_type) e.granted_authorities)
          FirewallOutcome.authority_insufficient "required_authority_by_action"
      ∷ rule (e.deny_untrusted_for_irreversible && irreversible && any is_untrusted op.provenance)
          FirewallOutcome.provenance_policy_rejected "deny_untrusted_for_irreversible"
      ∷ rule (unlisted_secret op.secret_reference e.allowed_secret_references)
          FirewallOutcome.policy_rejected "allowed_secret_references"
      ∷ rule (unlisted_file op.file_paths e.allowed_file_names) FirewallOutcome.policy_rejected
          "allowed_file_names"
      ∷ rule (oversized op.file_paths e.max_upload_bytes) FirewallOutcome.policy_rejected
          "max_upload_bytes"
      ∷ []

  -- `AuthorityFirewall.decide`: the first test that applies returns.
  unfoldable pub decide :
      Operation → AuthorityEnvelope → Option String → Option String → ℕ → ℕ → ℕ → FirewallDecision
  unfolding rules
  decide op e current effective now_ms action_count side_effect_count =
      let first = first_rule (rules op e current effective now_ms action_count side_effect_count) in
      record {
        outcome = first.0;
        policy_id = e.policy_id;
        required_authority = e.required_authority_by_action op.action_type;
        available_authorities = e.granted_authorities;
        rule_matched = first.1;
        origin = effective_origin op current effective;
        action_type = op.action_type;
        input_provenance = op.provenance;
        action_count = action_count;
        side_effect_count = side_effect_count;
      }
