-- ===== src/Authority/Rules.antt =====
-- What an envelope allows (AuthorityEnvelope in dingdongditch/contract/authority.py), without
-- the order of the tests of the firewall.
use dingdongditch.Prelude.{
  ℕ, ◌≤◌, ◌<◌, ◌≡◌, ◌≢◌, String, true, false, Option, none, some, List, [], ◌∷◌, any, All, ◌⊎◌,
}
use dingdongditch.Prelude.Equality.{contains, string_eq}
use dingdongditch.Action.{action_eq}
use dingdongditch.Authority.{
  ProvenanceClass, provenance_eq, AuthorityEnvelope, Operation, Readers, effective_origin,
  is_privileged, is_untrusted, total_size,
}

-- No limit, or a limit above `n`.
abbrev pub Below : ℕ → Option ℕ → Type 0
Below n none = Unit
Below n (some limit) = n < limit

-- The list does not restrict, or it lists the value.
abbrev pub Listed {ℓ} : {A : Type ℓ} → Type 0 → List A → Type 0
Listed member [] = Unit
Listed member (x ∷ xs) = member

abbrev pub Granted : Option ProvenanceClass → List ProvenanceClass → Type 0
Granted none granted = Unit
Granted (some required) granted = contains granted required ≡ true

abbrev pub SecretAllowed : Option String → List String → Type 0
SecretAllowed none allowed = Unit
SecretAllowed (some reference) allowed = Listed (contains allowed reference ≡ true) allowed

module _ (readers : Readers) where
  open readers use {matches_origin, file_name}

  -- The names of the files are listed, if the envelope lists names.
  abbrev pub FilesAllowed : Option (List String) → List String → Type 0
  FilesAllowed none allowed = Unit
  FilesAllowed (some files) allowed =
      Listed (All (λ path. contains allowed (file_name path) ≡ true) files) allowed

  -- The sizes of all files are known and their sum is within the limit, if there is one.
  abbrev pub SizesAllowed : Option (List String) → Option ℕ → Type 0
  SizesAllowed none limit = Unit
  SizesAllowed (some files) none = Unit
  SizesAllowed (some files) (some limit) =
      (total : ℕ) × (total_size readers files ≡ some total) × (total ≤ limit)

  module _ (op : Operation) (e : AuthorityEnvelope) (current effective : Option String) where
    abbrev pub origin : String
    origin = effective_origin readers op current effective

    pub record Allowed (now_ms action_count side_effect_count : ℕ) : Type 0 where
      pub not_expired : Below now_ms e.expires_at_ms
      pub unprivileged : any is_privileged op.provenance ≡ false
      pub has_origin : origin ≢ ""
      pub actions_left : Below action_count e.max_action_count
      pub side_effects_left :
          contains e.irreversible_action_types op.action_type ≡ true
          → Below side_effect_count e.max_side_effect_count
      pub origin_not_denied :
          (e.denied_origins ≡ []) ⊎ (matches_origin origin e.denied_origins ≡ false)
      pub origin_listed : Listed (matches_origin origin e.allowed_origins ≡ true) e.allowed_origins
      pub action_not_denied : contains e.denied_action_types op.action_type ≡ false
      pub action_listed :
          Listed (contains e.allowed_action_types op.action_type ≡ true) e.allowed_action_types
      pub frames : op.frame_targeted ≡ true → e.allow_frame_actions ≡ true
      pub authority : Granted (e.required_authority_by_action op.action_type) e.granted_authorities
      pub trusted :
          e.deny_untrusted_for_irreversible ≡ true
          → contains e.irreversible_action_types op.action_type ≡ true
          → any is_untrusted op.provenance ≡ false
      pub secret : SecretAllowed op.secret_reference e.allowed_secret_references
      pub files : FilesAllowed op.file_paths e.allowed_file_names
      pub sizes : SizesAllowed op.file_paths e.max_upload_bytes
