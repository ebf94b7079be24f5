-- ===== src/Authority/Firewall.antt =====
-- About `AuthorityFirewall.decide` (dingdongditch/contract/authority.py).
use dingdongditch.Prelude.{
  ℕ, ◌≤◌, ◌≡◌, ◌≢◌, ◌↔◌, refl, String, Bool, true, false, not, ◌&&◌, Option, none, some, List, [],
  ◌∷◌, is_empty, any, arith, All, ◌⊎◌, inl,
}
use dingdongditch.Prelude.Equality.{contains, string_eq}
use dingdongditch.Action.{action_eq}
use dingdongditch.Authority.{
  ProvenanceClass, provenance_eq, FirewallOutcome, AuthorityEnvelope, Operation, Readers, Rule,
  first_rule, rules, decide, reached, lacks, unlisted_secret, unlisted_file, oversized, total_size,
  exceeds,
}
use dingdongditch.Authority.Rules.{
  Below, Listed, Granted, SecretAllowed, FilesAllowed, SizesAllowed, Allowed,
}

-- No rule applies.
infixr 20 ◌▸◌
data Quiet : List Rule → Type 0 where
  silent : Quiet []
  ◌▸◌ : {r : Rule} {rs : List Rule} → r.applies ≡ false → Quiet rs → Quiet (r ∷ rs)

abbrev Rejecting : List Rule → Type 0
Rejecting = All (λ r. r.outcome ≢ FirewallOutcome.authorized)

first_rule-Quiet :
    (rs : List Rule) → Rejecting rs → ((first_rule rs).0 ≡ FirewallOutcome.authorized) ↔ Quiet rs
unfolding first_rule
first_rule-Quiet [] h = (λ e. silent, λ q. refl)
first_rule-Quiet (r ∷ rs) h =
    let rest = first_rule-Quiet rs h.1 in
    (
      λ e. ground (arith, h.0) ▸ rest.0 (ground (arith, h.0)),
      λ q. elim q [ quiet ▸ others ↦ ground (arith, rest.1 others) ],
    )

reached-Below : (limit : Option ℕ) (n : ℕ) → (reached limit n ≡ false) ↔ Below n limit
reached-Below none n = ground arith
reached-Below (some limit) n = ground arith

unlisted-Listed {ℓ} :
    {A : Type ℓ} (xs : List A) (member : Bool)
    → ((not (is_empty xs) && not member) ≡ false) ↔ Listed (member ≡ true) xs
unlisted-Listed [] member = ground arith
unlisted-Listed (x ∷ xs) member = ground arith

denied-or {ℓ} :
    {A : Type ℓ} (xs : List A) (member : Bool)
    → ((not (is_empty xs) && member) ≡ false) ↔ ((xs ≡ []) ⊎ (member ≡ false))
denied-or [] member = (λ h. inl refl, λ h. refl)
denied-or (x ∷ xs) member = ground arith

lacks-Granted :
    (required : Option ProvenanceClass) (granted : List ProvenanceClass)
    → (lacks required granted ≡ false) ↔ Granted required granted
lacks-Granted none granted = ground arith
lacks-Granted (some required) granted = ground arith

unlisted_secret-Allowed :
    (secret : Option String) (allowed : List String)
    → (unlisted_secret secret allowed ≡ false) ↔ SecretAllowed secret allowed
unlisted_secret-Allowed none allowed = ground arith
unlisted_secret-Allowed (some s) allowed = unlisted-Listed allowed (contains allowed s)

module _ (readers : Readers) where
  open readers use {file_name}

  All-listed :
      (allowed files : List String)
      → (any (λ path. not (contains allowed (file_name path))) files ≡ false)
        ↔ All (λ path. contains allowed (file_name path) ≡ true) files
  All-listed allowed [] = ground arith
  All-listed allowed (path ∷ files) = ground (arith, All-listed allowed files)

  unlisted_file-Allowed :
      (paths : Option (List String)) (allowed : List String)
      → (unlisted_file readers paths allowed ≡ false) ↔ FilesAllowed readers paths allowed
  unlisted_file-Allowed none allowed = ground arith
  unlisted_file-Allowed (some files) [] = ground arith
  unlisted_file-Allowed (some files) (a ∷ allowed) = All-listed (a ∷ allowed) files

  exceeds-total :
      (total : Option ℕ) (limit : ℕ)
      → (exceeds total limit ≡ false) ↔ ((n : ℕ) × (total ≡ some n) × (n ≤ limit))
  exceeds-total none limit = (λ h. cc, λ (n, e, le). cc)
  exceeds-total (some n) limit = (λ h. (n, refl, ground arith), λ (m, e, le). ground arith)

  oversized-Allowed :
      (paths : Option (List String)) (limit : Option ℕ)
      → (oversized readers paths limit ≡ false) ↔ SizesAllowed readers paths limit
  oversized-Allowed none limit = ground arith
  oversized-Allowed (some files) none = ground arith
  oversized-Allowed (some files) (some limit) = exceeds-total (total_size readers files) limit

  module _ (op : Operation) (e : AuthorityEnvelope) (current effective : Option String)
      (now_ms action_count side_effect_count : ℕ) where
    abbrev tests : List Rule
    tests = rules readers op e current effective now_ms action_count side_effect_count

    rules-Rejecting : Rejecting tests
    unfolding rules
    rules-Rejecting = ground arith

    rules-Allowed :
        Quiet tests → Allowed readers op e current effective now_ms action_count side_effect_count
    unfolding rules
    rules-Allowed
          (q1 ▸ q2 ▸ q3 ▸ q4 ▸ q5 ▸ q6 ▸ q7 ▸ q8 ▸ q9 ▸ q10 ▸ q11 ▸ q12 ▸ q13 ▸ q14 ▸ q15 ▸ q16
            ▸ silent) =
        record {
          not_expired = (reached-Below e.expires_at_ms now_ms).0 q1;
          unprivileged = q2;
          has_origin = ground arith;
          actions_left = (reached-Below e.max_action_count action_count).0 q4;
          side_effects_left = λ irreversible.
              (reached-Below e.max_side_effect_count side_effect_count).0 (ground arith);
          origin_not_denied = (denied-or e.denied_origins _).0 q6;
          origin_listed = (unlisted-Listed e.allowed_origins _).0 q7;
          action_not_denied = q8;
          action_listed = (unlisted-Listed e.allowed_action_types _).0 q9;
          frames = λ targeted. ground arith;
          authority = (lacks-Granted _ e.granted_authorities).0 q12;
          trusted = λ deny irreversible. ground arith;
          secret = (unlisted_secret-Allowed op.secret_reference e.allowed_secret_references).0 q14;
          files = (unlisted_file-Allowed op.file_paths e.allowed_file_names).0 q15;
          sizes = (oversized-Allowed op.file_paths e.max_upload_bytes).0 q16;
        }

    Allowed-rules :
        Allowed readers op e current effective now_ms action_count side_effect_count → Quiet tests
    unfolding rules
    Allowed-rules a =
        (reached-Below e.expires_at_ms now_ms).1 a.not_expired
        ▸ a.unprivileged
        ▸ ground (arith, a.has_origin)
        ▸ (reached-Below e.max_action_count action_count).1 a.actions_left
        ▸ ground (
          arith,
          (reached-Below e.max_side_effect_count side_effect_count).1,
          a.side_effects_left,
        )
        ▸ (denied-or e.denied_origins _).1 a.origin_not_denied
        ▸ (unlisted-Listed e.allowed_origins _).1 a.origin_listed
        ▸ a.action_not_denied
        ▸ (unlisted-Listed e.allowed_action_types _).1 a.action_listed
        ▸ ground (arith, a.frames)
        ▸ ground (arith, a.has_origin)
        ▸ (lacks-Granted _ e.granted_authorities).1 a.authority
        ▸ ground (arith, a.trusted)
        ▸ (unlisted_secret-Allowed op.secret_reference e.allowed_secret_references).1 a.secret
        ▸ (unlisted_file-Allowed op.file_paths e.allowed_file_names).1 a.files
        ▸ (oversized-Allowed op.file_paths e.max_upload_bytes).1 a.sizes
        ▸ silent

    -- The firewall authorizes an operation exactly when the envelope has not expired, the operation
    -- claims no privileged provenance and has an http(s) origin, both budgets have room (the one for
    -- side effects where the action is irreversible), origin and action are neither denied nor off a
    -- list that restricts them, frames are allowed where it targets one, the required authority is
    -- granted, no untrusted provenance stands behind an irreversible action that forbids it, and its
    -- secret and its files are allowed, with known sizes where the sizes are limited.
    pub decide-authorized :
        ((decide readers op e current effective now_ms action_count side_effect_count).outcome
          ≡ FirewallOutcome.authorized)
        ↔ Allowed readers op e current effective now_ms action_count side_effect_count
    unfolding decide
    decide-authorized =
        let quiet = first_rule-Quiet tests rules-Rejecting in
        ((λ h. rules-Allowed (quiet.0 h)), (λ a. quiet.1 (Allowed-rules a)))

Below-mono : (a b : ℕ) (limit : Option ℕ) → a ≤ b → Below b limit → Below a limit
Below-mono a b none le h = tt
Below-mono a b (some limit) le h = omega arith

-- Authority only runs out: an operation that is authorized at some time, after some actions and
-- side effects, is authorized at every earlier time, after fewer of them.
pub authorized_earlier :
    (readers : Readers) (op : Operation) (e : AuthorityEnvelope) (current effective : Option String)
    (now now' actions actions' effects effects' : ℕ)
    → now' ≤ now
    → actions' ≤ actions
    → effects' ≤ effects
    → (decide readers op e current effective now actions effects).outcome
      ≡ FirewallOutcome.authorized
    → (decide readers op e current effective now' actions' effects').outcome
      ≡ FirewallOutcome.authorized
authorized_earlier readers op e current effective now now' actions actions' effects effects' t a s
      h =
    let allowed = (decide-authorized readers op e current effective now actions effects).0 h in
    (decide-authorized readers op e current effective now' actions' effects').1 (record {
      not_expired = Below-mono now' now e.expires_at_ms t allowed.not_expired;
      unprivileged = allowed.unprivileged;
      has_origin = allowed.has_origin;
      actions_left = Below-mono actions' actions e.max_action_count a allowed.actions_left;
      side_effects_left = λ irreversible.
          Below-mono effects' effects e.max_side_effect_count s
            (allowed.side_effects_left irreversible);
      origin_not_denied = allowed.origin_not_denied;
      origin_listed = allowed.origin_listed;
      action_not_denied = allowed.action_not_denied;
      action_listed = allowed.action_listed;
      frames = allowed.frames;
      authority = allowed.authority;
      trusted = allowed.trusted;
      secret = allowed.secret;
      files = allowed.files;
      sizes = allowed.sizes;
    })
