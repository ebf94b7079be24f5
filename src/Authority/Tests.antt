-- ===== src/Authority/Tests.antt =====
-- An envelope that restricts a purchase, and an operation within it.
use dingdongditch.Prelude.{◌≡◌, ◌↔◌, refl, arith, true, false, none, some, List, [], ◌∷◌, any}
use dingdongditch.Prelude.Equality.{contains, is_distinct, string_eq}
use dingdongditch.Action.{click, navigate, fill, action_eq, ActionType-discrete}
use dingdongditch.Authority.{
  ProvenanceClass, provenance_eq, ProvenanceClass-discrete, FirewallOutcome, AuthorityEnvelope,
  Operation, Readers, decide, merge_provenance, first_rule,
}
use dingdongditch.Authority.Rules.{Allowed}
use dingdongditch.Authority.Firewall.{decide-authorized, authorized_earlier}
use dingdongditch.Authority.Provenance.{merge_provenance_labels}

-- Every URL is an origin, and an origin matches the patterns that spell it.
abbrev plain : Readers
plain = record {
  origin_of = λ url. url;
  matches_origin = λ origin patterns. contains patterns origin;
  file_name = λ path. path;
  file_size = λ path. some 100;
}

abbrev buy : Operation
buy = record {
  url = "https://shop.test";
  action_type = click;
  provenance = ProvenanceClass.agent_reasoning ∷ [];
  frame_targeted = false;
  secret_reference = none;
  file_paths = none;
}

abbrev envelope : AuthorityEnvelope
envelope = record {
  policy_id = "p1";
  granted_authorities = ProvenanceClass.user_authority ∷ [];
  allowed_origins = "https://shop.test" ∷ [];
  denied_origins = [];
  allowed_action_types = navigate ∷ click ∷ [];
  denied_action_types = fill ∷ [];
  allowed_file_names = [];
  allowed_secret_references = [];
  max_upload_bytes = none;
  irreversible_action_types = click ∷ [];
  required_authority_by_action = λ a. some ProvenanceClass.user_authority;
  expires_at_ms = some 1000;
  max_action_count = some 10;
  max_side_effect_count = some 1;
  deny_untrusted_for_irreversible = true;
  allow_frame_actions = false;
}

buy_authorized : (decide plain buy envelope none none 900 3 0).outcome ≡ FirewallOutcome.authorized
unfolding decide first_rule string_eq action_eq ActionType-discrete provenance_eq
    ProvenanceClass-discrete
buy_authorized = refl

decide-authorized_example :
    ((decide plain buy envelope none none 900 3 0).outcome ≡ FirewallOutcome.authorized)
    ↔ Allowed plain buy envelope none none 900 3 0
decide-authorized_example = decide-authorized plain buy envelope none none 900 3 0

authorized_earlier_example :
    (decide plain buy envelope none none 500 1 0).outcome ≡ FirewallOutcome.authorized
authorized_earlier_example =
    authorized_earlier plain buy envelope none none 900 500 3 1 0 0 (omega arith) (omega arith)
      (omega arith) buy_authorized

abbrev sources : List (List ProvenanceClass)
sources =
    (ProvenanceClass.user_authority ∷ ProvenanceClass.web_untrusted ∷ [])
    ∷ (ProvenanceClass.web_untrusted ∷ [])
    ∷ []

merge_provenance_labels_example :
    ((a : ProvenanceClass)
      → contains (merge_provenance sources) a ≡ any (λ g. contains g a) sources)
    × (is_distinct (merge_provenance sources) ≡ true)
merge_provenance_labels_example = merge_provenance_labels sources
