-- ===== src/Session/Firewall.antt =====
-- The firewall before a dispatch (`_governed_action_types`, `_firewall_decision`): every action that
-- a guard could dispatch is decided, with the largest counts that one branch could reach.
use dingdongditch.Prelude.{
  ℕ, suc, ◌+◌, ◌-◌, String, Bool, true, false, Option, none, some, List, [], ◌∷◌, ◌++◌, map, ltb,
  if◌then◌else◌, length, is_empty, count, any,
}
use dingdongditch.Prelude.Equality.{contains}
use dingdongditch.Action.{ActionType, action_eq}
use dingdongditch.Authority.{FirewallDecision, FirewallOutcome, AuthorityEnvelope, decide}
use dingdongditch.Authority
use dingdongditch.ReceiptChain.{Values}
use dingdongditch.Session.{SessionRecord, Host, HostEnvelope, SessionOperation}
use dingdongditch.Session.Program.{Program, ask_many}

abbrev pub is_authorized : FirewallDecision → Bool
is_authorized d = authorizes d.outcome
  where
    authorizes : FirewallOutcome → Bool
    authorizes FirewallOutcome.authorized = true
    authorizes _ = false

abbrev pub concat {ℓ} : {A : Type ℓ} → List (List A) → List A
concat [] = []
concat (xs ∷ rest) = xs ++ concat rest

-- `max(xs, default=0)`
abbrev pub maximum : List ℕ → ℕ
maximum [] = 0
maximum (n ∷ ns) = let rest = maximum ns in if ltb rest n then n else rest

abbrev pub is_irreversible : AuthorityEnvelope → Authority.Operation → Bool
is_irreversible e action = contains e.irreversible_action_types action.action_type

abbrev pub as_count : Bool → ℕ
as_count true = 1
as_count false = 0

unfoldable pub governed_action_types : SessionOperation → List ActionType
governed_action_types op = types op.branching
  where
    types : Option (List (List Authority.Operation)) → List ActionType
    types none = op.outer.action_type ∷ []
    types (some alternatives) =
        map (λ (action : Authority.Operation). action.action_type) (concat alternatives)

-- The operation is declared consequential: one of its actions needs a preparation.
unfoldable pub needs_preparation : HostEnvelope → SessionOperation → Bool
unfolding governed_action_types
needs_preparation e op =
    any (λ action. contains e.require_preparation_for action) (governed_action_types op)

-- The actions to decide, and the largest counts of actions and side effects of a branch
pub record Reservation : Type 0 where
  pub candidates : List Authority.Operation
  pub max_actions : ℕ
  pub max_side_effects : ℕ

unfoldable pub reservation : AuthorityEnvelope → SessionOperation → Reservation
reservation e op = reserve op.branching
  where
    reserve : Option (List (List Authority.Operation)) → Reservation
    reserve none = record {
      candidates = op.outer ∷ [];
      max_actions = 1;
      max_side_effects = as_count (is_irreversible e op.outer);
    }
    reserve (some alternatives) = record {
      candidates = if is_empty (concat alternatives) then op.outer ∷ [] else concat alternatives;
      max_actions = if is_empty (concat alternatives) then 0 else maximum (map length alternatives);
      max_side_effects = maximum (map (count (is_irreversible e)) alternatives);
    }

module _ {values : Values} (host : Host values) where
  open host use {now_ms, scoped_action_url, page_url, readers}

  -- The URL of an action's frame, where the question has an answer that is a text
  abbrev pub scope_url : ℕ → Authority.Operation → String
  scope_url n action = url (scoped_action_url n action)
    where
      url : Option (Option String) → String
      url none = ""
      url (some none) = if action.frame_targeted then "" else page_url n
      url (some (some answer)) = answer

  -- `firewall.decide` of one action
  unfoldable pub decide_action :
      SessionRecord values → HostEnvelope → Reservation → ℕ → Authority.Operation → FirewallDecision
  decide_action s e r n action =
      decide readers action e.policy (some (scope_url n action)) none (now_ms n)
        (s.authority_action_count + (r.max_actions - 1))
        (s.authority_side_effect_count + (r.max_side_effects - 1))

  -- The first decision that rejects, or else the decision of the first action, `d`
  unfoldable pub decide_rest :
      SessionRecord values
      → HostEnvelope
      → Reservation
      → ℕ
      → FirewallDecision
      → List Authority.Operation
      → FirewallDecision
  decide_rest s e r n d [] = d
  decide_rest s e r n d (action ∷ actions) =
      let decision = decide_action s e r n action in
      let rest = decide_rest s e r (suc n) d actions in
      if is_authorized decision then rest else decision

  unfoldable pub decide_all :
      SessionRecord values → HostEnvelope → SessionOperation → ℕ → FirewallDecision
  decide_all s e op n =
      let r = reservation e.policy op in
      decide_rest s e r n (decide_action s e r n (first op.outer r.candidates)) r.candidates
    where
      first : Authority.Operation → List Authority.Operation → Authority.Operation
      first outer [] = outer
      first outer (action ∷ actions) = action

  unfoldable pub firewall_decision :
      SessionRecord values → HostEnvelope → SessionOperation → Program values FirewallDecision
  firewall_decision s e op =
      ask_many (length (reservation e.policy op).candidates) (decide_all s e op)
