-- ===== src/Session/Governance.antt =====
-- What a session promises of its tokens, its controllers and its receipts, as a state machine that
-- knows nothing of browsers, clocks, policies and errors; and the view of a session record as a state
-- of it.
use dingdongditch.Prelude.{
  ℕ, suc, ◌+◌, String, ◌≡◌, Option, some, List, [], ◌∷◌, ◌++◌, map, if◌then◌else◌,
}
use dingdongditch.Prelude.Equality.{◌==◌}
use dingdongditch.ReceiptChain.{Values, chain_receipt}
use dingdongditch.Session.{
  SessionRecord, Host, PreparationStatus, prepared, committed, invalidated, preparation_status_eq,
  PreparedRecord, PendingHandoff,
}
use dingdongditch.Session.Program.{lookup, adjust}
use dingdongditch.Session.Dispatch.{or_null}
use dingdongditch.Session.Transaction.{put}

abbrev pub status_of : String × PreparedRecord → String × PreparationStatus
status_of entry = (entry.0, entry.1.shown.status)

abbrev pub epoch_of : String × PendingHandoff → String × ℕ
epoch_of entry = (entry.0, entry.1.checkpoint.control_epoch)

abbrev pub void : PreparationStatus → PreparationStatus
void status = if status == prepared then invalidated else status

abbrev pub void_all : List (String × PreparationStatus) → List (String × PreparationStatus)
void_all = map (λ entry. (entry.0, void entry.1))

module _ {values : Values} (host : Host values) where
  open values use {Value, null, text, get}
  open host use {token_urlsafe}

  -- The status of each prepared token, the controller and its lease, the epoch at which each pending
  -- offer was made, the receipts, and the number of answers that the outside has given
  pub record Governance : Type 0 where
    pub session : String
    pub statuses : List (String × PreparationStatus)
    pub controller : Option String
    pub epoch : ℕ
    pub lease : Option String
    pub offers : List (String × ℕ)
    pub chain : List Value
    pub head : Option Value
    pub drawn : ℕ

  abbrev pub governance : SessionRecord values → Governance
  governance s = record {
    session = s.session_id;
    statuses = map status_of s.preparations;
    controller = s.agent_id;
    epoch = s.control_epoch;
    lease = s.control_token;
    offers = map epoch_of s.pending_handoffs;
    chain = s.receipt_chain;
    head = s.receipt_chain_head;
    drawn = s.answered;
  }

  abbrev pub hash_of : Value → Value
  hash_of receipt = get (get receipt "receipt_chain") "receipt_hash"

  -- A token is prepared once, with a new name; it is voided or consumed while it is prepared; an
  -- offer is made for the present epoch, in place of all others; a claim takes an offer of the present
  -- epoch and ends it; a receipt is chained to the one before.
  pub data Step : Governance → Governance → Type 0 where
    answers : {g : Governance} (n : ℕ) → Step g (record g { drawn = n + g.drawn })
    prepares :
        {g : Governance} (n : ℕ)
        → Step g (record g {
          statuses = put (token_urlsafe g.drawn) prepared g.statuses;
          drawn = n + (1 + g.drawn);
        })
    voids :
        {g : Governance} (token : String)
        → lookup token g.statuses ≡ some prepared
        → Step g (record g { statuses = adjust token (λ _. invalidated) g.statuses })
    voids_all : {g : Governance} → Step g (record g { statuses = void_all g.statuses })
    consumes :
        {g : Governance} (token : String)
        → lookup token g.statuses ≡ some prepared
        → Step g (record g { statuses = adjust token (λ _. committed) g.statuses })
    offers_control :
        {g : Governance} (n : ℕ)
        → Step g
            (record g { offers = (token_urlsafe g.drawn, g.epoch) ∷ []; drawn = n + (1 + g.drawn) })
    claims :
        {g : Governance} (offered agent : String)
        → lookup offered g.offers ≡ some g.epoch
        → Step g (record g {
          controller = some agent;
          epoch = suc g.epoch;
          lease = some (token_urlsafe g.drawn);
          offers = [];
          drawn = 1 + g.drawn;
        })
    seals :
        {g : Governance} (receipt operation : Value)
        → Step g (record g {
          chain =
              g.chain
              ++ chain_receipt values receipt (or_null host g.head) null operation (text g.session)
                ∷ [];
          head = some (
              hash_of (
                chain_receipt values receipt
                  (or_null host g.head)
                  null
                  operation
                  (text g.session)));
        })

  infixr 6 ◌▸◌
  pub data Steps : Governance → Governance → Type 0 where
    stays : {g : Governance} → Steps g g
    ◌▸◌ : {f g h : Governance} → Step f g → Steps g h → Steps f h

  pub Steps-trans : {f g h : Governance} → Steps f g → Steps g h → Steps f h
  Steps-trans stays q = q
  Steps-trans (p ▸ ps) q = p ▸ Steps-trans ps q
