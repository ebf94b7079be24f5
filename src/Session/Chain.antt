-- ===== src/Session/Chain.antt =====
-- The receipts of a session: each is sealed and chained to the one before it.
use mathlib.Core.Path.{subst}
use dingdongditch.Prelude.{◌≡◌, refl, sym, ap, ◌∙◌, true, none, List, [], ◌∷◌, ◌++◌}
use dingdongditch.ReceiptChain.{Values, chain_receipt}
use dingdongditch.ReceiptChain.Verify.{entry_of, verify_receipt_hash}
use dingdongditch.ReceiptChain.Verify.Laws.{Lawful}
use dingdongditch.ReceiptChain.Verify.Sealing.{
  Storing, chain_receipt_verifies, sealed_previous, sealed_session,
}
use dingdongditch.Session.{SessionRecord, Host}
use dingdongditch.Session.Dispatch.{or_null}
use dingdongditch.Session.Governance.{
  Governance, governance, hash_of, Step, answers, prepares, voids, voids_all, consumes,
  offers_control, claims, seals, Steps, stays, ◌▸◌,
}
use dingdongditch.Session.Calls.{Call, run}
use dingdongditch.Session.Calls.Refinement.{run-Steps}

module _ {values : Values} (host : Host values) where
  open values use {Value, null, text, get}

  -- The receipt is of a session, chained to a hash, and its own hash verifies.
  pub record IsSealed (session previous receipt : Value) : Type 0 where
    pub verifies : verify_receipt_hash values receipt ≡ true
    pub names_previous : get (entry_of values receipt) "previous_receipt_hash" ≡ previous
    pub names_session : get (entry_of values receipt) "session_id" ≡ session

  infixr 6 ◌▹◌
  -- The receipts, chained from a hash on
  pub data Linked (session : Value) : Value → List Value → Type 0 where
    ends : {previous : Value} → Linked session previous []
    ◌▹◌ :
        {previous receipt : Value} {receipts : List Value}
        → IsSealed session previous receipt
        → Linked session (hash_of host receipt) receipts
        → Linked session previous (receipt ∷ receipts)

  pub last_hash : Value → List Value → Value
  last_hash previous [] = previous
  last_hash previous (receipt ∷ receipts) = last_hash (hash_of host receipt) receipts

  Linked-snoc :
      (session previous : Value) (receipts : List Value) (receipt : Value)
      → Linked session previous receipts
      → IsSealed session (last_hash previous receipts) receipt
      → Linked session previous (receipts ++ receipt ∷ [])
  unfolding last_hash
  Linked-snoc session previous [] receipt l is = is ▹ ends
  Linked-snoc session previous (r ∷ receipts) receipt (first ▹ l) is =
      first ▹ Linked-snoc session (hash_of host r) receipts receipt l is

  last_hash-snoc :
      (previous : Value) (receipts : List Value) (receipt : Value)
      → last_hash previous (receipts ++ receipt ∷ []) ≡ hash_of host receipt
  unfolding last_hash
  last_hash-snoc previous [] receipt = refl
  last_hash-snoc previous (r ∷ receipts) receipt = last_hash-snoc (hash_of host r) receipts receipt

  -- The chain is linked from nothing, and the head is its last hash.
  pub record WellChained (g : Governance host) : Type 0 where
    pub linked : Linked (text g.session) null g.chain
    pub head_last : or_null host g.head ≡ last_hash null g.chain

  module _ (lawful : Lawful values) (storing : Storing values) where
    sealed :
        (receipt previous operation session : Value)
        → IsSealed session previous (chain_receipt values receipt previous null operation session)
    sealed receipt previous operation session = record {
      verifies =
          chain_receipt_verifies values lawful storing receipt previous null operation session;
      names_previous =
          sealed_previous values lawful storing receipt previous null operation session;
      names_session = sealed_session values lawful storing receipt previous null operation session;
    }

    Step-WellChained : {g h : Governance host} → Step host g h → WellChained g → WellChained h
    Step-WellChained (answers n) w = record { linked = w.linked; head_last = w.head_last }
    Step-WellChained (prepares n) w = record { linked = w.linked; head_last = w.head_last }
    Step-WellChained (voids token held) w = record { linked = w.linked; head_last = w.head_last }
    Step-WellChained voids_all w = record { linked = w.linked; head_last = w.head_last }
    Step-WellChained (consumes token held) w = record { linked = w.linked; head_last = w.head_last }
    Step-WellChained (offers_control n) w = record { linked = w.linked; head_last = w.head_last }
    Step-WellChained (claims offered agent there) w = record {
      linked = w.linked;
      head_last = w.head_last;
    }
    Step-WellChained {g = g} (seals receipt operation) w = record {
      linked =
          Linked-snoc (text g.session) null g.chain _ w.linked (
            rw (sym w.head_last) (sealed receipt (or_null host g.head) operation (text g.session)));
      head_last = sym (last_hash-snoc null g.chain _);
    }

    Steps-WellChained : {g h : Governance host} → Steps host g h → WellChained g → WellChained h
    Steps-WellChained stays w = w
    Steps-WellChained (p ▸ ps) w = Steps-WellChained ps (Step-WellChained p w)

    -- The receipts of a session are one chain: whatever calls are made of a session that starts with
    -- no receipts, every receipt verifies, names the session, and names the hash of the receipt before
    -- it. This supposes that values obey the laws of `Lawful` and `Storing`.
    pub session_chain-Linked :
        (calls : List Call) (s : SessionRecord values)
        → s.receipt_chain ≡ []
        → s.receipt_chain_head ≡ none
        → Linked
            (text (((run host calls s).1).session_id))
            null
            (((run host calls s).1).receipt_chain)
    unfolding last_hash
    session_chain-Linked calls s no_receipts no_head =
        (Steps-WellChained (run-Steps host calls s) (start s no_receipts no_head)).linked
      where
        start :
            (r : SessionRecord values)
            → r.receipt_chain ≡ []
            → r.receipt_chain_head ≡ none
            → WellChained (governance host r)
        start r h1 h2 = record {
          linked = subst (Linked (text r.session_id) null) (sym h1) ends;
          head_last = ap (or_null host) h2 ∙ sym (ap (last_hash null) h1);
        }
