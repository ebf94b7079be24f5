-- ===== src/ReceiptChain/Verify.antt =====
-- The verification of a receipt, of a chain, and of a chain against a checkpoint
-- (`verify_receipt_hash`, `verify_receipt_chain`, `make_receipt_chain_checkpoint` and
-- `verify_receipt_chain_against_checkpoint` in dingdongditch/contract/receipt_chain.py). The messages
-- with which a checkpoint is refused are one here.
pub mod Laws
pub mod Hashes
pub mod Tamper
pub mod Sealing
pub mod Json
mod Tests
use dingdongditch.Prelude.{
  ℕ, zero, suc, ◌+◌, String, Bool, true, false, not, ◌&&◌, ◌||◌, Option, none, some, List, [], ◌∷◌,
  ◌++◌, if◌then◌else◌, length, is_empty, any, ltb, nat_beq,
}
use dingdongditch.Prelude.Equality.{Eq, ◌==◌, string_eq}
use dingdongditch.Prelude.Raise.{Result, ok, raised, raise_if, ◌>>=◌, ◌>>◌}
use dingdongditch.ReceiptChain.{Values, or_empty, make_receipt_chain_entry}
use dingdongditch.ReceiptChain.Legacy.{make_receipt_chain_entry_v1, make_receipt_chain_entry_v2}

-- What is wrong with a chain, with the index of the receipt.
pub data Reason : Type 0 where
  no_entry previous_mismatch hash_mismatch : ℕ → Reason
  binding_invalid binding_mismatch session_mismatch : ℕ → Reason
  shorter_than_checkpoint head_mismatch invalid_checkpoint : Reason

module _ (values : Values) where
  open values use {Value, equals, null, text, get, is_mapping, is_text, truthy, text_length}

  abbrev pub same : Value → Value → Bool
  same a b = equals a b

  pub record ReceiptChainVerification : Type 0 where
    pub valid : Bool
    pub head : Value
    pub reasons : List Reason

  pub record ReceiptChainCheckpoint : Type 0 where
    pub session_id : String
    pub chain_length : ℕ
    pub chain_head_hash : Value
    pub timestamp_ms : ℕ

  abbrev pub entry_of : Value → Value
  entry_of raw = get raw "receipt_chain"

  -- The entry that the maker of the entry's version gives, from the hashes that the entry names.
  abbrev pub expected_current : Value → Value
  expected_current raw =
      let entry = entry_of raw in
      make_receipt_chain_entry values raw (get entry "previous_receipt_hash")
        (get entry "execution_plan_hash") (get entry "operation_hash") (get entry "session_id")

  expected_v1 : Value → Value
  expected_v1 raw =
      let entry = entry_of raw in
      make_receipt_chain_entry_v1 values raw (get entry "previous_receipt_hash")
        (get entry "execution_plan_hash") (get entry "operation_hash")

  expected_v2 : Value → Value
  expected_v2 raw =
      let entry = entry_of raw in
      make_receipt_chain_entry_v2 values raw (get entry "previous_receipt_hash")
        (get entry "execution_plan_hash") (get entry "operation_hash")

  pub verify_receipt_hash : Value → Bool
  unfolding expected_v1 expected_v2
  verify_receipt_hash raw =
      let version = get (entry_of raw) "chain_version" in
      if not (is_mapping (entry_of raw))
      then false
      else if same version (text "1")
      then same (entry_of raw) (expected_v1 raw)
      else if same version (text "2")
      then same (entry_of raw) (expected_v2 raw)
      else if same version (text "3")
      then same (entry_of raw) (expected_current raw)
      else false

  -- The locals of the loop in `verify_receipt_chain`.
  pub record ChainState : Type 0 where
    pub previous : Value
    pub session_binding : Value
    pub reasons : List Reason

  abbrev reason_if : Bool → Reason → List Reason
  reason_if b reason = if b then reason ∷ [] else []

  abbrev binding_reasons : ℕ → Value → Value → List Reason
  binding_reasons i binding session_binding =
      if same binding null
      then []
      else if not (is_text binding) || not (truthy binding)
      then binding_invalid i ∷ []
      else if same session_binding null
      then []
      else reason_if (not (same binding session_binding)) (binding_mismatch i)

  abbrev binding_after : Value → Value → Value
  binding_after binding session_binding =
      if not (same binding null) && is_text binding && truthy binding && same session_binding null
      then binding
      else session_binding

  -- What one round appends to the reasons, for a receipt that has an entry.
  abbrev pub new_reasons : ℕ → Value → ChainState → List Reason
  new_reasons i raw s =
      let entry = entry_of raw in
      reason_if (not (same (get entry "previous_receipt_hash") s.previous)) (previous_mismatch i)
      ++ reason_if (not (verify_receipt_hash raw)) (hash_mismatch i)
      ++ binding_reasons i (get entry "session_binding_hash") s.session_binding

  abbrev pub check_entry : ℕ → Value → ChainState → ChainState
  check_entry i raw s =
      let entry = entry_of raw in
      record {
        previous =
            (if is_text (get entry "receipt_hash") then get entry "receipt_hash" else s.previous);
        session_binding = binding_after (get entry "session_binding_hash") s.session_binding;
        reasons = s.reasons ++ new_reasons i raw s;
      }

  pub chain_step : Bool → ℕ → Value → ChainState → ChainState
  chain_step allow_legacy i raw s =
      if is_mapping (entry_of raw)
      then check_entry i raw s
      else if allow_legacy
      then s
      else record s { reasons = s.reasons ++ no_entry i ∷ [] }

  pub chain_loop : Bool → ℕ → List Value → ChainState → ChainState
  chain_loop allow_legacy i [] s = s
  chain_loop allow_legacy i (raw ∷ receipts) s =
      chain_loop allow_legacy (i + 1) receipts (chain_step allow_legacy i raw s)

  abbrev pub first_state : ChainState
  first_state = record { previous = null; session_binding = null; reasons = [] }

  pub verify_receipt_chain : List Value → Bool → ReceiptChainVerification
  verify_receipt_chain receipts allow_legacy =
      let s = chain_loop allow_legacy 0 receipts first_state in
      record { valid = is_empty s.reasons; head = s.previous; reasons = s.reasons }

  -- `ReceiptChainCheckpoint.validate`
  pub checkpoint_valid : ReceiptChainCheckpoint → Bool
  checkpoint_valid c =
      not (c.session_id == "")
      && (if nat_beq c.chain_length 0
          then same c.chain_head_hash null
          else is_text c.chain_head_hash && nat_beq (text_length c.chain_head_hash) 64)

  -- The receipt is of the current version and of another session.
  abbrev pub other_session : String → Value → Bool
  other_session session_id raw =
      let entry = or_empty values (entry_of raw) in
      same (get entry "chain_version") (text "3")
      && not (same (get entry "session_id") (text session_id))

  pub make_receipt_chain_checkpoint : List Value → String → ℕ → Result ReceiptChainCheckpoint
  unfolding verify_receipt_chain checkpoint_valid
  make_receipt_chain_checkpoint receipts session_id timestamp_ms = do
    let verified = verify_receipt_chain receipts false
    let checkpoint : ReceiptChainCheckpoint = record {
      session_id = session_id;
      chain_length = length receipts;
      chain_head_hash = verified.head;
      timestamp_ms = timestamp_ms;
    }
    raise_if (not verified.valid) "cannot checkpoint an invalid receipt chain"
    raise_if (not (checkpoint_valid checkpoint)) "receipt checkpoint is invalid"
    raise_if (any (other_session session_id) receipts)
        "receipt chain session does not match checkpoint session"
    ok checkpoint

  -- `items[n - 1]`, for a positive `n` that is no larger than the length
  abbrev pub nth_receipt : ℕ → List Value → Option Value
  nth_receipt n [] = none
  nth_receipt zero (raw ∷ receipts) = none
  nth_receipt (suc zero) (raw ∷ receipts) = some raw
  nth_receipt (suc (suc n)) (raw ∷ receipts) = nth_receipt (suc n) receipts

  prefix_reasons : List Value → ReceiptChainCheckpoint → List Reason
  prefix_reasons receipts c =
      if ltb (length receipts) c.chain_length
      then shorter_than_checkpoint ∷ []
      else elim (nth_receipt c.chain_length receipts) [
        | none ↦ []
        | some raw ↦
            reason_if
              (not (same (get (or_empty values (entry_of raw)) "receipt_hash") c.chain_head_hash))
              head_mismatch
      ]

  session_reasons : ℕ → String → List Value → List Reason
  session_reasons i session_id [] = []
  session_reasons i session_id (raw ∷ receipts) =
      reason_if (other_session session_id raw) (session_mismatch i)
      ++ session_reasons (i + 1) session_id receipts

  pub verify_receipt_chain_against_checkpoint :
      List Value → ReceiptChainCheckpoint → ReceiptChainVerification
  unfolding verify_receipt_chain checkpoint_valid prefix_reasons session_reasons
  verify_receipt_chain_against_checkpoint receipts c =
      if not (checkpoint_valid c)
      then record { valid = false; head = null; reasons = invalid_checkpoint ∷ [] }
      else let verified = verify_receipt_chain receipts false in
        let reasons =
          verified.reasons
          ++ prefix_reasons receipts c
          ++ session_reasons 0 c.session_id receipts in
        record { valid = is_empty reasons; head = verified.head; reasons = reasons }
