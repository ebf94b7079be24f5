-- ===== src/ReceiptChain/Verify/Tests.antt =====
-- A chain of JSON values that a checkpoint covers.
use dingdongditch.Prelude.{String, ◌≡◌, refl, true, [], ◌∷◌}
use native.Mathlib.Decide.{ℕ_discrete}
use dingdongditch.Prelude.Equality.{string_eq}
use dingdongditch.ReceiptChain.{
  chain_receipt, make_receipt_chain_entry, hash_receipt, session_binding_hash,
}
use dingdongditch.ReceiptChain.Verify.{
  ReceiptChainCheckpoint, verify_receipt_chain_against_checkpoint, verify_receipt_hash, chain_step,
  chain_loop, verify_receipt_chain,
}
use dingdongditch.ReceiptChain.Verify.Sealing.{chain_receipt_verifies}
use dingdongditch.ReceiptChain.Verify.Laws.{IsCurrent}
use dingdongditch.ReceiptChain.Verify.Hashes.{SameUpTo}
use dingdongditch.ReceiptChain.Verify.Tamper.{checkpoint_tamper_evident}
use dingdongditch.ReceiptChain.Verify.Json.{
  Json, nothing, word, json, composed, json_lawful, json_free, json_storing, dict_of, get_of,
  Json-discrete,
}

abbrev unsealed : String → Json
unsealed target =
    dict_of (
      ("operation_id", word "op1")
      ∷ ("verdict", word "VERIFIED")
      ∷ ("target_url", word target)
      ∷ [])

abbrev sealed_as : String → Json
sealed_as target = dict_of (
    ("operation_id", word "op1")
    ∷ ("verdict", word "VERIFIED")
    ∷ ("target_url", word target)
    ∷ (
      "receipt_chain",
      make_receipt_chain_entry json (unsealed target) nothing (word "plan") (word "op") (word "s1"),
    )
    ∷ [])

-- Two receipts whose texts differ in their normalization
abbrev sealed : Json
sealed = sealed_as "é"

abbrev decomposed : Json
decomposed = sealed_as "é"

abbrev checkpoint : ReceiptChainCheckpoint json
checkpoint = record {
  session_id = "s1";
  chain_length = 1;
  chain_head_hash = get_of (get_of sealed "receipt_chain") "receipt_hash";
  timestamp_ms = 100;
}

sealed-IsCurrent : IsCurrent json sealed
unfolding make_receipt_chain_entry string_eq
sealed-IsCurrent = refl

sealed_valid : (verify_receipt_chain_against_checkpoint json (sealed ∷ []) checkpoint).valid ≡ true
unfolding verify_receipt_chain_against_checkpoint verify_receipt_chain verify_receipt_hash
    chain_step chain_loop make_receipt_chain_entry hash_receipt session_binding_hash string_eq
    Json-discrete ℕ_discrete
sealed_valid = refl

decomposed-IsCurrent : IsCurrent json decomposed
unfolding make_receipt_chain_entry string_eq
decomposed-IsCurrent = refl

decomposed_valid :
    (verify_receipt_chain_against_checkpoint json (decomposed ∷ []) checkpoint).valid ≡ true
unfolding verify_receipt_chain_against_checkpoint verify_receipt_chain verify_receipt_hash
    chain_step chain_loop make_receipt_chain_entry hash_receipt session_binding_hash string_eq
    Json-discrete ℕ_discrete
decomposed_valid = refl

checkpoint_tamper_evident_example : SameUpTo json 1 (sealed ∷ []) (decomposed ∷ [])
checkpoint_tamper_evident_example =
    checkpoint_tamper_evident json (json_lawful composed) (json_free composed) checkpoint
      (sealed ∷ []) (decomposed ∷ []) (sealed-IsCurrent, tt) (decomposed-IsCurrent, tt) sealed_valid
      decomposed_valid

chain_receipt_verifies_example :
    verify_receipt_hash json
      (chain_receipt json (unsealed "a") nothing (word "plan") (word "op") (word "s1"))
    ≡ true
chain_receipt_verifies_example =
    chain_receipt_verifies json (json_lawful composed) (json_storing composed) (unsealed "a")
      nothing (word "plan") (word "op") (word "s1")
