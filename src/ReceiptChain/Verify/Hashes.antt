-- ===== src/ReceiptChain/Verify/Hashes.antt =====
-- About receipts of one hash (dingdongditch/contract/receipt_chain.py).
use dingdongditch.Prelude.{
  ℕ, zero, suc, ◌≡◌, ◌≢◌, refl, sym, ap, ◌∙◌, String, true, some, List, [], ◌∷◌, ◌++◌, arith, map,
}
use text.Mathlib.TextEquality.{eq_iff}
use dingdongditch.Prelude.Equality.{string_eq}
use dingdongditch.ReceiptChain.{
  Values, receipt_payload, hash_receipt, digest, entry_fields, make_receipt_chain_entry,
}
use dingdongditch.ReceiptChain.Verify.{entry_of, verify_receipt_hash, nth_receipt}
use dingdongditch.ReceiptChain.Verify.Laws.{
  Lawful, CollisionFree, SameBytes, receipt_hash_of, IsCurrent,
}

module _ (values : Values) where
  open values use {
    Value, null, text, dict, get, is_mapping, is_text, truthy, sha256, canonical_json_bytes,
  }

  -- Each receipt is verified, and names the hash of the one before.
  abbrev pub Linked : Value → List Value → Type 0
  Linked previous [] = Unit
  Linked previous (raw ∷ receipts) =
      (get (entry_of values raw) "previous_receipt_hash" ≡ previous)
      × (verify_receipt_hash values raw ≡ true)
      × IsCurrent values raw
      × Linked (receipt_hash_of values raw) receipts

  -- What the entry hashes besides itself
  abbrev pub core : Value → List (String × Value)
  core raw =
      let entry = entry_of values raw in
      entry_fields values raw (get entry "previous_receipt_hash") (get entry "execution_plan_hash")
        (get entry "operation_hash") (get entry "session_id")

  -- The first `n` receipts of the two chains have the same hashes, and one canonical form of what
  -- their entries hash and of their payloads.
  abbrev pub SameUpTo : ℕ → List Value → List Value → Type 0
  SameUpTo zero rs rs' = Unit
  SameUpTo (suc n) [] rs' = ⊥
  SameUpTo (suc n) (r ∷ rs) [] = ⊥
  SameUpTo (suc n) (r ∷ rs) (r' ∷ rs') =
      (receipt_hash_of values r ≡ receipt_hash_of values r')
      × SameBytes values (dict (core r)) (dict (core r'))
      × SameBytes values (receipt_payload values r) (receipt_payload values r')
      × SameUpTo n rs rs'

module _ (values : Values) (lawful : Lawful values) where
  open values use {Value, equals, null, text, dict, get, is_mapping, is_text, truthy}

  -- The current version is none of the older ones.
  pub other_versions : (equals (text "3") (text "1") ≢ true) × (equals (text "3") (text "2") ≢ true)
  other_versions = (
    λ e. ground (
      arith,
      lawful.text_injective "3" "1" (lawful.equals_text _ _ (lawful.is_text-text "1") e),
      eq_iff "3" "1",
    ),
    λ e. ground (
      arith,
      lawful.text_injective "3" "2" (lawful.equals_text _ _ (lawful.is_text-text "2") e),
      eq_iff "3" "2",
    ),
  )

  -- The entry is `==` to the one that is made for it.
  pub verified_entry :
      (raw : Value)
      → IsCurrent values raw
      → verify_receipt_hash values raw ≡ true
      → equals
          (entry_of values raw)
          (dict (core values raw ++ ("receipt_hash", digest values (dict (core values raw))) ∷ []))
        ≡ true
  unfolding verify_receipt_hash make_receipt_chain_entry
  verified_entry raw current h = ground (arith, other_versions)

  pub hash_of_verified :
      (raw : Value)
      → IsCurrent values raw
      → verify_receipt_hash values raw ≡ true
      → receipt_hash_of values raw ≡ digest values (dict (core values raw))
  unfolding string_eq
  hash_of_verified raw current h =
      lawful.equals_text _ _ (lawful.is_text-sha256 _)
        (lawful.equals-get _ _ "receipt_hash" refl (verified_entry raw current h))

  module _ (free : CollisionFree values) where
    -- Receipts with one hash have one canonical form of what the entry hashes.
    same_hash :
        (r r' : Value)
        → IsCurrent values r
        → verify_receipt_hash values r ≡ true
        → IsCurrent values r'
        → verify_receipt_hash values r' ≡ true
        → receipt_hash_of values r ≡ receipt_hash_of values r'
        → SameBytes values (dict (core values r)) (dict (core values r'))
    same_hash r r' c v c' v' e =
        free.sha256_injective _ _ (sym (hash_of_verified r c v) ∙ e ∙ hash_of_verified r' c' v')

    -- The n-th value, or another
    abbrev nth_or {ℓ} : {A : Type ℓ} → A → ℕ → List A → A
    nth_or default n [] = default
    nth_or default zero (x ∷ xs) = x
    nth_or default (suc n) (x ∷ xs) = nth_or default n xs

    core-nth :
        (r r' : Value) (n : ℕ)
        → SameBytes values (dict (core values r)) (dict (core values r'))
        → nth_or
            (values.canonical_json_bytes null)
            n
            (map (λ entry. values.canonical_json_bytes entry.1) (core values r))
          ≡ nth_or
              (values.canonical_json_bytes null)
              n
              (map (λ entry. values.canonical_json_bytes entry.1) (core values r'))
    unfolding string_eq
    core-nth r r' n e =
        ap (nth_or (values.canonical_json_bytes null) n)
          (free.bytes-dict (core values r) (core values r') refl refl e)

    agree_head :
        (p p' : Value) (r r' : Value) (rs rs' : List Value)
        → Linked values p (r ∷ rs)
        → Linked values p' (r' ∷ rs')
        → receipt_hash_of values r ≡ receipt_hash_of values r'
        → SameBytes values (dict (core values r)) (dict (core values r'))
          × SameBytes values (receipt_payload values r) (receipt_payload values r')
          × SameBytes values p p'
    unfolding hash_receipt
    agree_head p p' r r' rs rs' (prev, v, c, rest) (prev', v', c', rest') h =
        let same_core = same_hash r r' c v c' v' h in
        (
          same_core,
          free.sha256_injective _ _ (free.bytes-sha256 _ _ (core-nth r r' 2 same_core)),
          ap values.canonical_json_bytes (sym prev)
              ∙ core-nth r r' 1 same_core
              ∙ ap values.canonical_json_bytes prev',
        )

    -- The hashes of verified receipts are the same if their canonical forms are.
    hashes_agree :
        (r r' : Value)
        → IsCurrent values r
        → verify_receipt_hash values r ≡ true
        → IsCurrent values r'
        → verify_receipt_hash values r' ≡ true
        → SameBytes values (receipt_hash_of values r) (receipt_hash_of values r')
        → receipt_hash_of values r ≡ receipt_hash_of values r'
    hashes_agree r r' c v c' v' e =
        hash_of_verified r c v
        ∙ free.bytes-sha256 _ _ (
            ap values.canonical_json_bytes (sym (hash_of_verified r c v))
            ∙ e
            ∙ ap values.canonical_json_bytes (hash_of_verified r' c' v'))
        ∙ sym (hash_of_verified r' c' v')

    pub agree :
        (n : ℕ) (p p' : Value) (rs rs' : List Value) (x x' : Value)
        → Linked values p rs
        → Linked values p' rs'
        → nth_receipt values (suc n) rs ≡ some x
        → nth_receipt values (suc n) rs' ≡ some x'
        → receipt_hash_of values x ≡ receipt_hash_of values x'
        → SameUpTo values (suc n) rs rs' × SameBytes values p p'
    agree n p p' [] rs' x x' l l' e e' h = cc
    agree n p p' (r ∷ rs) [] x x' l l' e e' h = cc
    agree zero p p' (r ∷ rs) (r' ∷ rs') x x' l l' e e' h =
        let one : receipt_hash_of values r ≡ receipt_hash_of values r' = cc (e, e', h) in
        let (cores, payloads, before) = agree_head p p' r r' rs rs' l l' one in
        ((one, cores, payloads, tt), before)
    agree (suc n) p p' (r ∷ rs) (r' ∷ rs') x x' l l' e e' h =
        let (rest, bytes) = agree n _ _ rs rs' x x' l.3 l'.3 e e' h in
        let hashes = hashes_agree r r' l.2 l.1 l'.2 l'.1 bytes in
        let (cores, payloads, before) = agree_head p p' r r' rs rs' l l' hashes in
        ((hashes, cores, payloads, rest), before)
