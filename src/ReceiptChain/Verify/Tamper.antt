-- ===== src/ReceiptChain/Verify/Tamper.antt =====
-- About chains that are verified against a checkpoint
-- (dingdongditch/contract/receipt_chain.py).
use dingdongditch.Prelude.{
  ℕ, zero, suc, ◌+◌, ◌≤◌, ◌<◌, ◌≡◌, refl, sym, ap, ◌∙◌, true, false, ◌&&◌, some, ◌⊎◌, List, [], ◌∷◌,
  ◌++◌, arith, length, is_empty, inl, inr, Bool-cases, All,
}
use dingdongditch.Prelude.Equality.{string_eq}
use dingdongditch.ReceiptChain.{Values, or_empty}
use dingdongditch.ReceiptChain.Verify.{
  ReceiptChainCheckpoint, entry_of, verify_receipt_hash, ChainState, no_entry, new_reasons,
  check_entry, chain_step, chain_loop, session_reasons, verify_receipt_chain, first_state,
  verify_receipt_chain_against_checkpoint, nth_receipt, prefix_reasons,
}
use dingdongditch.ReceiptChain.Verify.Laws.{Lawful, CollisionFree, receipt_hash_of, IsCurrent}
use dingdongditch.ReceiptChain.Verify.Hashes.{
  verified_entry, hash_of_verified, Linked, SameUpTo, agree,
}

ℕ-cases : (n : ℕ) → (n ≡ 0) ⊎ ((m : ℕ) × (n ≡ suc m))
ℕ-cases zero = inl refl
ℕ-cases (suc m) = inr (m, refl)

module _ (values : Values) (lawful : Lawful values) where
  open values use {Value, equals, null, text, dict, get, is_mapping, is_text, truthy}

  empty_append {ℓ} :
      {A : Type ℓ} (xs ys : List A) → is_empty (xs ++ ys) ≡ (is_empty xs && is_empty ys)
  empty_append [] ys = refl
  empty_append (x ∷ xs) ys = refl

  is_text_hash :
      (raw : Value)
      → IsCurrent values raw
      → verify_receipt_hash values raw ≡ true
      → is_text (receipt_hash_of values raw) ≡ true
  is_text_hash raw c v =
      ap is_text (hash_of_verified values lawful raw c v) ∙ lawful.is_text-sha256 _

  -- A round without a reason.
  quiet_entry :
      (i : ℕ) (raw : Value) (s : ChainState values)
      → is_empty (check_entry values i raw s).reasons ≡ true
      → (is_empty s.reasons ≡ true)
        × (equals (get (entry_of values raw) "previous_receipt_hash") s.previous ≡ true)
        × (verify_receipt_hash values raw ≡ true)
  quiet_entry i raw s h = ground (arith, empty_append s.reasons (new_reasons values i raw s))

  quiet_step :
      (i : ℕ) (raw : Value) (s : ChainState values)
      → is_empty (chain_step values false i raw s).reasons ≡ true
      → chain_step values false i raw s ≡ check_entry values i raw s
  unfolding chain_step
  quiet_step i raw s h = elim (Bool-cases (is_mapping (entry_of values raw))) [
    | inl mapping ↦ rw (mapping, chain_step)
    | inr other ↦ ground (arith, empty_append s.reasons (no_entry i ∷ []))
  ]

  -- The hash that a round is to follow is None or a text.
  abbrev IsHash : Value → Type 0
  IsHash previous = (previous ≡ null) ⊎ (is_text previous ≡ true)

  equals-IsHash : (x previous : Value) → IsHash previous → equals x previous ≡ true → x ≡ previous
  equals-IsHash x previous (inl none) h =
      lawful.equals-null x (ap (equals x) (sym none) ∙ h) ∙ sym none
  equals-IsHash x previous (inr is) h = lawful.equals_text x previous is h

  -- A loop that ends without a reason started without one, and every receipt was linked.
  step_linked :
      (i : ℕ) (raw : Value) (s : ChainState values)
      → IsHash s.previous
      → IsCurrent values raw
      → is_empty (chain_step values false i raw s).reasons ≡ true
      → (is_empty s.reasons ≡ true)
        × (get (entry_of values raw) "previous_receipt_hash" ≡ s.previous)
        × (verify_receipt_hash values raw ≡ true)
        × ((chain_step values false i raw s).previous ≡ receipt_hash_of values raw)
  step_linked i raw s k c h =
      let stepped = quiet_step i raw s h in
      let (before, previous, verified) = quiet_entry i raw s (rw stepped at h) in
      (before, equals-IsHash _ _ k previous, verified, rw (stepped, is_text_hash raw c verified))

  after-IsHash :
      (i : ℕ) (raw : Value) (s : ChainState values)
      → IsHash s.previous
      → IsCurrent values raw
      → IsHash (chain_step values false i raw s).previous
  unfolding chain_step
  after-IsHash i raw s k c = elim (Bool-cases (is_mapping (entry_of values raw))) [
    | inl mapping ↦ elim (Bool-cases (is_text (receipt_hash_of values raw))) [
      | inl is ↦ rw (mapping, is) (inr is)
      | inr other ↦ rw (mapping, other) k
    ]
    | inr other ↦ rw other k
  ]

  loop-Linked :
      (i : ℕ) (rs : List Value) (s : ChainState values)
      → IsHash s.previous
      → All (IsCurrent values) rs
      → is_empty (chain_loop values false i rs s).reasons ≡ true
      → (is_empty s.reasons ≡ true) × Linked values s.previous rs
  unfolding chain_loop
  loop-Linked i [] s k c h = (h, tt)
  loop-Linked i (r ∷ rs) s k c h =
      let (quiet, linked) =
        loop-Linked (i + 1) rs (chain_step values false i r s) (after-IsHash i r s k c.0) c.1 h in
      let (before, previous, verified, next) = step_linked i r s k c.0 quiet in
      (before, (previous, verified, c.0, rw next at linked))

  nth_exists :
      (n : ℕ) (rs : List Value)
      → n < length rs
      → (x : Value) × (nth_receipt values (suc n) rs ≡ some x)
  nth_exists n [] h = absurd (omega arith)
  nth_exists zero (r ∷ rs) h = (r, refl)
  nth_exists (suc n) (r ∷ rs) h = nth_exists n rs (omega arith)

  nth_verified :
      (n : ℕ) (p : Value) (rs : List Value) (x : Value)
      → Linked values p rs
      → nth_receipt values (suc n) rs ≡ some x
      → (verify_receipt_hash values x ≡ true) × IsCurrent values x
  nth_verified n p [] x l e = cc
  nth_verified zero p (r ∷ rs) x (prev, v, c, rest) e = (cc, cc)
  nth_verified (suc n) p (r ∷ rs) x (prev, v, c, rest) e = nth_verified n _ rs x rest e

  or_empty_entry :
      (raw : Value)
      → IsCurrent values raw
      → verify_receipt_hash values raw ≡ true
      → or_empty values (entry_of values raw) ≡ entry_of values raw
  or_empty_entry raw c v =
      let is_truthy =
        lawful.equals-truthy _ _ (verified_entry values lawful raw c v) ∙ lawful.truthy-dict _ _ in
      ground (arith, is_truthy)

  valid_parts :
      (rs : List Value) (c : ReceiptChainCheckpoint values)
      → (verify_receipt_chain_against_checkpoint values rs c).valid ≡ true
      → (is_empty (chain_loop values false 0 rs (first_state values)).reasons ≡ true)
        × (is_empty (prefix_reasons values rs c) ≡ true)
  unfolding verify_receipt_chain_against_checkpoint verify_receipt_chain
  valid_parts rs c h =
      let chain = (chain_loop values false 0 rs (first_state values)).reasons in
      let sessions = session_reasons values 0 c.session_id rs in
      ground (
        arith,
        empty_append chain (prefix_reasons values rs c ++ sessions),
        empty_append (prefix_reasons values rs c) sessions,
      )

  prefix_enough :
      (rs : List Value) (c : ReceiptChainCheckpoint values)
      → is_empty (prefix_reasons values rs c) ≡ true
      → c.chain_length ≤ length rs
  unfolding prefix_reasons
  prefix_enough rs c h = ground arith

  prefix_matches :
      (rs : List Value) (c : ReceiptChainCheckpoint values) (x : Value)
      → c.chain_length ≤ length rs
      → nth_receipt values c.chain_length rs ≡ some x
      → is_empty (prefix_reasons values rs c) ≡ true
      → equals (get (or_empty values (entry_of values x)) "receipt_hash") c.chain_head_hash ≡ true
  unfolding prefix_reasons
  prefix_matches rs c x enough found h =
      let seen = rw (found, prefix_reasons) at h in ground (arith, seen)

  prefix_head :
      (rs : List Value) (c : ReceiptChainCheckpoint values) (n : ℕ)
      → c.chain_length ≡ suc n
      → is_empty (prefix_reasons values rs c) ≡ true
      → (x : Value) × (nth_receipt values (suc n) rs ≡ some x)
        × (equals (get (or_empty values (entry_of values x)) "receipt_hash") c.chain_head_hash
            ≡ true)
  prefix_head rs c n e h =
      let enough = prefix_enough rs c h in
      let (x, found) = nth_exists n rs (omega (arith, e, enough)) in
      (x, found, prefix_matches rs c x enough (rw e found) h)

  -- A checkpoint that holds covers receipts that are there, and the last of them has its hash.
  checkpoint_covers :
      (rs : List Value) (c : ReceiptChainCheckpoint values) (n : ℕ)
      → All (IsCurrent values) rs
      → c.chain_length ≡ suc n
      → (verify_receipt_chain_against_checkpoint values rs c).valid ≡ true
      → Linked values null rs
        × ((x : Value) × (nth_receipt values (suc n) rs ≡ some x)
            × (receipt_hash_of values x ≡ c.chain_head_hash))
  checkpoint_covers rs c n current e h =
      let (chain, covered) = valid_parts rs c h in
      let (start, linked) = loop-Linked 0 rs (first_state values) (inl refl) current chain in
      let (x, found, head) = prefix_head rs c n e covered in
      let (verified, is_current) = nth_verified n null rs x linked found in
      let same_hash = rw (or_empty_entry x is_current verified) at head in
      (linked, (x, found, lawful.text_equals _ _ (is_text_hash x is_current verified) same_hash))

  -- Two chains of the current version that verify against one checkpoint have the receipts that the
  -- checkpoint covers, with the same hashes, and what their entries hash and their payloads have one
  -- canonical form: no receipt up to the checkpoint can be dropped, reordered or rewritten, but for
  -- what the canonical form forgets (the normalization of texts). This supposes that values obey the
  -- laws of `Lawful`, and that SHA-256 has no collision (`CollisionFree`).
  pub checkpoint_tamper_evident :
      CollisionFree values
      → (c : ReceiptChainCheckpoint values) (rs rs' : List Value) → All (IsCurrent values) rs
      → All (IsCurrent values) rs'
      → (verify_receipt_chain_against_checkpoint values rs c).valid ≡ true
      → (verify_receipt_chain_against_checkpoint values rs' c).valid ≡ true
      → SameUpTo values c.chain_length rs rs'
  checkpoint_tamper_evident free c rs rs' current current' v v' = elim (ℕ-cases c.chain_length) [
    | inl none_covered ↦ rw none_covered tt
    | inr (n, e) ↦
        let (linked, (x, found, head)) = checkpoint_covers rs c n current e v in
        let (linked', (x', found', head')) = checkpoint_covers rs' c n current' e v' in
        rw e
          (agree values lawful free n null null rs rs' x x' linked linked' found found'
            (head ∙ sym head')).0
  ]
