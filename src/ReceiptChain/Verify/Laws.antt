-- ===== src/ReceiptChain/Verify/Laws.antt =====
-- What the verification of receipt chains (dingdongditch/contract/receipt_chain.py) relies on.
use dingdongditch.Prelude.{◌≡◌, String, true, List, [], ◌∷◌, map, if◌then◌else◌}
use dingdongditch.Prelude.Equality.{◌==◌, is_distinct, string_eq}
use dingdongditch.ReceiptChain.{Values}
use dingdongditch.ReceiptChain.Verify.{entry_of}

abbrev pub keys_of {ℓ} : {A : Type ℓ} → List (String × A) → List String
keys_of = map (λ entry. entry.0)

-- The first value under a key.
abbrev pub lookup_or {ℓ} : {A : Type ℓ} → A → String → List (String × A) → A
lookup_or default key [] = default
lookup_or default key ((k, v) ∷ entries) = if k == key then v else lookup_or default key entries

module _ (values : Values) where
  open values use {
    Value, Bytes, equals, null, text, dict, get, is_text, truthy, canonical_json_bytes, sha256,
  }

  -- What the verification relies on: dicts hold what they are built from, and `==` compares a text or
  -- None with nothing but itself, and dicts by what they hold.
  pub record Lawful : Type 0 where
    pub get-dict :
        (entries : List (String × Value)) (key : String)
        → is_distinct (keys_of entries) ≡ true
        → get (dict entries) key ≡ lookup_or null key entries
    pub truthy-dict :
        (entry : String × Value) (entries : List (String × Value))
        → truthy (dict (entry ∷ entries)) ≡ true
    pub text_injective : (s t : String) → text s ≡ text t → s ≡ t
    pub is_text-text : (s : String) → is_text (text s) ≡ true
    pub is_text-sha256 : (b : Bytes) → is_text (sha256 b) ≡ true
    pub equals_refl : (x : Value) → equals x x ≡ true
    pub equals_text : (x y : Value) → is_text y ≡ true → equals x y ≡ true → x ≡ y
    pub text_equals : (x y : Value) → is_text x ≡ true → equals x y ≡ true → x ≡ y
    pub equals-null : (x : Value) → equals x null ≡ true → x ≡ null
    pub equals-truthy : (x y : Value) → equals x y ≡ true → truthy x ≡ truthy y
    pub equals-get :
        (d : Value) (entries : List (String × Value)) (key : String)
        → is_distinct (keys_of entries) ≡ true
        → equals d (dict entries) ≡ true
        → equals (get d key) (lookup_or null key entries) ≡ true

  -- What the tamper evidence relies on besides: SHA-256 has no collision, the canonical bytes of a dict
  -- determine those of the values under its keys, and normalization leaves a hash as it is. Values that
  -- differ only in the normalization of their texts have one canonical form and one hash.
  pub record CollisionFree : Type 0 where
    pub sha256_injective : (b c : Bytes) → sha256 b ≡ sha256 c → b ≡ c
    pub bytes-dict :
        (d e : List (String × Value))
        → is_distinct (keys_of d) ≡ true
        → keys_of d ≡ keys_of e
        → canonical_json_bytes (dict d) ≡ canonical_json_bytes (dict e)
        → map (λ entry. canonical_json_bytes entry.1) d
          ≡ map (λ entry. canonical_json_bytes entry.1) e
    pub bytes-sha256 :
        (b c : Bytes)
        → canonical_json_bytes (sha256 b) ≡ canonical_json_bytes (sha256 c)
        → sha256 b ≡ sha256 c

  -- The canonical forms are the same.
  abbrev pub SameBytes : Value → Value → Type 0
  SameBytes x y = canonical_json_bytes x ≡ canonical_json_bytes y

  abbrev pub receipt_hash_of : Value → Value
  receipt_hash_of raw = get (entry_of values raw) "receipt_hash"

  abbrev pub IsCurrent : Value → Type 0
  IsCurrent raw = get (entry_of values raw) "chain_version" ≡ text "3"
