-- ===== src/ReceiptChain/Verify/Sealing.antt =====
-- About `chain_receipt` (dingdongditch/contract/receipt_chain.py) and the verification of what it
-- seals.
use dingdongditch.Prelude.{
  ◌≡◌, refl, sym, ap, ◌∙◌, String, true, false, List, [], ◌∷◌, ◌++◌, map, length, arith, All,
}
use dingdongditch.Prelude.Equality.{◌==◌, contains, string_eq}
use dingdongditch.ReceiptChain.{
  Values, digest, fields, receipt_payload, hash_receipt, entry_fields, make_receipt_chain_entry,
  chain_receipt, session_binding_hash, payload_fields, presence_fields, known_fields,
  evidence_fields, presence, artifact_manifest, manifest_item, items_of, browser_of, browser_fields,
  or_empty,
}
use dingdongditch.ReceiptChain.Verify.{entry_of, expected_current, verify_receipt_hash}
use dingdongditch.ReceiptChain.Verify.Hashes.{other_versions}
use dingdongditch.ReceiptChain.Verify.Laws.{Lawful, lookup_or}

module _ (values : Values) where
  open values use {Value, dict, get, has, put, without, is_mapping}

  -- What sealing relies on: `d[k] = v` changes what is under `k` and nothing else.
  pub record Storing : Type 0 where
    pub get-put : (d : Value) (key : String) (v : Value) → get (put d key v) key ≡ v
    pub get-put_other :
        (d : Value) (key other : String) (v : Value)
        → (key == other) ≡ false
        → get (put d key v) other ≡ get d other
    pub has-put_other :
        (d : Value) (key other : String) (v : Value)
        → (key == other) ≡ false
        → has (put d key v) other ≡ has d other
    pub without-put :
        (d : Value) (key : String) (v : Value) (known : List String)
        → contains known key ≡ true
        → without known (put d key v) ≡ without known d
    pub is_mapping-dict : (entries : List (String × Value)) → is_mapping (dict entries) ≡ true

module _ (values : Values) (lawful : Lawful values) (storing : Storing values) where
  open values use {Value, equals, null, text, dict, get, has, put, without, is_mapping}

  abbrev Other : String → Type 0
  Other key = ("receipt_chain" == key) ≡ false

  fields-put :
      (keys : List String) (raw v : Value)
      → All Other keys
      → fields values keys (put raw "receipt_chain" v) ≡ fields values keys raw
  fields-put [] raw v o = refl
  fields-put (key ∷ keys) raw v o =
      rw (storing.get-put_other raw "receipt_chain" key v o.0, fields-put keys raw v o.1)

  presence-put :
      (keys : List String) (raw v : Value)
      → All Other keys
      → presence values keys (put raw "receipt_chain" v) ≡ presence values keys raw
  presence-put [] raw v o = refl
  presence-put (key ∷ keys) raw v o =
      rw (storing.has-put_other raw "receipt_chain" key v o.0, presence-put keys raw v o.1)

  Other-All : (keys : List String) → contains keys "receipt_chain" ≡ false → All Other keys
  Other-All [] h = tt
  Other-All (key ∷ keys) h = (ground arith, Other-All keys (ground arith))

  fields_kept :
      (keys : List String) (raw v : Value)
      → contains keys "receipt_chain" ≡ false
      → fields values keys (put raw "receipt_chain" v) ≡ fields values keys raw
  fields_kept keys raw v h = fields-put keys raw v (Other-All keys h)

  get_kept :
      (key : String) (raw v : Value)
      → ("receipt_chain" == key) ≡ false
      → get (put raw "receipt_chain" v) key ≡ get raw key
  get_kept key raw v h = storing.get-put_other raw "receipt_chain" key v h

  session_binding_hash-put :
      (raw v : Value)
      → session_binding_hash values (put raw "receipt_chain" v) ≡ session_binding_hash values raw
  unfolding session_binding_hash string_eq
  session_binding_hash-put raw v = rw (get_kept "browser" raw v refl)

  artifact_manifest-put :
      (raw v : Value)
      → artifact_manifest values (put raw "receipt_chain" v) ≡ artifact_manifest values raw
  unfolding string_eq
  artifact_manifest-put raw v =
      ap
        (λ artifacts.
          let items = map (manifest_item values) (items_of values artifacts) in
          dict (("count", values.number (length items)) ∷ ("items", values.array items) ∷ []))
        (get_kept "artifacts" raw v refl)

  browser_of-put :
      (raw v : Value) → browser_of values (put raw "receipt_chain" v) ≡ browser_of values raw
  unfolding string_eq
  browser_of-put raw v =
      ap (λ browser. dict (fields values browser_fields (or_empty values browser)))
        (get_kept "browser" raw v refl)

  receipt_payload-put :
      (raw v : Value)
      → receipt_payload values (put raw "receipt_chain" v) ≡ receipt_payload values raw
  unfolding string_eq
  receipt_payload-put raw v = λ i. dict (
      (
        "bounded_evidence",
        dict (fields_kept ("expectation_evidence" ∷ "evidence" ∷ []) raw v refl i),
      )
      ∷ ("artifact_manifest", artifact_manifest-put raw v i)
      ∷ ("browser", browser_of-put raw v i)
      ∷ (
        "field_presence",
        dict (presence-put presence_fields raw v (Other-All presence_fields refl) i),
      )
      ∷ ("extensions", storing.without-put raw "receipt_chain" v known_fields refl i)
      ∷ fields_kept payload_fields raw v refl i)

  entry_fields-put :
      (raw v previous plan operation session : Value)
      → entry_fields values (put raw "receipt_chain" v) previous plan operation session
        ≡ entry_fields values raw previous plan operation session
  unfolding hash_receipt string_eq
  entry_fields-put raw v previous plan operation session = λ i.
      ("chain_version", text "3")
      ∷ ("previous_receipt_hash", previous)
      ∷ ("receipt_payload_hash", digest values (receipt_payload-put raw v i))
      ∷ ("execution_plan_hash", plan)
      ∷ ("operation_hash", operation)
      ∷ (
        "policy_hash",
        get (or_empty values (get_kept "authority_decision" raw v refl i)) "policy_hash",
      )
      ∷ ("evidence_hash", digest values (dict (fields_kept evidence_fields raw v refl i)))
      ∷ ("artifact_hashes", artifact_manifest-put raw v i)
      ∷ ("session_binding_hash", session_binding_hash-put raw v i)
      ∷ ("runtime_version", get_kept "runtime_version" raw v refl i)
      ∷ ("receipt_schema_version", get_kept "schema_version" raw v refl i)
      ∷ ("session_id", session)
      ∷ []

  make_entry-put :
      (raw v previous plan operation session : Value)
      → make_receipt_chain_entry values (put raw "receipt_chain" v) previous plan operation session
        ≡ make_receipt_chain_entry values raw previous plan operation session
  unfolding make_receipt_chain_entry
  make_entry-put raw v previous plan operation session =
      ap (λ entry. dict (entry ++ ("receipt_hash", digest values (dict entry)) ∷ []))
        (entry_fields-put raw v previous plan operation session)

  made_mapping :
      (raw previous plan operation session : Value)
      → is_mapping (make_receipt_chain_entry values raw previous plan operation session) ≡ true
  unfolding make_receipt_chain_entry
  made_mapping raw previous plan operation session = storing.is_mapping-dict _

  made_field :
      (raw previous plan operation session : Value) (key : String)
      → get (make_receipt_chain_entry values raw previous plan operation session) key
        ≡ lookup_or null key (
            entry_fields values raw previous plan operation session
            ++ (
              "receipt_hash",
              digest values (dict (entry_fields values raw previous plan operation session)),
            )
              ∷ [])
  unfolding make_receipt_chain_entry string_eq
  made_field raw previous plan operation session key = lawful.get-dict _ key refl

  verified_if :
      (raw : Value)
      → is_mapping (entry_of values raw) ≡ true
      → get (entry_of values raw) "chain_version" ≡ text "3"
      → entry_of values raw ≡ expected_current values raw
      → verify_receipt_hash values raw ≡ true
  unfolding verify_receipt_hash
  verified_if raw mapping current expected =
      let same_entry : equals (entry_of values raw) (expected_current values raw) ≡ true =
        ap (equals (entry_of values raw)) (sym expected) ∙ lawful.equals_refl _ in
      ground (arith, current, other_versions values lawful, lawful.equals_refl (text "3"))

  -- What the entry of a sealed receipt holds under a key
  sealed_field :
      (raw previous plan operation session : Value) (key : String)
      → get (entry_of values (chain_receipt values raw previous plan operation session)) key
        ≡ get (make_receipt_chain_entry values raw previous plan operation session) key
  unfolding chain_receipt
  sealed_field raw previous plan operation session key =
      ap (λ entry. get entry key) (storing.get-put raw "receipt_chain" _)

  pub sealed_previous :
      (raw previous plan operation session : Value)
      → get
          (entry_of values (chain_receipt values raw previous plan operation session))
          "previous_receipt_hash"
        ≡ previous
  unfolding string_eq
  sealed_previous raw previous plan operation session =
      sealed_field raw previous plan operation session _
      ∙ made_field raw previous plan operation session "previous_receipt_hash"

  pub sealed_session :
      (raw previous plan operation session : Value)
      → get
          (entry_of values (chain_receipt values raw previous plan operation session))
          "session_id"
        ≡ session
  unfolding string_eq
  sealed_session raw previous plan operation session =
      sealed_field raw previous plan operation session _
      ∙ made_field raw previous plan operation session "session_id"

  -- A receipt that `chain_receipt` seals verifies, whatever it held and whatever it is chained to.
  -- This supposes that values obey the laws of `Lawful` and `Storing`.
  pub chain_receipt_verifies :
      (raw previous plan operation session : Value)
      → verify_receipt_hash values (chain_receipt values raw previous plan operation session) ≡ true
  unfolding chain_receipt string_eq
  chain_receipt_verifies raw previous plan operation session =
      let made = make_receipt_chain_entry values raw previous plan operation session in
      let sealed = put raw "receipt_chain" made in
      let stored : entry_of values sealed ≡ made = storing.get-put raw "receipt_chain" made in
      let field = sealed_field raw previous plan operation session in
      let made_at = made_field raw previous plan operation session in
      let previous_kept = sealed_previous raw previous plan operation session in
      let plan_kept : get (entry_of values sealed) "execution_plan_hash" ≡ plan =
        field _ ∙ made_at "execution_plan_hash" in
      let operation_kept : get (entry_of values sealed) "operation_hash" ≡ operation =
        field _ ∙ made_at "operation_hash" in
      let session_kept = sealed_session raw previous plan operation session in
      let remade : expected_current values sealed ≡ made =
        (λ i.
          make_receipt_chain_entry values sealed (previous_kept i) (plan_kept i) (operation_kept i)
            (session_kept i))
        ∙ make_entry-put raw made previous plan operation session in
      verified_if sealed (ap is_mapping stored ∙ made_mapping raw previous plan operation session)
        (field _ ∙ made_at "chain_version") (stored ∙ sym remade)
