-- ===== src/FileQueue/Published.antt =====
-- What becomes of a message of a queue of files, from its publication to its completion.
use Prim.Native.String.{◌++◌ as ◌++ˢ◌}
use dingdongditch.Prelude.{
  String, ◌≡◌, refl, Bool, true, false, Option, none, some, List, [], ◌∷◌, map, Bool-cases, inl,
  inr, arith,
}
use dingdongditch.Prelude.Equality.{◌==◌, string_eq, contains, is_distinct, ==_refl, ==→eq}
use dingdongditch.Prelude.Raise.{Result, ok, raised}
use dingdongditch.FileQueue.{
  Files, ClaimedMessage, AtomicFileQueue, read_bytes, without, id_or, publish, link, claim,
  claim_each, complete, complete_at,
}
use dingdongditch.FileQueue.Drain.{IsListing}

abbrev pub is_ok {ℓ} : {A : Type ℓ} → Result A → Bool
is_ok (ok a) = true
is_ok (raised e) = false

module _ (fs : Files) where
  link-read :
      (id : String) (payload : fs.Payload) (found : Option fs.Bytes) (q : AtomicFileQueue fs)
      (name : String) (bytes : fs.Bytes)
      → read_bytes id q.pending ≡ found
      → read_bytes name q.pending ≡ some bytes
      → read_bytes name ((link id payload found q).1.pending) ≡ some bytes
  link-read id payload (some old) q name bytes is h = h
  link-read id payload none q name bytes is h = elim (Bool-cases (name == id)) [
    | inl same ↦ ground (arith, ==→eq name id same)
    | inr differ ↦ rw differ h
  ]

  -- A pending message is never overwritten: whatever is published, under whatever id and with whatever
  -- outcome, each pending file has the bytes that it had.
  pub publish_keeps :
      (payload : fs.Payload) (message_id : Option String) (hex : String) (q : AtomicFileQueue fs)
      (name : String) (bytes : fs.Bytes)
      → read_bytes name q.pending ≡ some bytes
      → read_bytes name ((publish payload message_id hex q).1.pending) ≡ some bytes
  unfolding publish
  publish_keeps payload message_id hex q name bytes h =
      ground (arith, link-read (id_or message_id hex) payload _ q name bytes refl h)

  -- A publication that succeeds adds its message.
  published_pending :
      (payload : fs.Payload) (message_id : Option String) (hex : String) (q : AtomicFileQueue fs)
      (id : String)
      → q.pending ≡ []
      → (publish payload message_id hex q).0 ≡ ok id
      → (publish payload message_id hex q).1.pending ≡ (id, fs.encode payload) ∷ []
  unfolding publish
  published_pending payload message_id hex q id empty published = ground arith

  -- A claim from a folder with one file returns it.
  claim_single :
      (payload : fs.Payload) (draw : String → String) (q : AtomicFileQueue fs) (id : String)
      → IsListing fs
      → fs.decode (fs.encode payload) ≡ some payload
      → q.pending ≡ (id, fs.encode payload) ∷ []
      → (claim (λ name. false) draw q).0
        ≡ ok (
            some (record {
              message_id = id;
              path = some (id ++ˢ ("." ++ˢ draw id));
              payload = payload;
            }))
  unfolding claim
  claim_single payload draw q id lists reads single =
      by_listing (fs.sorted (map (λ file. file.0) q.pending)) (rw single (lists _))
    where
      by_listing :
          (ids : List String)
          → ((name : String) → contains ids name ≡ contains (id ∷ []) name)
          → (claim_each (λ name. false) draw ids q).0
            ≡ ok (
                some (record {
                  message_id = id;
                  path = some (id ++ˢ ("." ++ˢ draw id));
                  payload = payload;
                }))
      by_listing [] same = ground (arith, same id, ==_refl id)
      by_listing (name ∷ names) same =
          let equal : name ≡ id = ==→eq name id (ground (arith, same name, ==_refl name)) in
          rw (equal, single, ==_refl id, reads) (rw (==_refl id) refl)

  -- What is published is claimed: on a queue with nothing pending, if no other process takes files, the
  -- claim after a publication that succeeds returns the published payload under the id of the publication.
  -- This supposes that JSON reads back what it wrote, and that the listing names the files of the folder.
  pub publish_claimed :
      (payload : fs.Payload) (message_id : Option String) (hex : String) (draw : String → String)
      (q : AtomicFileQueue fs) (id : String)
      → IsListing fs
      → ((p : fs.Payload) → fs.decode (fs.encode p) ≡ some p)
      → q.pending ≡ []
      → (publish payload message_id hex q).0 ≡ ok id
      → (claim (λ name. false) draw ((publish payload message_id hex q).1)).0
        ≡ ok (
            some (record {
              message_id = id;
              path = some (id ++ˢ ("." ++ˢ draw id));
              payload = payload;
            }))
  publish_claimed payload message_id hex draw q id lists reads empty published =
      claim_single payload draw _ id lists (reads payload)
        (published_pending payload message_id hex q id empty published)

  absent :
      (name : String) {A : Type 0} (files : List (String × A))
      → contains (map (λ file. file.0) files) name ≡ false
      → read_bytes name files ≡ none
  absent name [] h = refl
  absent name (file ∷ files) h = ground (arith, absent name files)

  -- Where no two files share a name, what is taken out of a folder is not in it.
  read-without :
      (name : String) {A : Type 0} (files : List (String × A))
      → is_distinct (map (λ file. file.0) files) ≡ true
      → read_bytes name (without name files) ≡ none
  read-without name [] h = refl
  read-without name (file ∷ files) h = elim (Bool-cases (name == file.0)) [
    | inl same ↦ ground (arith, absent name files, ==→eq name file.0 same)
    | inr differ ↦ ground (arith, read-without name files)
  ]

  -- A claim is completed once: after a completion that succeeds, another of the same claim raises,
  -- whatever its result. This supposes that no two claimed files share a name.
  pub complete_once :
      (message : ClaimedMessage fs.Payload) (result again : fs.Payload) (q : AtomicFileQueue fs)
      → is_distinct (map (λ file. file.0) q.claimed) ≡ true
      → is_ok ((complete message result q).0) ≡ true
      → is_ok ((complete message again ((complete message result q).1)).0) ≡ false
  unfolding complete
  complete_once message result again q distinct done = at message.path done
    where
      at :
          (path : Option String)
          → is_ok ((complete_at path message result q).0) ≡ true
          → is_ok ((complete_at path message again ((complete_at path message result q).1)).0)
            ≡ false
      at none done = refl
      at (some name) done = ground (arith, read-without name q.claimed distinct)
