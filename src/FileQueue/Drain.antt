-- ===== src/FileQueue/Drain.antt =====
-- Claims that follow each other on a queue of files.
use dingdongditch.Prelude.{
  ℕ, zero, suc, String, ◌≡◌, refl, Bool, true, false, Option, none, some, List, [], ◌∷◌, is_some,
  length, all, map, Bool-cases, Option-cases, inl, inr, arith,
}
use dingdongditch.Prelude.Equality.{◌==◌, string_eq, contains, ==_refl}
use dingdongditch.Prelude.Raise.{Result, ok}
use dingdongditch.FileQueue.{
  Files, ClaimedMessage, AtomicFileQueue, read_bytes, without, claim, claim_each,
}

abbrev pub is_message {ℓ} : {A : Type ℓ} → Result (Option A) → Bool
is_message (ok (some a)) = true
is_message _ = false

module _ (fs : Files) where
  -- The listing names the files of the folder.
  abbrev pub IsListing : Type 0
  IsListing = (ids : List String) (id : String) → contains (fs.sorted ids) id ≡ contains ids id

  abbrev pub are_readable : List (String × fs.Bytes) → Bool
  are_readable = all (λ file. is_some (fs.decode file.1))

  -- As many claims, with what each returns
  abbrev pub claims :
      ℕ
      → (String → String)
      → AtomicFileQueue fs
      → List (Result (Option (ClaimedMessage fs.Payload))) × AtomicFileQueue fs
  claims zero hex q = ([], q)
  claims (suc n) hex q =
      let reply = claim (λ id. false) hex q in
      let rest = claims n hex reply.1 in (reply.0 ∷ rest.0, rest.1)

  decodes :
      (bytes : fs.Bytes)
      → is_some (fs.decode bytes) ≡ true
      → (payload : fs.Payload) × (fs.decode bytes ≡ some payload)
  decodes bytes r = elim (Option-cases (fs.decode bytes)) [
    | inl is ↦ ground arith
    | inr (payload, is) ↦ (payload, is)
  ]

  found :
      (id : String) (files : List (String × fs.Bytes))
      → contains (map (λ file. file.0) files) id ≡ true
      → are_readable files ≡ true
      → (bytes : fs.Bytes) × ((read_bytes id files ≡ some bytes)
          × (is_some (fs.decode bytes) ≡ true))
  found id [] h r = ground arith
  found id (file ∷ files) h r = elim (Bool-cases (id == file.0)) [
    | inl same ↦ (file.1, (ground arith, ground arith))
    | inr differ ↦
        let below = found id files (ground arith) (ground arith) in
        (below.0, (ground (arith, below.1.0), below.1.1))
  ]

  length-without :
      (id : String) (files : List (String × fs.Bytes))
      → contains (map (λ file. file.0) files) id ≡ true
      → suc (length (without id files)) ≡ length files
  length-without id [] h = ground arith
  length-without id (file ∷ files) h = ground (arith, length-without id files)

  without-readable :
      (id : String) (files : List (String × fs.Bytes))
      → are_readable files ≡ true
      → are_readable (without id files) ≡ true
  without-readable id [] r = refl
  without-readable id (file ∷ files) r = ground (arith, without-readable id files)

  -- The first file of a listing is claimed.
  first_claimed :
      (hex : String → String) (id : String) (ids : List String) (q : AtomicFileQueue fs)
      (bytes : fs.Bytes) (payload : fs.Payload)
      → read_bytes id q.pending ≡ some bytes
      → fs.decode bytes ≡ some payload
      → (is_message ((claim_each (λ id. false) hex (id ∷ ids) q).0) ≡ true)
        × (((claim_each (λ id. false) hex (id ∷ ids) q).1).pending ≡ without id q.pending)
  first_claimed hex id ids q bytes payload reads is = ground arith

  -- A folder of which nothing is listed is empty.
  unlisted :
      (files : List (String × fs.Bytes))
      → ((id : String) → false ≡ contains (map (λ file. file.0) files) id)
      → length files ≡ 0
  unlisted [] h = refl
  unlisted (file ∷ files) h = ground (arith, h file.0, ==_refl file.0)

  no_files : (files : List (String × fs.Bytes)) → length files ≡ 0 → files ≡ []
  no_files [] h = refl
  no_files (file ∷ files) h = ground arith

  -- A claim from an empty folder returns none.
  claim_empty :
      (hex : String → String) (q : AtomicFileQueue fs)
      → IsListing
      → q.pending ≡ []
      → (claim (λ id. false) hex q).0 ≡ ok none
  unfolding claim
  claim_empty hex q lists h =
      by_listing (fs.sorted (map (λ file. file.0) q.pending)) (rw h (lists _))
    where
      by_listing :
          (ids : List String)
          → ((id : String) → contains ids id ≡ false)
          → (claim_each (λ id. false) hex ids q).0 ≡ ok none
      by_listing [] empty = refl
      by_listing (id ∷ ids) empty = ground (arith, empty id, ==_refl id)

  -- A claim from a folder with readable files returns a message and leaves one file fewer.
  pub claim_one :
      (hex : String → String) (q : AtomicFileQueue fs) (n : ℕ)
      → IsListing
      → are_readable q.pending ≡ true
      → length q.pending ≡ suc n
      → (is_message ((claim (λ id. false) hex q).0) ≡ true)
        × ((length (((claim (λ id. false) hex q).1).pending) ≡ n)
            × (are_readable (((claim (λ id. false) hex q).1).pending) ≡ true))
  unfolding claim
  claim_one hex q n lists r l = by_listing (fs.sorted (map (λ file. file.0) q.pending)) (lists _)
    where
      by_listing :
          (ids : List String)
          → ((id : String) → contains ids id ≡ contains (map (λ file. file.0) q.pending) id)
          → (is_message ((claim_each (λ id. false) hex ids q).0) ≡ true)
            × ((length (((claim_each (λ id. false) hex ids q).1).pending) ≡ n)
                × (are_readable (((claim_each (λ id. false) hex ids q).1).pending) ≡ true))
      by_listing [] same = ground (arith, unlisted q.pending same)
      by_listing (id ∷ ids) same =
          let listed : contains (map (λ file. file.0) q.pending) id ≡ true =
            ground (arith, same id) in
          let file = found id q.pending listed r in
          let payload = decodes file.0 file.1.1 in
          let first = first_claimed hex id ids q file.0 payload.0 file.1.0 payload.1 in
          (
            first.0,
            rw first.1 (
              omega (arith, length-without id q.pending listed),
              without-readable id q.pending r,
            ),
          )

  -- The same with the number of pending files
  drained :
      (n : ℕ) (hex : String → String) (q : AtomicFileQueue fs)
      → IsListing
      → are_readable q.pending ≡ true
      → length q.pending ≡ n
      → (all is_message ((claims n hex q).0) ≡ true)
        × ((((claims n hex q).1).pending ≡ [])
            × ((claim (λ id. false) hex ((claims n hex q).1)).0 ≡ ok none))
  drained zero hex q lists r l =
      (refl, (no_files q.pending l, claim_empty hex q lists (no_files q.pending l)))
  drained (suc n) hex q lists r l =
      let one = claim_one hex q n lists r l in
      let rest = drained n hex ((claim (λ id. false) hex q).1) lists one.1.1 one.1.0 in
      (rw one.0 rest.0, rest.1)

  -- Claims drain the queue: if every pending file can be read and no other process takes files, as many
  -- claims as there are pending files each return a message, they leave nothing pending, and the claim
  -- after them returns none. This supposes that the listing names the files of the folder.
  pub claims_drain :
      (hex : String → String) (q : AtomicFileQueue fs)
      → IsListing
      → are_readable q.pending ≡ true
      → let run = claims (length q.pending) hex q in
        (all is_message run.0 ≡ true)
        × ((run.1.pending ≡ []) × ((claim (λ id. false) hex run.1).0 ≡ ok none))
  claims_drain hex q lists r = drained (length q.pending) hex q lists r refl
