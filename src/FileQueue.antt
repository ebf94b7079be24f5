-- ===== src/FileQueue.antt =====
-- The queue of files (`AtomicFileQueue` in runtime/file_queue.py): a folder of pending messages, one of
-- claimed ones and one of results. A folder is the list of its files, and a file is its stem with its
-- bytes; the temporary file of a publication is left out, since no listing names it.
pub mod Drain
pub mod Published
mod Tests
use Prim.Native.String.{[] as []ˢ, ◌∷◌ as ◌∷ˢ◌, ◌++◌ as ◌++ˢ◌}
use text.Mathlib.Text.{find?}
use dingdongditch.Prelude.{
  String, Bool, true, false, not, ◌||◌, Option, none, some, List, [], ◌∷◌, if◌then◌else◌, is_some,
  map,
}
use dingdongditch.Prelude.Equality.{◌==◌, string_eq}
use dingdongditch.Prelude.Raise.{Result, ok, raised}

-- What the queue asks of libraries: `json.dumps` and its reading back, and
-- `sorted(pending.glob("*.json"))` on the stems of the folder.
pub record Files : Type 1 where
  pub Payload : Type 0
  pub Bytes : Type 0
  pub encode : Payload → Bytes
  pub decode : Bytes → Option Payload
  pub sorted : List String → List String

-- A message's `path` is the stem of a file in the folder of claimed ones, or `none` elsewhere.
pub record ClaimedMessage (Payload : Type 0) : Type 0 where
  pub message_id : String
  pub path : Option String
  pub payload : Payload

-- The bytes of a file, and the folder without it
abbrev pub read_bytes {ℓ} : {A : Type ℓ} → String → List (String × A) → Option A
read_bytes name [] = none
read_bytes name (file ∷ files) = if name == file.0 then some file.1 else read_bytes name files

abbrev pub without {ℓ} : {A : Type ℓ} → String → List (String × A) → List (String × A)
without name [] = []
without name (file ∷ files) =
    let rest = without name files in if name == file.0 then files else file ∷ rest

-- A write or a move that replaces what had the name
abbrev pub replace {ℓ} : {A : Type ℓ} → String → A → List (String × A) → List (String × A)
replace name bytes files = (name, bytes) ∷ without name files

-- `message_id or uuid.uuid4().hex`
abbrev pub id_or : Option String → String → String
id_or none hex = hex
id_or (some id) hex = if id == "" then hex else id

-- `any(ch not in "abc..." for ch in message_id)`
abbrev pub has_other : String → Bool
has_other []ˢ = false
has_other (ch ∷ˢ rest) =
    not (
      is_some
        (find? "abcdefghijklmnopqrstuvwxyzABCDEFGHIJKLMNOPQRSTUVWXYZ0123456789-_" (ch ∷ˢ []ˢ)))
    || has_other rest

module _ (fs : Files) where
  pub record AtomicFileQueue : Type 0 where
    pub pending : List (String × fs.Bytes)
    pub claimed : List (String × fs.Bytes)
    pub completed : List (String × fs.Bytes)

module _ {fs : Files} where
  -- `os.link` raises where the destination exists.
  abbrev pub link :
      String
      → fs.Payload
      → Option fs.Bytes
      → AtomicFileQueue fs
      → Result String × AtomicFileQueue fs
  link id payload (some bytes) q = (raised "FileExistsError", q)
  link id payload none q = (ok id, record q { pending = (id, fs.encode payload) ∷ q.pending })

  abbrev pub publish_as :
      String → fs.Payload → AtomicFileQueue fs → Result String × AtomicFileQueue fs
  publish_as id payload q =
      if id == "" || has_other id
      then (raised "invalid queue message_id", q)
      else link id payload (read_bytes id q.pending) q

  -- `hex` is what `uuid.uuid4()` draws.
  unfoldable publish :
      fs.Payload → Option String → String → AtomicFileQueue fs → Result String × AtomicFileQueue fs
  publish payload message_id hex q = publish_as (id_or message_id hex) payload q

  -- `read_published_json(pending)`: it raises where the file is absent or not readable.
  abbrev pub read_message : String → AtomicFileQueue fs → Option fs.Payload
  read_message id q = decode_bytes (read_bytes id q.pending)
    where
      decode_bytes : Option fs.Bytes → Option fs.Payload
      decode_bytes none = none
      decode_bytes (some bytes) = fs.decode bytes

  -- `os.replace(pending, claimed)`
  abbrev pub move :
      String
      → String
      → fs.Payload
      → Option fs.Bytes
      → AtomicFileQueue fs
      → Option (ClaimedMessage fs.Payload × AtomicFileQueue fs)
  move id name payload none q = none
  move id name payload (some bytes) q = some (
    record { message_id = id; path = some name; payload = payload },
    record q { pending = without id q.pending; claimed = replace name bytes q.claimed },
  )

  -- Another process takes a file away, if it does.
  abbrev pub disturb : (String → Bool) → String → AtomicFileQueue fs → AtomicFileQueue fs
  disturb taken id q = record q { pending = if taken id then without id q.pending else q.pending }

  -- `except FileNotFoundError: continue`
  abbrev pub or_continue :
      Option (ClaimedMessage fs.Payload × AtomicFileQueue fs)
      → Result (Option (ClaimedMessage fs.Payload)) × AtomicFileQueue fs
      → Result (Option (ClaimedMessage fs.Payload)) × AtomicFileQueue fs
  or_continue none rest = rest
  or_continue (some (message, q)) rest = (ok (some message), q)

  abbrev pub claim_read :
      Option fs.Payload
      → String
      → String
      → AtomicFileQueue fs
      → Result (Option (ClaimedMessage fs.Payload)) × AtomicFileQueue fs
      → Result (Option (ClaimedMessage fs.Payload)) × AtomicFileQueue fs
  claim_read none id name q rest = (raised "PublicationUnavailableError", q)
  claim_read (some payload) id name q rest =
      or_continue (move id name payload (read_bytes id q.pending) q) rest

  abbrev pub claim_each :
      (String → Bool)
      → (String → String)
      → List String
      → AtomicFileQueue fs
      → Result (Option (ClaimedMessage fs.Payload)) × AtomicFileQueue fs
  claim_each taken hex [] q = (ok none, q)
  claim_each taken hex (id ∷ ids) q =
      let rest = claim_each taken hex ids (disturb taken id q) in
      claim_read (read_message id q) id (id ++ˢ ("." ++ˢ hex id)) (disturb taken id q) rest

  -- `taken` are the files that disappear between the reading and the move, which the lease of the
  -- claim does not exclude, and `hex` is what `uuid.uuid4()` draws for each file.
  unfoldable claim :
      (String → Bool)
      → (String → String)
      → AtomicFileQueue fs
      → Result (Option (ClaimedMessage fs.Payload)) × AtomicFileQueue fs
  claim taken hex q = claim_each taken hex (fs.sorted (map (λ file. file.0) q.pending)) q

  abbrev pub complete_file :
      Option fs.Bytes
      → ClaimedMessage fs.Payload
      → String
      → fs.Payload
      → AtomicFileQueue fs
      → Result String × AtomicFileQueue fs
  complete_file none message name result q = (raised "queue claim is not owned by this queue", q)
  complete_file (some bytes) message name result q = (
    ok message.message_id,
    record q {
      completed = replace message.message_id (fs.encode result) q.completed;
      claimed = without name q.claimed;
    },
  )

  abbrev pub complete_at :
      Option String
      → ClaimedMessage fs.Payload
      → fs.Payload
      → AtomicFileQueue fs
      → Result String × AtomicFileQueue fs
  complete_at none message result q = (raised "queue claim is not owned by this queue", q)
  complete_at (some name) message result q =
      complete_file (read_bytes name q.claimed) message name result q

  unfoldable complete :
      ClaimedMessage fs.Payload
      → fs.Payload
      → AtomicFileQueue fs
      → Result String × AtomicFileQueue fs
  complete message result q = complete_at message.path message result q
