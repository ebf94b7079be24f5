-- ===== src/FileQueue/Tests.antt =====
-- A queue of two messages that are texts, one of which was claimed before.
use dingdongditch.Prelude.{String, ◌≡◌, refl, true, false, none, some, [], ◌∷◌, all}
use dingdongditch.Prelude.Equality.{◌==◌, string_eq}
use dingdongditch.Prelude.Raise.{ok, raised}
use dingdongditch.FileQueue.{
  Files, ClaimedMessage, AtomicFileQueue, read_bytes, publish, claim, complete,
}
use dingdongditch.FileQueue.Drain.{claims, is_message, claims_drain}
use dingdongditch.FileQueue.Published.{is_ok, publish_keeps, publish_claimed, complete_once}

abbrev texts : Files
texts = record {
  Payload = String;
  Bytes = String;
  encode = λ payload. payload;
  decode = λ bytes. some bytes;
  sorted = λ ids. ids;
}

abbrev queue : AtomicFileQueue texts
queue = record {
  pending = ("a", "first") ∷ ("b", "second") ∷ [];
  claimed = ("c.7", "third") ∷ [];
  completed = [];
}

abbrev emptied : AtomicFileQueue texts
emptied = record queue { pending = [] }

abbrev claimed_before : ClaimedMessage String
claimed_before = record { message_id = "c"; path = some "c.7"; payload = "third" }

abbrev draw : String → String
draw id = "8"

-- A file that disappears before the move is skipped.
skips :
    (claim (λ id. id == "a") draw queue).0
    ≡ ok (some (record { message_id = "b"; path = some "b.8"; payload = "second" }))
unfolding claim string_eq
skips = refl

taken_name : (publish {fs = texts} "again" (some "a") "9" queue).0 ≡ raised "FileExistsError"
unfolding publish string_eq
taken_name = refl

not_allowed :
    (publish {fs = texts} "again" (some "a/b") "9" queue).0 ≡ raised "invalid queue message_id"
unfolding publish string_eq
not_allowed = refl

published : (publish {fs = texts} "new" (some "n-1") "9" emptied).0 ≡ ok "n-1"
unfolding publish string_eq
published = refl

completed : is_ok ((complete {fs = texts} claimed_before "done" queue).0) ≡ true
unfolding complete string_eq
completed = refl

claims_drain_example :
    (all is_message ((claims texts 2 draw queue).0) ≡ true)
    × ((((claims texts 2 draw queue).1).pending ≡ [])
        × ((claim (λ id. false) draw ((claims texts 2 draw queue).1)).0 ≡ ok none))
claims_drain_example = claims_drain texts draw queue (λ ids id. refl) refl

publish_keeps_example :
    read_bytes "a" ((publish {fs = texts} "again" (some "a") "9" queue).1.pending) ≡ some "first"
unfolding string_eq
publish_keeps_example = publish_keeps texts "again" (some "a") "9" queue "a" "first" refl

publish_claimed_example :
    (claim (λ name. false) draw ((publish {fs = texts} "new" (some "n-1") "9" emptied).1)).0
    ≡ ok (some (record { message_id = "n-1"; path = some "n-1.8"; payload = "new" }))
publish_claimed_example =
    publish_claimed texts "new" (some "n-1") "9" draw emptied "n-1" (λ ids id. refl) (λ p. refl)
      refl published

complete_once_example :
    is_ok (
      (complete {fs = texts} claimed_before "again"
        ((complete {fs = texts} claimed_before "done" queue).1)).0)
    ≡ false
complete_once_example = complete_once texts claimed_before "done" "again" queue refl completed
