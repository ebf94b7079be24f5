-- ===== src/Session/Program.antt =====
-- The calls of a session as programs over its record: what a call returns or raises, and the record
-- that it leaves. An exception keeps what was assigned before it.
use dingdongditch.Prelude.{
  ℕ, ◌+◌, String, Bool, true, false, Option, none, some, List, [], ◌∷◌, if◌then◌else◌,
}
use dingdongditch.Prelude.Equality.{◌==◌, string_eq}
use dingdongditch.ReceiptChain.{Values}
use dingdongditch.Session.{SessionRecord, SessionFailureKind, CommitRejectedReason}

-- `StatefulSessionError`, `TwoPhaseCommitError`, `ValueError`, and what a dispatch raises
pub data Error : Type 0 where
  session_error : SessionFailureKind → Error
  commit_error : CommitRejectedReason → Error
  value_error dispatch_error : Error

pub data Outcome {ℓ} (A : Type ℓ) : Type ℓ where
  returned : A → Outcome A
  raised : Error → Outcome A

-- `d.get(key)`
abbrev pub lookup {ℓ} : {A : Type ℓ} → String → List (String × A) → Option A
lookup key [] = none
lookup key (entry ∷ entries) = if entry.0 == key then some entry.1 else lookup key entries

-- `d[key] = f(d[key])`, where the key is there
abbrev pub adjust {ℓ} : {A : Type ℓ} → String → (A → A) → List (String × A) → List (String × A)
adjust key f [] = []
adjust key f (entry ∷ entries) =
    (if entry.0 == key then (entry.0, f entry.1) else entry) ∷ adjust key f entries

module _ (values : Values) where
  abbrev pub Program {ℓ} : Type ℓ → Type ℓ
  Program A = SessionRecord values → Outcome A × SessionRecord values

  abbrev pub Action : Type 0
  Action = Program (Unit {0})

module _ {values : Values} where
  unfoldable pub after {ℓ κ} :
      {A : Type ℓ} {B : Type κ}
      → Outcome A
      → (A → Program values B)
      → SessionRecord values
      → Outcome B × SessionRecord values
  after (returned a) k s = k a s
  after (raised e) k s = (raised e, s)

  infixl 5 ◌>>=◌ ◌>>◌
  unfoldable pub ◌>>=◌ {ℓ κ} :
      {A : Type ℓ} {B : Type κ} → Program values A → (A → Program values B) → Program values B
  unfolding after
  (m >>= k) s = let ran = m s in after ran.0 k ran.1

  abbrev pub ◌>>◌ {κ} : {B : Type κ} → Action values → Program values B → Program values B
  m >> k = m >>= λ _. k

  unfoldable pub return {ℓ} : {A : Type ℓ} → A → Program values A
  return a s = (returned a, s)

  unfoldable pub raise {ℓ} : {A : Type ℓ} → Error → Program values A
  raise e s = (raised e, s)

  unfoldable pub raise_when : Bool → Error → Action values
  raise_when true e s = (raised e, s)
  raise_when false e s = (returned tt, s)

  -- the record, and an assignment to it
  unfoldable pub read : Program values (SessionRecord values)
  read s = (returned s, s)

  unfoldable pub assign : (SessionRecord values → SessionRecord values) → Action values
  assign f s = (returned tt, f s)

  -- the answers to the next question, or to a number of them
  unfoldable pub ask_many {ℓ} : {A : Type ℓ} → ℕ → (ℕ → A) → Program values A
  ask_many count answer s =
      (returned (answer s.answered), record s { answered = count + s.answered })

  abbrev pub ask {ℓ} : {A : Type ℓ} → (ℕ → A) → Program values A
  ask answer = ask_many 1 answer

  -- `try: m finally: f`
  unfoldable pub finally {ℓ} :
      {A : Type ℓ}
      → Program values A
      → (SessionRecord values → SessionRecord values)
      → Program values A
  finally m f s = let ran = m s in (ran.0, f ran.1)

  -- `try: m except Exception: pass`
  unfoldable pub suppressed : Action values → Action values
  suppressed m s = (returned tt, (m s).1)

  -- the value of an option, or an exception
  unfoldable pub or_raise {ℓ} : {A : Type ℓ} → Option A → Error → Program values A
  unfolding raise return
  or_raise none e = raise e
  or_raise (some a) e = return a
