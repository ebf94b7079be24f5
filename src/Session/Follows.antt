-- ===== src/Session/Follows.antt =====
-- Rules for a program that moves a session by steps of the state machine.
use dingdongditch.Prelude.{
  ℕ, ◌+◌, ◌≡◌, refl, sym, Bool, true, false, Option, none, some, if◌then◌else◌,
}
use mathlib.Core.Path.{subst}
use dingdongditch.ReceiptChain.{Values}
use dingdongditch.Session.{SessionRecord, Host}
use dingdongditch.Session.Program.{
  Program, Action, Outcome, returned, raised, Error, after, return, raise, raise_when, read, assign,
  ask_many, or_raise, finally, suppressed, ◌>>=◌,
}
use dingdongditch.Session.Governance.{governance, Step, answers, Steps, stays, ◌▸◌, Steps-trans}

module _ {values : Values} (host : Host values) where
  pub record Follows {ℓ} {A : Type ℓ} (m : Program values A) (s : SessionRecord values)
      : Type 0 where
    pub steps : Steps host (governance host s) (governance host ((m s).1))

  abbrev pub Governed {ℓ} : {A : Type ℓ} → Program values A → Type 0
  Governed m = (s : SessionRecord values) → Follows m s

  abbrev pub asked : ℕ → SessionRecord values → SessionRecord values
  asked n s = record s { answered = n + s.answered }

  module _ {ℓ} {A : Type ℓ} where
    -- a program that the machine does not see
    pub Follows-stay :
        {m : Program values A} {s : SessionRecord values}
        → governance host ((m s).1) ≡ governance host s
        → Follows m s
    Follows-stay {m = m} {s = s} h = record {
      steps = subst (Steps host (governance host s)) (sym h) stays;
    }

    pub Follows-return : (a : A) {s : SessionRecord values} → Follows (return a) s
    unfolding return
    Follows-return a = record { steps = stays }

    pub Follows-raise : (e : Error) {s : SessionRecord values} → Follows {A = A} (raise e) s
    unfolding raise
    Follows-raise e = record { steps = stays }

    pub Follows-raise_or :
        (o : Option A) (e : Error) {s : SessionRecord values} → Follows (or_raise o e) s
    unfolding or_raise
    Follows-raise_or none e = record { steps = stays }
    Follows-raise_or (some a) e = record { steps = stays }

  module _ {ℓ κ} {A : Type ℓ} {B : Type κ} where
    after-Steps :
        (o : Outcome A) (k : A → Program values B) (s : SessionRecord values)
        → ((a : A) → o ≡ returned a → Follows (k a) s)
        → Steps host (governance host s) (governance host ((after o k s).1))
    unfolding after
    after-Steps (returned a) k s q = (q a refl).steps
    after-Steps (raised e) k s q = stays

    pub Follows-bind :
        {m : Program values A} {k : A → Program values B} {s : SessionRecord values}
        → Follows m s
        → ((a : A) → (m s).0 ≡ returned a → Follows (k a) ((m s).1))
        → Follows (m >>= k) s
    unfolding ◌>>=◌
    Follows-bind {m = m} {k = k} {s = s} p q = record {
      steps = Steps-trans host p.steps (after-Steps ((m s).0) k ((m s).1) q);
    }

    -- the same, where the rest follows the machine from every record
    pub Follows-seq :
        {m : Program values A} {k : A → Program values B} {s : SessionRecord values}
        → Follows m s
        → ((a : A) → Governed (k a))
        → Follows (m >>= k) s
    Follows-seq {m = m} {s = s} p q = Follows-bind p (λ a h. q a ((m s).1))

    pub Follows-ask :
        (n : ℕ) (answer : ℕ → A) (k : A → Program values B) {s : SessionRecord values}
        → Follows (k (answer s.answered)) (asked n s)
        → Follows (ask_many n answer >>= k) s
    unfolding ◌>>=◌ after ask_many
    Follows-ask n answer k p = record { steps = answers n ▸ p.steps }

    pub Follows-or_raise :
        {o : Option A} (e : Error) (k : A → Program values B) {s : SessionRecord values}
        → ((a : A) → o ≡ some a → Follows (k a) s)
        → Follows (or_raise o e >>= k) s
    unfolding ◌>>=◌ after or_raise
    Follows-or_raise {o = none} e k p = record { steps = stays }
    Follows-or_raise {o = some a} e k p = record { steps = (p a refl).steps }

  module _ {κ} {B : Type κ} where
    pub Follows-read :
        (k : SessionRecord values → Program values B) {s : SessionRecord values}
        → Follows (k s) s
        → Follows (read >>= k) s
    unfolding ◌>>=◌ after read
    Follows-read k p = record { steps = p.steps }

    -- an assignment that the machine does not see, and one that is a step of it
    pub Follows-assign :
        (f : SessionRecord values → SessionRecord values) (k : Unit {0} → Program values B)
        {s : SessionRecord values}
        → governance host (f s) ≡ governance host s
        → Follows (k tt) (f s)
        → Follows (assign f >>= k) s
    unfolding ◌>>=◌ after assign
    Follows-assign f k {s = s} h p = record {
      steps = Steps-trans host (subst (Steps host (governance host s)) (sym h) stays) p.steps;
    }

    pub Follows-Step :
        (f : SessionRecord values → SessionRecord values) (k : Unit {0} → Program values B)
        {s : SessionRecord values}
        → Step host (governance host s) (governance host (f s))
        → Follows (k tt) (f s)
        → Follows (assign f >>= k) s
    unfolding ◌>>=◌ after assign
    Follows-Step f k p q = record { steps = p ▸ q.steps }

    pub Follows-guard :
        {c : Bool} (e : Error) (k : Unit {0} → Program values B) {s : SessionRecord values}
        → (c ≡ false → Follows (k tt) s)
        → Follows (raise_when c e >>= k) s
    unfolding ◌>>=◌ after raise_when
    Follows-guard {c = true} e k p = record { steps = stays }
    Follows-guard {c = false} e k p = record { steps = (p refl).steps }

    pub Follows-if :
        {c : Bool} {m n : Program values B} {s : SessionRecord values}
        → (c ≡ true → Follows m s)
        → (c ≡ false → Follows n s)
        → Follows (if c then m else n) s
    Follows-if {c = true} p q = p refl
    Follows-if {c = false} p q = q refl

  pub Follows-raise_when :
      (c : Bool) (e : Error) {s : SessionRecord values}
      → Follows (raise_when {values = values} c e) s
  unfolding raise_when
  Follows-raise_when true e = record { steps = stays }
  Follows-raise_when false e = record { steps = stays }

  pub Follows-set :
      (f : SessionRecord values → SessionRecord values) {s : SessionRecord values}
      → governance host (f s) ≡ governance host s
      → Follows (assign f) s
  unfolding assign
  Follows-set f {s = s} h = record { steps = subst (Steps host (governance host s)) (sym h) stays }

  pub Follows-suppressed :
      {m : Action values} {s : SessionRecord values} → Follows m s → Follows (suppressed m) s
  unfolding suppressed
  Follows-suppressed p = record { steps = p.steps }

  pub Follows-finally {ℓ} :
      {A : Type ℓ} (m : Program values A) (f : SessionRecord values → SessionRecord values)
      {s : SessionRecord values}
      → ((t : SessionRecord values) → governance host (f t) ≡ governance host t)
      → Follows m s
      → Follows (finally m f) s
  unfolding finally
  Follows-finally m f {s = s} h p = record {
    steps = subst (Steps host (governance host s)) (sym (h ((m s).1))) p.steps;
  }
