-- ===== src/Session/Ends.antt =====
-- Rules for what holds where a program returns, given what the steps before it keep to.
use dingdongditch.Prelude.{ℕ, Bool, true, false, Option, none, some, if◌then◌else◌}
use dingdongditch.ReceiptChain.{Values}
use dingdongditch.Session.{SessionRecord, Host}
use dingdongditch.Session.Program.{
  Program, Outcome, returned, raised, Error, after, return, raise, read, assign, ask_many, or_raise,
  raise_when, ◌>>=◌,
}
use dingdongditch.Session.Governance.{Governance, governance, Steps}
use dingdongditch.Session.Follows.{Follows, asked}

module _ {values : Values} (host : Host values) where
  -- What holds of what is returned, and nothing of what is raised
  abbrev pub Holds {ℓ} :
      {B : Type ℓ} → (B → SessionRecord values → Type 0) → Outcome B → SessionRecord values → Type 0
  Holds P (returned b) s = P b s
  Holds P (raised e) s = Unit

  pub record Ends {ℓ} {B : Type ℓ} (P : B → SessionRecord values → Type 0) (m : Program values B)
      (s : SessionRecord values) : Type 0 where
    pub ends : Holds P ((m s).0) ((m s).1)

  -- Steps keep to a predicate on the states of the machine.
  pub record Stable (I : Governance host → Type 0) : Type 0 where
    pub keeps : (g h : Governance host) → Steps host g h → I g → I h

  module _ {κ} {B : Type κ} {P : B → SessionRecord values → Type 0} where
    pub Ends-return : (b : B) {s : SessionRecord values} → P b s → Ends P (return b) s
    unfolding return
    Ends-return b p = record { ends = p }

    pub Ends-raise : (e : Error) {s : SessionRecord values} → Ends P (raise e) s
    unfolding raise
    Ends-raise e = record { ends = tt }

    pub Ends-read :
        (k : SessionRecord values → Program values B) {s : SessionRecord values}
        → Ends P (k s) s
        → Ends P (read >>= k) s
    unfolding ◌>>=◌ after read
    Ends-read k p = record { ends = p.ends }

    pub Ends-assign :
        (f : SessionRecord values → SessionRecord values) (k : Unit {0} → Program values B)
        {s : SessionRecord values}
        → Ends P (k tt) (f s)
        → Ends P (assign f >>= k) s
    unfolding ◌>>=◌ after assign
    Ends-assign f k p = record { ends = p.ends }

    pub Ends-guard :
        (c : Bool) (e : Error) (k : Unit {0} → Program values B) {s : SessionRecord values}
        → Ends P (k tt) s
        → Ends P (raise_when c e >>= k) s
    unfolding ◌>>=◌ after raise_when
    Ends-guard true e k p = record { ends = tt }
    Ends-guard false e k p = record { ends = p.ends }

    pub Ends-if :
        (c : Bool) (m n : Program values B) {s : SessionRecord values}
        → Ends P m s
        → Ends P n s
        → Ends P (if c then m else n) s
    Ends-if true m n p q = p
    Ends-if false m n p q = q

    module _ {ℓ} {A : Type ℓ} where
      after-Holds :
          (o : Outcome A) (k : A → Program values B) (s : SessionRecord values)
          → ((a : A) → Ends P (k a) s)
          → Holds P ((after o k s).0) ((after o k s).1)
      unfolding after
      after-Holds (returned a) k s q = (q a).ends
      after-Holds (raised e) k s q = tt

      -- After a program that follows the machine, what its steps keep to still holds.
      pub Ends-bind :
          {I : Governance host → Type 0} (stable : Stable I) (m : Program values A)
          (k : A → Program values B) {s : SessionRecord values}
          → Follows host m s
          → I (governance host s)
          → ((a : A) → I (governance host ((m s).1)) → Ends P (k a) ((m s).1))
          → Ends P (m >>= k) s
      unfolding ◌>>=◌
      Ends-bind stable m k {s = s} p w q = record {
        ends = after-Holds ((m s).0) k ((m s).1) (λ a. q a (stable.keeps _ _ p.steps w));
      }

      pub Ends-ask :
          (n : ℕ) (answer : ℕ → A) (k : A → Program values B) {s : SessionRecord values}
          → Ends P (k (answer s.answered)) (asked host n s)
          → Ends P (ask_many n answer >>= k) s
      unfolding ◌>>=◌ after ask_many
      Ends-ask n answer k p = record { ends = p.ends }

      pub Ends-or_raise :
          (o : Option A) (e : Error) (k : A → Program values B) {s : SessionRecord values}
          → ((a : A) → Ends P (k a) s)
          → Ends P (or_raise o e >>= k) s
      unfolding ◌>>=◌ after or_raise
      Ends-or_raise none e k p = record { ends = tt }
      Ends-or_raise (some a) e k p = record { ends = (p a).ends }
