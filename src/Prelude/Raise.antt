-- ===== src/Prelude/Raise.antt =====
-- A Python call that may raise: its value, or the exception's message. An exception that no
-- handler of the modelled code tells apart is known by its message only.
use Prim.Native.String.{String}
use mathlib.Core.List.{List, [], ◌∷◌}
use mathlib.Core.Bool.{Bool, true, false}

pub data Result {ℓ} (A : Type ℓ) : Type ℓ where
  ok : A → Result A
  raised : String → Result A

-- A check returns nothing, or raises.
abbrev pub Checked : Type 0
Checked = Result (Unit {0})

infixl 5 ◌>>=◌ ◌>>◌
abbrev pub ◌>>=◌ {ℓ κ} : {A : Type ℓ} {B : Type κ} → Result A → (A → Result B) → Result B
ok a >>= f = f a
raised e >>= f = raised e

abbrev pub ◌>>◌ {ℓ} : {B : Type ℓ} → Result (Unit {0}) → Result B → Result B
m >> k = m >>= λ _. k

-- `if c: raise ValueError(e)`
abbrev pub raise_if : Bool → String → Checked
raise_if true e = raised e
raise_if false e = ok tt

-- `for x in xs: f(x)`, where `f` may raise
abbrev pub for_each {ℓ} : {A : Type ℓ} → (A → Checked) → List A → Checked
for_each f [] = ok tt
for_each f (x ∷ xs) = let rest = for_each f xs in f x >>= λ _. rest
