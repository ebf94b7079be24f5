-- ===== src/Prelude/Equality.antt =====
-- Python's `==` and `in`, for every type whose equality can be decided.
use mathlib.Core.Logic.{ite, dite}
use mathlib.Core.Path.{◌≡◌, refl, ap}
use mathlib.Core.Bool.{Bool, true, false, ◌||◌, ◌&&◌, not, Bool-discrete}
use mathlib.Core.Option.{Option, none, some, none-ne-some, some-ne-none, some-injective}
use mathlib.Core.List.{List, [], ◌∷◌, ◌++◌, map}
use native.Mathlib.Decide.{ℕ_discrete}
use native.Mathlib.Omega.{arith}
use Prim.Native.Nat.{ℕ}
use Prim.Native.String.{String}
use text.Mathlib.Text
use dingdongditch.Prelude.Lists.{filter}
use text.Mathlib.TextEquality.{eq_iff}

pub record Eq {ℓ} (A : Type ℓ) : Type ℓ where
  pub dec : Discrete A

module _ {ℓ} {A : Type ℓ} ⦃e : Eq A⦄ where
  infix 50 ◌==◌
  abbrev pub ◌==◌ : A → A → Bool
  a == b = ite (e.dec a b) true false

  abbrev pub contains : List A → A → Bool
  contains [] a = false
  contains (x ∷ xs) a = a == x || contains xs a

  -- `len(xs) == len(set(xs))`
  abbrev pub is_distinct : List A → Bool
  is_distinct [] = true
  is_distinct (x ∷ xs) = not (contains xs x) && is_distinct xs

  pub ==_refl : (a : A) → (a == a) ≡ true
  ==_refl a = ground arith

  pub ==→eq : (a b : A) → (a == b) ≡ true → a ≡ b
  ==→eq a b h = ground arith

  pub contains-append :
      (xs ys : List A) (a : A) → contains (xs ++ ys) a ≡ (contains xs a || contains ys a)
  contains-append [] ys a = refl
  contains-append (x ∷ xs) ys a = ground (arith, contains-append xs ys a)

  pub is_distinct-snoc :
      (xs : List A) (a : A)
      → is_distinct xs ≡ true
      → contains xs a ≡ false
      → is_distinct (xs ++ a ∷ []) ≡ true
  is_distinct-snoc [] a h new = refl
  is_distinct-snoc (x ∷ xs) a h new =
      ground (arith, is_distinct-snoc xs a, contains-append xs (a ∷ []) x)

  -- A selection of a list repeats nothing under `f` if the list does not.
  contains-filter :
      {B : Type ℓ} (f : B → A) (p : B → Bool) (a : A) (xs : List B)
      → contains (map f xs) a ≡ false
      → contains (map f (filter p xs)) a ≡ false
  contains-filter f p a [] h = refl
  contains-filter f p a (x ∷ xs) h = ground (arith, contains-filter f p a xs)

  pub is_distinct-filter :
      {B : Type ℓ} (f : B → A) (p : B → Bool) (xs : List B)
      → is_distinct (map f xs) ≡ true
      → is_distinct (map f (filter p xs)) ≡ true
  is_distinct-filter f p [] h = refl
  is_distinct-filter f p (x ∷ xs) h =
      ground (arith, is_distinct-filter f p xs, contains-filter f p (f x) xs)

  option_dec : Discrete (Option A)
  option_dec none none = yes refl
  option_dec none (some b) = no (none-ne-some b)
  option_dec (some a) none = no (some-ne-none a)
  option_dec (some a) (some b) =
      dite (e.dec a b) (λ p. yes (ap some p)) (λ n. no (λ p. n (some-injective a b p)))

  instance unfoldable pub option_eq : Eq (Option A)
  unfolding option_dec
  option_eq = record { dec = option_dec }

-- Shut in proofs, where a split on `s == t` yields the equation or its negation.
instance unfoldable pub string_eq : Eq String
string_eq = record {
  dec = λ s t.
      dite (Bool-discrete (Text.◌==◌ s t) true) (λ same. yes ((eq_iff s t).0 same))
        (λ differ. no (λ p. differ ((eq_iff s t).1 p)));
}

instance unfoldable pub nat_eq : Eq ℕ
unfolding ℕ_discrete
nat_eq = record { dec = ℕ_discrete }
