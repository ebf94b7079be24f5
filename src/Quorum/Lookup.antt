-- ===== src/Quorum/Lookup.antt =====
-- About the dict of results in `evaluate_quorum` (dingdongditch/contract/quorum.py).
use dingdongditch.Prelude.{
  ◌≤◌, ◌<◌, ◌≡◌, refl, sym, ◌∙◌, String, Bool, not, ◌&&◌, Option, none, some, List, [], ◌∷◌, map,
  arith, ltb, if◌then◌else◌, inl, inr, Bool-cases, length, any, filter, length-filter,
}
use dingdongditch.Prelude.Equality.{◌==◌, contains, string_eq}
use dingdongditch.Evidence.{ExpectationResult}
use dingdongditch.Quorum.{id_of, occurrences, duplicate_ids, find, unique_results}

-- The element of a list of one.
abbrev pub sole {ℓ} : {A : Type ℓ} → List A → Option A
sole (x ∷ []) = some x
sole _ = none

-- The results that are supplied under an id.
abbrev pub supplied_for : String → List ExpectationResult → List ExpectationResult
supplied_for k supplied = filter (λ item. item.expectation_id == k) supplied

any_of_count :
    (k : String) (xs : List ExpectationResult)
    → any (λ item. item.expectation_id == k) xs ≡ ltb 0 (occurrences k xs)
any_of_count k [] = refl
any_of_count k (x ∷ xs) = ground (arith, any_of_count k xs)

-- The ids that a test `f` picks, as a list, contain `k` if `f` picks `k` and some result has it.
contains-picked :
    (f : String → Bool) (k : String) (xs : List ExpectationResult)
    → contains (map id_of (filter (λ item. f item.expectation_id) xs)) k
      ≡ (f k && any (λ item. item.expectation_id == k) xs)
contains-picked f k [] = ground arith
contains-picked f k (x ∷ xs) = ground (arith, contains-picked f k xs)

find-filter :
    (f : String → Bool) (k : String) (xs : List ExpectationResult)
    → find k (filter (λ item. f item.expectation_id) xs) ≡ (if f k then find k xs else none)
find-filter f k [] = ground arith
find-filter f k (x ∷ xs) = ground (arith, find-filter f k xs)

supplied_for_nil :
    (k : String) (xs : List ExpectationResult) → occurrences k xs ≡ 0 → supplied_for k xs ≡ []
supplied_for_nil k [] h = refl
supplied_for_nil k (x ∷ xs) h = ground (arith, supplied_for_nil k xs)

find-sole :
    (k : String) (xs : List ExpectationResult)
    → occurrences k xs ≤ 1
    → find k xs ≡ sole (supplied_for k xs)
find-sole k [] h = refl
find-sole k (x ∷ xs) h = ground (arith, find-sole k xs, supplied_for_nil k xs)

sole_many : (xs : List ExpectationResult) → 1 < length xs → sole xs ≡ none
sole_many [] h = refl
sole_many (x ∷ []) h = absurd (omega arith)
sole_many (x ∷ y ∷ xs) h = refl

not-duplicate :
    (k : String) (xs : List ExpectationResult)
    → not (contains (duplicate_ids xs) k) ≡ not (ltb 1 (occurrences k xs))
not-duplicate k xs =
    ground
      (arith, contains-picked (λ (j : String). ltb 1 (occurrences j xs)) k xs, any_of_count k xs)

-- The dict's entry for an id is the only supplied result of that id, if there is just one.
pub find-unique_results :
    (k : String) (xs : List ExpectationResult)
    → find k (unique_results xs) ≡ sole (supplied_for k xs)
find-unique_results k xs =
    find-filter (λ (j : String). not (contains (duplicate_ids xs) j)) k xs
    ∙ rw (not-duplicate k xs) split
  where
    more : length (supplied_for k xs) ≡ occurrences k xs
    more = length-filter (λ (item : ExpectationResult). item.expectation_id == k) xs

    split : (if not (ltb 1 (occurrences k xs)) then find k xs else none) ≡ sole (supplied_for k xs)
    split = elim (Bool-cases (ltb 1 (occurrences k xs))) [
      | inl many ↦ rw many (sym (sole_many (supplied_for k xs) (ground (arith, more))))
      | inr few ↦ rw few (find-sole k xs (ground arith))
    ]
