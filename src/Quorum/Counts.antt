-- ===== src/Quorum/Counts.antt =====
-- What the loop of `evaluate_quorum` (dingdongditch/contract/quorum.py) counts, by a description
-- that knows no loop and no dict.
use dingdongditch.Prelude.{
  ◌+◌, ◌≡◌, ◌≢◌, String, Bool, false, ◌&&◌, List, [], ◌∷◌, arith, if◌then◌else◌, length, count,
  is_true,
}
use dingdongditch.Prelude.Equality.{◌==◌, contains, string_eq}
use text.Mathlib.TextEquality.{eq_iff}
use dingdongditch.Evidence.{ExpectationResult}
use dingdongditch.Quorum.{
  Check, Quorum, Tally, types_of, find, unique_results, tally_check, tally, tally_of, no_tally,
}
use dingdongditch.Quorum.Lookup.{sole, supplied_for, find-unique_results}

-- A test of the only element of a list; false of any other list.
abbrev pub only {ℓ} : {A : Type ℓ} → (A → Bool) → List A → Bool
only p (x ∷ []) = p x
only p _ = false

-- The check `c` has exactly one supplied result; it is of a type that the check's source class
-- answers for, it is fresh, and it says `word`.
abbrev tests_for : Check → String → ExpectationResult → Bool
tests_for c word item =
    contains (types_of c.evidence_source) item.expectation_type
    && is_true item.freshness_ok
    && item.result == word

abbrev pub says : String → List ExpectationResult → Check → Bool
says word supplied c = only (tests_for c word) (supplied_for c.expectation_id supplied)

abbrev pub passes : List ExpectationResult → Check → Bool
passes = says "pass"

abbrev pub fails : List ExpectationResult → Check → Bool
fails = says "fail"

pass-ne-fail : ◌≢◌ {A = String} "pass" "fail"
pass-ne-fail = ground (arith, eq_iff "pass" "fail")

undecided : ◌≢◌ {A = String} "indeterminate" "pass" × ◌≢◌ {A = String} "indeterminate" "fail"
undecided =
    (ground (arith, eq_iff "indeterminate" "pass"), ground (arith, eq_iff "indeterminate" "fail"))

-- One round of the loop on the only result of a list.
record Counted (c : Check) (t : Tally) (xs : List ExpectationResult) (t' : Tally) : Type 0 where
  by_pass : t'.passed ≡ t.passed + (if only (tests_for c "pass") xs then 1 else 0)
  by_fail : t'.failed ≡ t.failed + (if only (tests_for c "fail") xs then 1 else 0)
  by_all :
      t'.passed + t'.failed + t'.indeterminate_count
      ≡ t.passed + t.failed + t.indeterminate_count + 1

tally_check-Counted :
    (c : Check) (t : Tally) (xs : List ExpectationResult)
    → Counted c t xs (tally_check (sole xs) c t)
unfolding tally_check
tally_check-Counted c t [] = ground (arith, undecided)
tally_check-Counted c t (x ∷ []) = ground (arith, pass-ne-fail, undecided)
tally_check-Counted c t (x ∷ y ∷ xs) = ground (arith, undecided)

-- The loop, from any counts.
record Counts (supplied : List ExpectationResult) (cs : List Check) (t t' : Tally) : Type 0 where
  by_pass : t'.passed ≡ t.passed + count (passes supplied) cs
  by_fail : t'.failed ≡ t.failed + count (fails supplied) cs
  by_all :
      t'.passed + t'.failed + t'.indeterminate_count
      ≡ t.passed + t.failed + t.indeterminate_count + length cs

step :
    (supplied : List ExpectationResult) (c : Check) (t : Tally)
    → Counted c t
        (supplied_for c.expectation_id supplied)
        (tally_check (find c.expectation_id (unique_results supplied)) c t)
step supplied c t = rw find-unique_results (tally_check-Counted c t _)

tally-Counts :
    (supplied : List ExpectationResult) (cs : List Check) (t : Tally)
    → Counts supplied cs t (tally (unique_results supplied) cs t)
unfolding tally
tally-Counts supplied [] t = omega arith
tally-Counts supplied (c ∷ cs) t =
    let next = tally_check (find c.expectation_id (unique_results supplied)) c t in
    ground (arith, step supplied c t, tally-Counts supplied cs next)

-- `passed`, `failed` and `indeterminate` of a whole evaluation.
pub tally_of_counts :
    (q : Quorum) (supplied : List ExpectationResult)
    → let t = tally_of q supplied in
      (t.passed ≡ count (passes supplied) q.checks)
      × (t.failed ≡ count (fails supplied) q.checks)
      × (t.passed + t.failed + t.indeterminate_count ≡ length q.checks)
tally_of_counts q supplied = omega (arith, tally-Counts supplied q.checks no_tally)
