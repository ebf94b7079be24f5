-- ===== src/Quorum/Verdicts.antt =====
-- About the verdict of a quorum (`evaluate_quorum` in dingdongditch/contract/quorum.py).
use dingdongditch.Prelude.{
  ℕ, ◌+◌, ◌≤◌, ◌<◌, ◌≡◌, ◌≢◌, ◌↔◌, Bool, true, false, Option, none, some, List, [], ◌∷◌, arith,
  length, is_empty, count, All, ap, filter, map, length-filter, ◌∙◌, String, ◌⊎◌, inl, inr, refl,
}
use dingdongditch.Prelude.Equality.{is_distinct, is_distinct-filter, string_eq}
use dingdongditch.Prelude.Raise.{Result, Checked, ok, raised}
use dingdongditch.Verdict.{Verdict, verified, not_verified}
use dingdongditch.Evidence.{ExpectationResult}
use dingdongditch.Quorum.{
  Policy, Check, Quorum, QuorumResult, validate, required_count, conclude, tally_of,
  evaluate_quorum, validate_required, count_required, source_eq,
}
use dingdongditch.Quorum.Counts.{passes, fails, tally_of_counts}

-- How many checks must pass: all of them, or the declared number.
abbrev pub needed : Policy → Option ℕ → ℕ → ℕ
needed Policy.all r n = n
needed Policy.n_of_m none n = 0
needed Policy.n_of_m (some r) n = r

abbrev pub needed_by : Quorum → ℕ
needed_by q = needed q.policy q.required (length q.checks)

-- A validated quorum asks for at least one check, and for no more than there are.
needed_bounds :
    (p : Policy) (r : Option ℕ) (n : ℕ)
    → 0 < n
    → validate_required p r n ≡ ok tt
    → (count_required p r n ≡ ok (needed p r n)) × (1 ≤ needed p r n) × (needed p r n ≤ n)
unfolding validate_required count_required
needed_bounds Policy.all r n h v = ground arith
needed_bounds Policy.n_of_m none n h v = cc
needed_bounds Policy.n_of_m (some r) n h v = ground arith

length_pos : (cs : List Check) → is_empty cs ≡ false → 0 < length cs
length_pos [] h = cc
length_pos (c ∷ cs) h = omega arith

valid_needed :
    (q : Quorum)
    → validate q [] none ≡ ok tt
    → (required_count q ≡ ok (needed_by q)) × (1 ≤ needed_by q) × (needed_by q ≤ length q.checks)
unfolding validate required_count
valid_needed q v =
    ground (arith, length_pos q.checks, needed_bounds q.policy q.required (length q.checks))

-- A validated quorum is always evaluated.
evaluated :
    (q : Quorum) (supplied : List ExpectationResult)
    → validate q [] none ≡ ok tt
    → evaluate_quorum q supplied ≡ ok (conclude q (needed_by q) (tally_of q supplied))
unfolding evaluate_quorum
evaluated q supplied v = rw (v, (valid_needed q v).0)

-- A validated quorum returns a result for any evidence. It counts the checks that exactly one
-- supplied result backs, a fresh "pass" of a type that the check's source answers for, and it is
-- VERIFIED exactly when they are as many as the policy asks for (every check, or the declared
-- number, which is never 0).
pub evaluate_quorum_verified :
    (q : Quorum) (supplied : List ExpectationResult)
    → validate q [] none ≡ ok tt
    → (r : QuorumResult) × (evaluate_quorum q supplied ≡ ok r)
      × (r.achieved ≡ count (passes supplied) q.checks)
      × (1 ≤ needed_by q)
      × ((r.verdict ≡ verified) ↔ (needed_by q ≤ r.achieved))
unfolding conclude
evaluate_quorum_verified q supplied v = (
  conclude q (needed_by q) (tally_of q supplied),
  evaluated q supplied v,
  (tally_of_counts q supplied).0,
  (valid_needed q v).1,
  ground arith,
)

checked : (c : Checked) → (c ≡ ok tt) ⊎ ((e : String) × (c ≡ raised e))
checked (ok tt) = inl refl
checked (raised e) = inr (e, refl)

-- A quorum that returns a result was validated.
pub evaluated-valid :
    (q : Quorum) (supplied : List ExpectationResult) (r : QuorumResult)
    → evaluate_quorum q supplied ≡ ok r
    → validate q [] none ≡ ok tt
unfolding evaluate_quorum
evaluated-valid q supplied r h = elim (checked (validate q [] none)) [
  | inl valid ↦ valid
  | inr (e, invalid) ↦ absurd (result_raised e r (rw invalid at h))
]
  where
    result_raised : (e : String) (r : QuorumResult) → Result.raised e ≡ ok r → ⊥
    result_raised e r h = cc

-- Under the policy `all`, a validated quorum is VERIFIED exactly when every check passes,
-- NOT_VERIFIED exactly when some check has a fresh "fail" as its only supplied result, and
-- otherwise INDETERMINATE.
pub evaluate_quorum-all :
    (q : Quorum) (supplied : List ExpectationResult)
    → validate q [] none ≡ ok tt
    → q.policy ≡ Policy.all
    → (r : QuorumResult) × (evaluate_quorum q supplied ≡ ok r)
      × ((r.verdict ≡ verified) ↔ (count (passes supplied) q.checks ≡ length q.checks))
      × ((r.verdict ≡ not_verified) ↔ (0 < count (fails supplied) q.checks))
      × (r.verdict ≢ Verdict.execution_failed)
unfolding conclude
evaluate_quorum-all q supplied v h =
    let counts = tally_of_counts q supplied in
    (
      conclude q (needed_by q) (tally_of q supplied),
      evaluated q supplied v,
      ground (arith, counts),
      ground (arith, counts),
      ground arith,
    )

count_mono :
    (p q : Check → Bool) (cs : List Check)
    → All (λ c. p c ≡ true → q c ≡ true) cs
    → count p cs ≤ count q cs
count_mono p q [] h = omega arith
count_mono p q (c ∷ cs) h = ground (arith, count_mono p q cs h.1)

-- The verdict is NOT_VERIFIED only if too few checks are left that did not fail.
conclude-not_verified :
    (q : Quorum) (supplied : List ExpectationResult)
    → validate q [] none ≡ ok tt
    → (conclude q (needed_by q) (tally_of q supplied)).verdict ≡ not_verified
    → length q.checks < needed_by q + count (fails supplied) q.checks
unfolding conclude
conclude-not_verified q supplied v h = ground (arith, tally_of_counts q supplied)

conclude-verified :
    (q : Quorum) (supplied : List ExpectationResult)
    → (conclude q (needed_by q) (tally_of q supplied)).verdict ≡ verified
    → needed_by q + count (fails supplied) q.checks ≤ length q.checks
unfolding conclude
conclude-verified q supplied h = ground (arith, tally_of_counts q supplied)

conclude-needed :
    (q : Quorum) (supplied : List ExpectationResult)
    → (conclude q (needed_by q) (tally_of q supplied)).verdict ≡ verified
    → needed_by q ≤ count (passes supplied) q.checks
unfolding conclude
conclude-needed q supplied h = ground (arith, tally_of_counts q supplied)

returned :
    (q : Quorum) (supplied : List ExpectationResult) {r : QuorumResult}
    → validate q [] none ≡ ok tt
    → evaluate_quorum q supplied ≡ ok r
    → conclude q (needed_by q) (tally_of q supplied) ≡ r
returned q supplied v e = cc (evaluated q supplied v)

abbrev verdict_of : QuorumResult → Verdict
verdict_of r = r.verdict

-- NOT_VERIFIED is final under either policy: where a validated quorum is NOT_VERIFIED on some
-- evidence, it is not VERIFIED on any evidence under which each check that failed fails again.
pub not_verified_final :
    (q : Quorum) (before after : List ExpectationResult) {r r' : QuorumResult}
    → validate q [] none ≡ ok tt
    → evaluate_quorum q before ≡ ok r
    → r.verdict ≡ not_verified
    → All (λ c. fails before c ≡ true → fails after c ≡ true) q.checks
    → evaluate_quorum q after ≡ ok r'
    → r'.verdict ≢ verified
not_verified_final q before after v e nv keep e' pos = omega (
  arith,
  conclude-not_verified q before v (ap verdict_of (returned q before v e) ∙ nv),
  conclude-verified q after (ap verdict_of (returned q after v e') ∙ pos),
  count_mono (fails before) (fails after) q.checks keep,
)

valid_distinct :
    (q : Quorum)
    → validate q [] none ≡ ok tt
    → (is_distinct (map (λ (c : Check). c.evidence_source) q.checks) ≡ true)
      × (is_distinct (map (λ (c : Check). c.expectation_id) q.checks) ≡ true)
unfolding validate
valid_distinct q v = ground arith

-- The checks that a verdict of VERIFIED counts draw on pairwise different evidence sources and on
-- pairwise different expectations, and are at least as many as the policy asks for.
pub verified_independent :
    (q : Quorum) (supplied : List ExpectationResult) {r : QuorumResult}
    → validate q [] none ≡ ok tt
    → evaluate_quorum q supplied ≡ ok r
    → r.verdict ≡ verified
    → let backed = filter (passes supplied) q.checks in
      (needed_by q ≤ length backed)
      × (is_distinct (map (λ (c : Check). c.evidence_source) backed) ≡ true)
      × (is_distinct (map (λ (c : Check). c.expectation_id) backed) ≡ true)
verified_independent q supplied v e pos =
    let backs = passes supplied in
    let (sources, ids) = valid_distinct q v in
    let enough = conclude-needed q supplied (ap verdict_of (returned q supplied v e) ∙ pos) in
    (
      omega (arith, enough, length-filter backs q.checks),
      is_distinct-filter (λ (c : Check). c.evidence_source) backs q.checks sources,
      is_distinct-filter (λ (c : Check). c.expectation_id) backs q.checks ids,
    )
