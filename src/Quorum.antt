-- ===== src/Quorum.antt =====
-- Verification quorums (dingdongditch/contract/quorum.py): the declared checks, their validation,
-- and the evaluation against the supplied expectation results.
use dingdongditch.Prelude.{
  ℕ, ◌+◌, String, Bool, true, false, not, ◌&&◌, Option, none, some, List, [], ◌∷◌, ◌++◌, map, ltb,
  leb, if◌then◌else◌, length, is_empty, filter, count, take, is_true,
}
use dingdongditch.Prelude.Equality.{Eq, ◌==◌, contains, is_distinct, string_eq}
use dingdongditch.Prelude.Raise.{Result, Checked, ok, raised, raise_if, for_each, ◌>>=◌, ◌>>◌}
use dingdongditch.Verdict.{Verdict, verified, not_verified, indeterminate}
use dingdongditch.Evidence.{ExpectationResult}
pub mod Lookup
pub mod Counts
pub mod Verdicts
mod Tests

pub data Policy : Type 0 where
  all n_of_m : Policy

pub data EvidenceSource : Type 0 where
  dom_state accessibility_state network page_state file_state visual host_callback : EvidenceSource

pub EvidenceSource-discrete : Discrete EvidenceSource
EvidenceSource-discrete = hlevel

instance unfoldable pub source_eq : Eq EvidenceSource
source_eq = record { dec = EvidenceSource-discrete }

-- `_SOURCE_EXPECTATION_TYPES.get(source)`
abbrev pub source_types : EvidenceSource → Option (List String)
source_types dom_state =
    some ("element_exists" ∷ "element_visible" ∷ "element_in_viewport" ∷ "text" ∷ "attribute" ∷ [])
source_types network = some ("network" ∷ [])
source_types page_state = some ("url" ∷ [])
source_types file_state = some ("upload_file_names" ∷ "upload_file_count" ∷ [])
source_types _ = none

pub record Check : Type 0 where
  pub verifier_id : String
  pub expectation_id : String
  pub evidence_source : EvidenceSource

-- `required` below 1 is refused by `validate`, so a negative number is no different from 0.
pub record Quorum : Type 0 where
  pub policy : Policy
  pub checks : List Check
  pub required : Option ℕ

abbrev is_all : Policy → Bool
is_all all = true
is_all n_of_m = false

abbrev is_host_callback : EvidenceSource → Bool
is_host_callback host_callback = true
is_host_callback _ = false

-- `VerificationCheck.validate`
pub validate_check : Check → Checked
validate_check c = do
  raise_if (c.verifier_id == "") "verification check verifier_id is required"
  raise_if (c.expectation_id == "") "verification check expectation_id is required"
  raise_if (is_host_callback c.evidence_source)
      "host_callback requires a bounded verifier adapter, which is not configured"

-- `_SOURCE_EXPECTATION_TYPES[source]` for a declared type, `none` where the id has no type.
abbrev is_type_of : List String → Option String → Bool
is_type_of types none = false
is_type_of types (some t) = contains types t

-- The source's types, and the mapping of declared types where one is given.
validate_type : Option (List String) → Option (String → Option String) → Check → Checked
validate_type none types c =
    raised "verification quorum evidence source is not supported by this runtime"
validate_type (some allowed) none c = ok tt
validate_type (some allowed) (some type_of) c =
    raise_if (not (is_type_of allowed (type_of c.expectation_id)))
      "verification quorum evidence source does not match its expectation type"

-- One round of the loop over the checks.
validate_one : List String → Option (String → Option String) → Check → Checked
unfolding validate_check validate_type
validate_one declared types c = do
  validate_check c
  raise_if (not (is_empty declared) && not (contains declared c.expectation_id))
      "verification quorum references an undeclared expectation"
  validate_type (source_types c.evidence_source) types c

validate_required : Policy → Option ℕ → ℕ → Checked
validate_required all none n = ok tt
validate_required all (some r) n = raised "all quorum must not set required"
validate_required n_of_m none n = raised "n_of_m quorum required must be between 1 and check count"
validate_required n_of_m (some r) n =
    raise_if (not (leb 1 r && leb r n)) "n_of_m quorum required must be between 1 and check count"

-- `VerificationQuorum.validate`
unfoldable pub validate : Quorum → List String → Option (String → Option String) → Checked
unfolding validate_one validate_required
validate q declared types = do
  raise_if (is_empty q.checks) "verification quorum requires checks"
  raise_if (ltb 16 (length q.checks)) "verification quorum exceeds bounded check limit"
  raise_if (not (is_distinct (map (λ (c : Check). c.verifier_id) q.checks)))
      "verification quorum verifier_id values must be unique"
  raise_if (not (is_distinct (map (λ (c : Check). c.evidence_source) q.checks)))
      "verification quorum cannot count duplicate evidence sources"
  raise_if (not (is_distinct (map (λ (c : Check). c.expectation_id) q.checks)))
      "verification quorum cannot count one expectation twice"
  for_each (validate_one declared types) q.checks
  validate_required q.policy q.required (length q.checks)

-- `int(self.required)` raises where `required` is `None`; a validated quorum never gets there.
count_required : Policy → Option ℕ → ℕ → Result ℕ
count_required all r n = ok n
count_required n_of_m none n =
    raised "int() argument must be a string, a bytes-like object or a real number, not 'NoneType'"
count_required n_of_m (some r) n = ok r

pub required_count : Quorum → Result ℕ
unfolding count_required
required_count q = count_required q.policy q.required (length q.checks)

pub record Row : Type 0 where
  pub verifier_id : String
  pub expectation_id : String
  pub evidence_source : EvidenceSource
  pub result : String
  pub source_binding_valid : Bool
  pub evidence_refs : List String

pub record QuorumResult : Type 0 where
  pub verdict : Verdict
  pub required : ℕ
  pub achieved : ℕ
  pub checks : List Row
  pub reason : String

abbrev pub id_of : ExpectationResult → String
id_of r = r.expectation_id

-- `sum(other.expectation_id == id for other in supplied)`
abbrev pub occurrences : String → List ExpectationResult → ℕ
occurrences k supplied = count (λ other. other.expectation_id == k) supplied

abbrev pub duplicate_ids : List ExpectationResult → List String
duplicate_ids supplied =
    map id_of (filter (λ item. ltb 1 (occurrences item.expectation_id supplied)) supplied)

-- A look-up by id. The dict comprehension below holds no id twice, so the first entry is the one.
abbrev pub find : String → List ExpectationResult → Option ExpectationResult
find k [] = none
find k (r ∷ rs) = if r.expectation_id == k then some r else find k rs

-- The dict `results`: what is supplied exactly once.
abbrev pub unique_results : List ExpectationResult → List ExpectationResult
unique_results supplied =
    filter (λ item. not (contains (duplicate_ids supplied) item.expectation_id)) supplied

-- `_SOURCE_EXPECTATION_TYPES.get(source, frozenset())`
abbrev pub types_of : EvidenceSource → List String
types_of s = elim (source_types s) [ none ↦ [] | some types ↦ types ]

abbrev pub source_binding_valid : Check → Option ExpectationResult → Bool
source_binding_valid c none = false
source_binding_valid c (some item) =
    contains (types_of c.evidence_source) item.expectation_type && is_true item.freshness_ok

abbrev raw_result : Bool → Option ExpectationResult → String
raw_result true (some item) = item.result
raw_result _ _ = "indeterminate"

abbrev refs_of : Option ExpectationResult → List String
refs_of none = []
refs_of (some item) = take 4 item.evidence_refs

pub record Tally : Type 0 where
  pub passed : ℕ
  pub failed : ℕ
  pub indeterminate_count : ℕ
  pub rows : List Row

abbrev pub make_row : Check → Option ExpectationResult → Bool → String → Row
make_row c item valid result = record {
  verifier_id = c.verifier_id;
  expectation_id = c.expectation_id;
  evidence_source = c.evidence_source;
  result = result;
  source_binding_valid = valid;
  evidence_refs = refs_of item;
}

-- One round of the loop over the checks.
pub tally_check : Option ExpectationResult → Check → Tally → Tally
tally_check item c t =
    let valid = source_binding_valid c item in
    let result = raw_result valid item in
    if result == "pass"
    then record t { passed = t.passed + 1; rows = t.rows ++ make_row c item valid result ∷ [] }
    else if result == "fail"
    then record t { failed = t.failed + 1; rows = t.rows ++ make_row c item valid result ∷ [] }
    else record t {
      indeterminate_count = t.indeterminate_count + 1;
      rows = t.rows ++ make_row c item valid "indeterminate" ∷ [];
    }

pub tally : List ExpectationResult → List Check → Tally → Tally
tally results [] t = t
tally results (c ∷ cs) t = tally results cs (tally_check (find c.expectation_id results) c t)

-- The verdict from the counts, and the reason.
pub decide : Policy → ℕ → Tally → Verdict × String
decide policy required t =
    if leb required t.passed
    then (verified, "declared quorum achieved")
    else if is_all policy && ltb 0 t.failed
    then (not_verified, "an all-required verifier failed")
    else if not (is_all policy) && ltb (t.passed + t.indeterminate_count) required
    then (not_verified, "remaining evidence cannot meet declared quorum")
    else (indeterminate, "declared quorum cannot yet be justified")

abbrev pub no_tally : Tally
no_tally = record { passed = 0; failed = 0; indeterminate_count = 0; rows = [] }

abbrev pub tally_of : Quorum → List ExpectationResult → Tally
tally_of q supplied = tally (unique_results supplied) q.checks no_tally

-- The returned record.
pub conclude : Quorum → ℕ → Tally → QuorumResult
unfolding decide
conclude q required t = record {
  verdict = (decide q.policy required t).0;
  required = required;
  achieved = t.passed;
  checks = t.rows;
  reason = (decide q.policy required t).1;
}

pub evaluate_quorum : Quorum → List ExpectationResult → Result QuorumResult
evaluate_quorum q supplied = do
  validate q [] none
  required ← required_count q
  ok (conclude q required (tally_of q supplied))
