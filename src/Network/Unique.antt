-- ===== src/Network/Unique.antt =====
-- About the records that decide `_network_matches` (dingdongditch/runtime/verifier.py).
use dingdongditch.Prelude.{
  ℕ, ◌+◌, ◌<◌, ◌≡◌, ◌≢◌, ◌↔◌, refl, String, Bool, true, false, not, ◌&&◌, ◌||◌, none, List, [], ◌∷◌,
  All, arith, if◌then◌else◌, length, count, length-append,
}
use text.Mathlib.TextEquality.{eq_iff}
use dingdongditch.Prelude.Equality.{string_eq}
use dingdongditch.Network.{
  NetworkExpectation, NetworkRecord, Urls, Found, none_found, response_required, other_method,
  other_status, request_seen, response_seen, too_slow, event_at, at_or_after, network_url_matches,
  match_record, match_records, network_matches,
}

abbrev pub same_bool : Bool → Bool → Bool
same_bool true b = b
same_bool false b = not b

distinct_results :
    (◌≢◌ {A = String} "pass" "indeterminate")
    × (◌≢◌ {A = String} "pass" "fail")
    × (◌≢◌ {A = String} "indeterminate" "fail")
distinct_results = (
  ground (arith, eq_iff "pass" "indeterminate"),
  ground (arith, eq_iff "pass" "fail"),
  ground (arith, eq_iff "indeterminate" "fail"),
)

module _ (urls : Urls) (e : NetworkExpectation) (started : ℕ) where
  -- The record meets every assertion of the expectation, at or after the start of the action.
  abbrev pub proves : NetworkRecord → Bool
  proves r =
      network_url_matches urls e r.url
      && not (other_method e.network_method r.method)
      && (not e.network_request_observed || request_seen r)
      && same_bool (response_seen r) (response_required e)
      && not (other_status e.network_status r.status)
      && not (too_slow e.network_max_elapsed_ms r)
      && at_or_after (event_at e r) started

  match_record_counts :
      (r : NetworkRecord) (f : Found)
      → length (match_record urls e started r f).post_matches
        ≡ length f.post_matches + (if proves r then 1 else 0)
  unfolding match_record
  match_record_counts r f = ground (arith, length-append f.post_matches (r ∷ []))

  match_records-count :
      (records : List NetworkRecord) (f : Found)
      → length (match_records urls e started records f).post_matches
        ≡ length f.post_matches + count proves records
  unfolding match_records
  match_records-count [] f = ground arith
  match_records-count (r ∷ records) f = ground (
    arith,
    match_records-count records (match_record urls e started r f),
    match_record_counts r f,
  )

  -- The result is "pass" exactly when one record proves the expectation, "indeterminate" exactly
  -- when several do, and otherwise "fail".
  pub network_matches_unique :
      (records : List NetworkRecord)
      → let result = (network_matches urls e records started).0 in
        let proofs = count proves records in
        ((result ≡ "pass") ↔ (proofs ≡ 1))
        × ((result ≡ "indeterminate") ↔ (1 < proofs))
        × ((result ≡ "fail") ↔ (proofs ≡ 0))
  unfolding network_matches
  network_matches_unique records =
      ground (arith, match_records-count records none_found, distinct_results)

  answered_count :
      (records : List NetworkRecord)
      → response_required e ≡ false
      → All (λ r. response_seen r ≡ true) records
      → count proves records ≡ 0
  answered_count [] h a = refl
  answered_count (r ∷ records) h a = ground (arith, h, a.0, answered_count records h a.1)

  -- An expectation that says nothing of a response (no response, no status and no duration is
  -- asserted) fails on records that all have a response, even if the request that it asserts is
  -- among them.
  pub unasserted_response_fails :
      (records : List NetworkRecord)
      → e.network_response_observed ≡ none
      → e.network_status ≡ none
      → e.network_max_elapsed_ms ≡ none
      → All (λ r. response_seen r ≡ true) records
      → (network_matches urls e records started).0 ≡ "fail"
  unfolding response_required
  unasserted_response_fails records unasserted no_status no_limit answered =
      (network_matches_unique records).2.1
        (answered_count records (ground (arith, unasserted, no_status, no_limit)) answered)
