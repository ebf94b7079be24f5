-- ===== src/Network.antt =====
-- The matching of a network expectation (`_network_url_matches` and `_network_matches` in
-- dingdongditch/runtime/verifier.py). The detail that is recorded with the result is left out but
-- for its failure reason. What `urlsplit` reads of a URL is a parameter.
pub mod Unique
mod Tests
use dingdongditch.Prelude.{
  ℕ, ◌+◌, ◌-◌, String, Bool, true, false, not, ◌&&◌, ◌||◌, Option, none, some, List, [], ◌∷◌, ◌++◌,
  leb, ltb, nat_beq, is_some, is_empty, if◌then◌else◌, length, any,
}
use dingdongditch.Prelude.Equality.{◌==◌, string_eq, option_eq, nat_eq}

pub data NetworkUrlMatchMode : Type 0 where
  contains exact path_exact path_contains : NetworkUrlMatchMode

-- The network fields of an expectation; the substring is there (it is asserted).
pub record NetworkExpectation : Type 0 where
  pub network_url_substring : String
  pub network_url_match : NetworkUrlMatchMode
  pub network_method : Option String
  pub network_request_observed : Bool
  pub network_response_observed : Option Bool
  pub network_status : Option ℕ
  pub network_max_elapsed_ms : Option ℕ

-- A record of the collector; a key that is missing or of another type is `none`. Of the time of the
-- response, `some none` is a value that is no int.
pub record NetworkRecord : Type 0 where
  pub url : Option String
  pub method : Option String
  pub status : Option ℕ
  pub request_observed : Option Bool
  pub request_observed_at_ms : Option ℕ
  pub response_observed_at_ms : Option (Option ℕ)

pub record Urls : Type 0 where
  -- `urlsplit(value)._replace(query="", fragment="").geturl()` and `urlsplit(value).path`
  pub without_query : String → String
  pub path_of : String → String
  -- `needle in text`
  pub is_within : String → String → Bool

-- `response_required`, once it is known
pub response_required : NetworkExpectation → Bool
response_required e = elim e.network_response_observed [
  | some required ↦ required
  | none ↦ is_some e.network_status || is_some e.network_max_elapsed_ms
]

-- `expectation.network_method and record.get("method") != expectation.network_method`
abbrev pub other_method : Option String → Option String → Bool
other_method none m = false
other_method (some wanted) m = not (wanted == "") && not (m == some wanted)

abbrev pub other_status : Option ℕ → Option ℕ → Bool
other_status none s = false
other_status (some wanted) s = not (s == some wanted)

-- `record.get("request_observed") is not False`
abbrev pub request_seen : NetworkRecord → Bool
request_seen r = elim r.request_observed [ none ↦ true | some observed ↦ observed ]

-- `record.get("response_observed_at_ms")` where it is an int
abbrev pub response_at : NetworkRecord → Option ℕ
response_at r = elim r.response_observed_at_ms [ none ↦ none | some at ↦ at ]

abbrev pub response_seen : NetworkRecord → Bool
response_seen r = is_some (response_at r)

abbrev pub slower : Option ℕ → Option ℕ → ℕ → Bool
slower (some request_at) (some response_at) limit = ltb limit (response_at - request_at)
slower _ _ limit = true

abbrev pub too_slow : Option ℕ → NetworkRecord → Bool
too_slow none r = false
too_slow (some limit) r =
    not (request_seen r) || slower r.request_observed_at_ms (response_at r) limit

abbrev pub event_at : NetworkExpectation → NetworkRecord → Option ℕ
event_at e r = if e.network_request_observed then r.request_observed_at_ms else response_at r

abbrev pub at_or_after : Option ℕ → ℕ → Bool
at_or_after none started = false
at_or_after (some at) started = leb started at

pub record Found : Type 0 where
  pub candidates : List NetworkRecord
  pub matches : List NetworkRecord
  pub post_matches : List NetworkRecord

abbrev pub none_found : Found
none_found = record { candidates = []; matches = []; post_matches = [] }

module _ (urls : Urls) where
  open urls use {without_query, path_of, is_within}

  url_matches : String → NetworkUrlMatchMode → String → Bool
  url_matches needle NetworkUrlMatchMode.contains url = is_within needle (without_query url)
  url_matches needle NetworkUrlMatchMode.exact url = needle == without_query url
  url_matches needle NetworkUrlMatchMode.path_exact url = needle == path_of url
  url_matches needle NetworkUrlMatchMode.path_contains url = is_within needle (path_of url)

  pub network_url_matches : NetworkExpectation → Option String → Bool
  unfolding url_matches
  network_url_matches e none = false
  network_url_matches e (some url) = url_matches e.network_url_substring e.network_url_match url

  -- One round of the loop; every `continue` is a branch that returns.
  pub match_record : NetworkExpectation → ℕ → NetworkRecord → Found → Found
  match_record e started r f =
      if not (network_url_matches e r.url)
      then f
      else if other_method e.network_method r.method
      then f
      else let f1 = record f { candidates = f.candidates ++ r ∷ [] } in
        if e.network_request_observed && not (request_seen r)
        then f1
        else if response_required e && not (response_seen r)
        then f1
        else if not (response_required e) && response_seen r
        then f1
        else if other_status e.network_status r.status
        then f1
        else if too_slow e.network_max_elapsed_ms r
        then f1
        else let f2 = record f1 { matches = f1.matches ++ r ∷ [] } in
          if at_or_after (event_at e r) started
          then record f2 { post_matches = f2.post_matches ++ r ∷ [] }
          else f2

  pub match_records : NetworkExpectation → ℕ → List NetworkRecord → Found → Found
  match_records e started [] f = f
  match_records e started (r ∷ records) f =
      match_records e started records (match_record e started r f)

  failure_reason : NetworkExpectation → Found → String
  failure_reason e f =
      if is_empty f.candidates
      then "no_matching_request"
      else if not (is_empty f.matches)
      then "matching_network_activity_not_post_action"
      else if is_some e.network_status && any (λ r. is_some r.response_observed_at_ms) f.candidates
      then "response_status_mismatch"
      else if response_required e
      then "response_not_observed"
      else "network_assertion_not_satisfied"

  -- The result, and the failure reason if there is one.
  pub network_matches : NetworkExpectation → List NetworkRecord → ℕ → String × Option String
  unfolding failure_reason
  network_matches e records started =
      let f = match_records e started records none_found in
      if ltb 1 (length f.post_matches)
      then ("indeterminate", some "ambiguous_network_evidence")
      else if nat_beq (length f.post_matches) 1
      then ("pass", none)
      else ("fail", some (failure_reason e f))
