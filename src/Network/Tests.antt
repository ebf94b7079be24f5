-- ===== src/Network/Tests.antt =====
-- Records of one request, with its response.
use dingdongditch.Prelude.{◌<◌, ◌≡◌, ◌↔◌, refl, true, none, some, [], ◌∷◌, count}
use dingdongditch.Prelude.Equality.{◌==◌, string_eq}
use dingdongditch.Network.{
  NetworkUrlMatchMode, NetworkExpectation, NetworkRecord, Urls, network_matches,
}
use dingdongditch.Network.Unique.{proves, network_matches_unique, unasserted_response_fails}

-- URLs without a query, each its own path.
abbrev plain : Urls
plain = record {
  without_query = λ url. url;
  path_of = λ url. url;
  is_within = λ needle url. needle == url;
}

abbrev saved : NetworkRecord
saved = record {
  url = some "/api/save";
  method = some "POST";
  status = some 200;
  request_observed = some true;
  request_observed_at_ms = some 101;
  response_observed_at_ms = some (some 106);
}

abbrev asserts_status : NetworkExpectation
asserts_status = record {
  network_url_substring = "/api/save";
  network_url_match = NetworkUrlMatchMode.contains;
  network_method = some "POST";
  network_request_observed = true;
  network_response_observed = none;
  network_status = some 200;
  network_max_elapsed_ms = none;
}

abbrev asserts_request : NetworkExpectation
asserts_request = record asserts_status { network_status = none }

network_matches_unique_example :
    let result = (network_matches plain asserts_status (saved ∷ []) 100).0 in
    let proofs = count (proves plain asserts_status 100) (saved ∷ []) in
    ((result ≡ "pass") ↔ (proofs ≡ 1))
    × ((result ≡ "indeterminate") ↔ (1 < proofs))
    × ((result ≡ "fail") ↔ (proofs ≡ 0))
network_matches_unique_example = network_matches_unique plain asserts_status 100 (saved ∷ [])

unasserted_response_fails_example :
    (network_matches plain asserts_request (saved ∷ []) 100).0 ≡ "fail"
unasserted_response_fails_example =
    unasserted_response_fails plain asserts_request 100 (saved ∷ []) refl refl refl (refl, tt)
