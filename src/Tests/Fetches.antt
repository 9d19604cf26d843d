-- ===== src/Tests/Fetches.antt =====
-- Examples for the HTTP fetcher of subscriptions/fetcher.go.
use target_lib.Base.{
  ◌≡◌, refl, false, [], ◌∷◌, none, some, Text, text, ◌==◌, ok, err, pos, trim_space, arith,
  if◌then◌else◌,
}
use target_lib.Subscriptions.Fetching.{FetchResponse}
use target_lib.Subscriptions.Fetching.Http.{
  Http, HttpResponse, HttpFetcher, fetch, accept_response, accept_when, checked_body, read_body,
  check_url, allowed_scheme, is_success, hours_of, parse_suggested_interval, too_large,
  fetch_header_metadata,
}
use target_lib.Subscriptions.Fetching.Fetched.{
  IsFetched, fetch-IsFetched, parse_suggested_interval-exact,
}
use target_lib.Subscriptions.Update.{no_subscription}

abbrev headers : Text → Text
unfolding text ◌==◌
headers name = if name == text "Profile-Update-Interval" then text " 24 " else []

abbrev answer : HttpResponse
answer = record { status = 200; header = headers; received = b'o' ∷ b'k' ∷ []; broken = false }

-- A client that reads every URL as one of HTTPS and every number as 24.
abbrev http : Http
unfolding text
http = record {
  parse_request_uri = λ u. some (text "https", text "a.example");
  get = λ r. some answer;
  string_of = λ bytes. bytes;
  parse_int = λ t. some (pos 24);
  decode_base64 = λ t. none;
  filename_of = λ t. none;
}

abbrev fetcher : HttpFetcher
fetcher = record { max_body_bytes = 2; allow_insecure_http = false }

-- What the fetcher makes of the answer.
abbrev result : FetchResponse
result = record (fetch_header_metadata http headers) { body = b'o' ∷ b'k' ∷ [] }

fetched : fetch http fetcher no_subscription ≡ ok result
unfolding fetch check_url allowed_scheme accept_response accept_when is_success checked_body
    read_body ◌==◌ text trim_space
fetched = refl

fetch-IsFetched_example : IsFetched http fetcher no_subscription result
fetch-IsFetched_example = fetch-IsFetched http fetcher no_subscription fetched

-- A body of one byte more than is allowed is refused.
too_large_refused :
    fetch http (record fetcher { max_body_bytes = 1 }) no_subscription ≡ err too_large
unfolding fetch check_url allowed_scheme accept_response accept_when is_success checked_body
    read_body ◌==◌ text
too_large_refused = refl

interval_taken : parse_suggested_interval http headers ≡ pos 86400000000000
unfolding text ◌==◌ trim_space
interval_taken = parse_suggested_interval-exact http headers 24 refl refl (ground arith)

-- A suggestion of 5124096 hours comes out as 25 minutes and 26.290448384 seconds.
hours_wrap : hours_of (some (pos 5124096)) ≡ pos 1526290448384
unfolding hours_of
hours_wrap = refl
