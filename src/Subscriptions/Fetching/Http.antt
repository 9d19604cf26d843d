-- ===== src/Subscriptions/Fetching/Http.antt =====
-- HTTPFetcher of subscriptions/fetcher.go: the checks before a request, what is made of a response,
-- and the metadata in its headers. Bodies are lists of bytes.
use target_lib.Base.{
  List, [], ◌∷◌, Option, none, some, ℕ, suc, Text, text, ◌==◌, Bool, true, false, not, Result, ok,
  err, ℤ, pos, negsuc, ltb, leb, ◌&&◌, ◌||◌, is_empty, if◌then◌else◌, ◌-◌, ◌*◌, ◌%◌, split,
  trim_space, to_lower, nat_eq, length, take, refuse_if, ◌++◌, ◌>>=◌, ◌>>◌, cut_prefix,
}
use target_lib.Subscriptions.Model.{Subscription, Duration, Time}
use target_lib.Subscriptions.Fetching.{FetchResponse, cut}

-- What request.Get returns of a response: the status, the headers by name, and the bytes of the
-- body up to its end or to the failure of a read.
pub record HttpResponse : Type 0 where
  pub status : ℕ
  pub header : Text → Text
  pub received : List ℕ
  pub broken : Bool

-- The request: the URL and the headers that Fetch sets, in order.
pub record HttpRequest : Type 0 where
  pub url : Text
  pub headers : List (Text × Text)

-- url.ParseRequestURI (scheme and host), the client with its retries, the conversion of bytes to a
-- string, strconv.ParseInt, base64, and the file name that mime.ParseMediaType finds.
pub record Http : Type 0 where
  pub parse_request_uri : Text → Option (Text × Text)
  pub get : HttpRequest → Option HttpResponse
  pub string_of : List ℕ → Text
  pub parse_int : Text → Option ℤ
  pub decode_base64 : Text → Option Text
  pub filename_of : Text → Option Text

-- The fields of HTTPFetcher beside its client.
pub record HttpFetcher : Type 0 where
  pub max_body_bytes : ℕ
  pub allow_insecure_http : Bool

-- The errors of Fetch.
pub data FetchError : Type 0 where
  invalid_url https_required get_failed read_failed too_large empty_body : FetchError
  bad_status : ℕ → FetchError

-- An int64 that a product of positive numbers leaves.
abbrev pub wrap_int64 : ℕ → ℤ
wrap_int64 n =
    if ltb (n % 18446744073709551616) 9223372036854775808
    then pos (n % 18446744073709551616)
    else negsuc (18446744073709551615 - n % 18446744073709551616)

-- hours <= 0, or the duration of so many hours.
unfoldable pub hours_of : Option ℤ → Duration
hours_of none = pos 0
hours_of (some (negsuc n)) = pos 0
hours_of (some (pos n)) = wrap_int64 (n * 3600000000000)

-- A time in seconds since 1970, the zero time for none.
unfoldable pub expiry_of : Option ℤ → Time
expiry_of none = pos 0
expiry_of (some (negsuc n)) = pos 0
expiry_of (some (pos n)) = pos (n * 1000000000)

-- One header that Fetch sets only if its value is there.
unfoldable pub set_if : Text → Text → List (Text × Text)
set_if key value = if is_empty value then [] else (key, value) ∷ []

unfoldable pub is_success : ℕ → Bool
is_success status = leb 200 status && ltb status 300

module _ (H : Http) where
  unfoldable pub parse_suggested_interval : (Text → Text) → Duration
  parse_suggested_interval header =
      let value = trim_space (header (text "Profile-Update-Interval")) in
      if is_empty value then pos 0 else hours_of (H.parse_int value)

  unfoldable pub expires_in : List Text → Time
  expires_in [] = pos 0
  expires_in (part ∷ more) =
      let rest = expires_in more in
      elim (cut b'=' (trim_space part)) [
        | none ↦ rest
        | some pair ↦
            if to_lower pair.0 == text "expire"
            then expiry_of (H.parse_int (trim_space pair.1))
            else rest
      ]

  unfoldable pub parse_expires_at : (Text → Text) → Time
  parse_expires_at header = expires_in (split b';' (header (text "Subscription-Userinfo")))

  unfoldable pub title_of : Text → Text
  title_of title = elim (cut_prefix (text "base64:") title) [
    | none ↦ title
    | some encoded ↦ elim (H.decode_base64 encoded) [ none ↦ title | some decoded ↦ decoded ]
  ]

  unfoldable pub title_in : Text → Text
  title_in disposition =
      if is_empty disposition
      then []
      else (elim (H.filename_of disposition) [ none ↦ [] | some name ↦ name ])

  unfoldable pub parse_title : (Text → Text) → Text
  parse_title header =
      let title = trim_space (header (text "Profile-Title")) in
      if is_empty title then title_in (header (text "Content-Disposition")) else title_of title

  unfoldable pub fetch_header_metadata : (Text → Text) → FetchResponse
  fetch_header_metadata header = record {
    body = [];
    etag = header (text "ETag");
    last_modified = header (text "Last-Modified");
    user_info = header (text "Subscription-Userinfo");
    not_modified = false;
    suggested_interval = parse_suggested_interval header;
    expires_at = parse_expires_at header;
    title = parse_title header;
    web_page_url = trim_space (header (text "Profile-Web-Page-Url"));
    support_url = trim_space (header (text "Support-Url"));
    moved_permanently_to = trim_space (header (text "Moved-Permanently-To"));
  }

  -- io.ReadAll of the body, limited to one byte more than is allowed: a failure beyond is not met.
  unfoldable pub read_body : ℕ → HttpResponse → Result FetchError (List ℕ)
  read_body limit r =
      refuse_if (r.broken && leb (length r.received) limit) read_failed
      >> ok (take (suc limit) r.received)

  unfoldable pub checked_body : ℕ → HttpResponse → List ℕ → Result FetchError FetchResponse
  checked_body limit r body =
      refuse_if (ltb limit (length body)) too_large
      >> refuse_if (is_empty (trim_space (H.string_of body))) empty_body
      >> ok (record (fetch_header_metadata r.header) { body = body })

  -- Fetch from the response on, for a status that is 304 or not.
  unfoldable pub accept_when : Bool → ℕ → HttpResponse → Result FetchError FetchResponse
  accept_when true limit r = ok (record (fetch_header_metadata r.header) { not_modified = true })
  accept_when false limit r =
      refuse_if (not (is_success r.status)) (bad_status r.status)
      >> (read_body limit r >>= checked_body limit r)

  unfoldable pub accept_response : ℕ → HttpResponse → Result FetchError FetchResponse
  accept_response limit r = accept_when (nat_eq r.status 304) limit r

  abbrev pub answered : Option HttpResponse → Result FetchError HttpResponse
  answered none = err get_failed
  answered (some r) = ok r

  unfoldable pub allowed_scheme : Bool → Text → Bool
  allowed_scheme insecure scheme = (scheme == text "https") || (insecure && (scheme == text "http"))

  unfoldable pub check_url : Bool → Option (Text × Text) → Result FetchError (Unit {0})
  check_url insecure none = err invalid_url
  check_url insecure (some (scheme, host)) =
      refuse_if (is_empty host) invalid_url
      >> refuse_if (not (allowed_scheme insecure scheme)) https_required

  unfoldable pub request_for : Subscription → HttpRequest
  request_for s = record {
    url = s.url;
    headers =
        s.headers
        ++ set_if (text "If-None-Match") s.etag
        ++ set_if (text "If-Modified-Since") s.last_modified;
  }

  unfoldable pub fetch : HttpFetcher → Subscription → Result FetchError FetchResponse
  fetch f s =
      check_url f.allow_insecure_http (H.parse_request_uri s.url)
      >> (answered (H.get (request_for s)) >>= accept_response f.max_body_bytes)
