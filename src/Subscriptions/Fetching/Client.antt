-- ===== src/Subscriptions/Fetching/Client.antt =====
-- NewHTTPFetcher of subscriptions/fetcher.go: the defaults of a client, what it follows and what it
-- tries again. The tries and the redirects themselves are resty's and net/http's.
use target_lib.Base.{
  ℕ, ℤ, pos, negsuc, Bool, true, false, not, ◌&&◌, ◌||◌, Text, text, ◌==◌, Option, none, some,
  is_empty, leb, leb_ℤ, ltb_ℤ, nat_eq, Result, refuse_if, ◌>>◌, if◌then◌else◌,
}
use target_lib.Subscriptions.Fetching.Http.{HttpFetcher}
use target_lib.Subscriptions.Model.{Duration}

pub record HttpFetcherOptions : Type 0 where
  pub has_client : Bool
  pub timeout : Duration
  pub retry_count : ℤ
  pub max_body_bytes : ℤ
  pub user_agent : Text
  pub allow_insecure_http : Bool
  pub disable_retry : Bool

pub record ClientSettings : Type 0 where
  pub timeout : Duration
  pub retries : ℤ
  pub user_agent : Text
  -- Whether its redirects are checked: a client that was given keeps its own policy.
  pub checks_redirects : Bool

abbrev pub or_positive : ℤ → ℤ → ℤ
or_positive n other = if leb_ℤ n (pos 0) then other else n

abbrev pub retries_of : (disabled : Bool) → ℤ → ℤ
retries_of true count = pos 0
retries_of false count = if ltb_ℤ (pos 0) count then count else pos 2

abbrev pub size_of : ℤ → ℕ
size_of (pos n) = n
size_of (negsuc n) = 0

unfoldable pub new_http_fetcher : HttpFetcherOptions → HttpFetcher × ClientSettings
new_http_fetcher o = (
  record {
    max_body_bytes = size_of (or_positive o.max_body_bytes (pos 2097152));
    allow_insecure_http = o.allow_insecure_http;
  },
  record {
    timeout = or_positive o.timeout (pos 30000000000);
    retries = retries_of o.disable_retry o.retry_count;
    user_agent =
        if is_empty o.user_agent then text "TargetLib/experimental-subscriptions" else o.user_agent;
    checks_redirects = not o.has_client;
  },
)

-- The retry condition, of the error or else the status of an answer.
unfoldable pub is_retried : Option ℕ → Bool
is_retried none = true
is_retried (some status) = nat_eq status 429 || leb 500 status

pub data RedirectError : Type 0 where
  too_many_redirects https_downgrade : RedirectError

-- secureRedirectPolicy, of how many requests there were and the scheme of the next.
unfoldable pub secure_redirect_policy :
    (allow_http : Bool) (via : ℕ) (scheme : Text) → Result RedirectError (Unit {0})
secure_redirect_policy allow_http via scheme =
    refuse_if (leb 5 via) too_many_redirects
    >> refuse_if (not allow_http && not (scheme == text "https")) https_downgrade
