-- ===== src/Tests/Requests.antt =====
-- Examples for the requests and the reading operations of subscriptions/.
use target_lib.Base.{
  ◌≡◌, trim_space, refl, true, false, [], ◌∷◌, map, none, some, Text, text, ◌==◌, All, EachPair,
  contains, Distinct, text_le, ok, pos,
}
use mathlib.Core.List.{Perm}
use target_lib.Profile.{Node, NodePhase}
use target_lib.Subscriptions.Model.{Subscription, AddRequest}
use target_lib.Subscriptions.Store.Memory.{memory_store}
use target_lib.Subscriptions.Coordinator.{Items, World, delivered}
use target_lib.Subscriptions.Normalize.{
  Url, Urls, IsPrinted, normalize_subscription_url, normalize, normalize_trimmed, is_http_url,
  validate_url,
}
use target_lib.Subscriptions.Normalize.Sound.{normalize_subscription_url-IsPrinted}
use target_lib.Subscriptions.Update.{no_subscription}
use target_lib.Subscriptions.Fetching.{default_interval}
use target_lib.Subscriptions.Manager.{
  requested_item, checked_request, list, values, resolved_endpoints, node_pool,
}
use target_lib.Subscriptions.Manager.Requests.{
  IsAccepted, checked_request-IsAccepted, ArePaced, configure_call, perform, perform-ArePaced,
}
use target_lib.Subscriptions.Manager.Views.{
  has_endpoint, resolved_endpoints_set, list_sorted, enabled_ids, node_pool_enabled,
}

abbrev pub https_url : Text → Url
https_url t = record {
  scheme = text "https";
  host = text "a.example";
  printed = t;
  query = λ k. [];
}

-- A parser that takes every text for a URL of one host.
abbrev pub urls : Urls
urls = record {
  parse = λ t. some (https_url t);
  parse_request_uri = λ t. some (https_url t);
  path_unescape = some;
  find_encoded = λ t. [];
  find_plain = λ t. [];
  strip_punctuation = λ t. t;
  strip_decorations = λ t. t;
}

abbrev input : Text
input = text " https://a.example/x "

abbrev url : Text
url = text "https://a.example/x"

input_normalizes : normalize_subscription_url urls input ≡ ok url
unfolding normalize_subscription_url normalize normalize_trimmed trim_space text is_http_url ◌==◌
input_normalizes = refl

normalize_subscription_url-IsPrinted_example : IsPrinted urls url
normalize_subscription_url-IsPrinted_example =
    normalize_subscription_url-IsPrinted urls input url input_normalizes

abbrev request : AddRequest
request = record {
  id = [];
  name = [];
  url = input;
  enabled = true;
  auto_update = true;
  update_interval = pos 0;
  headers = [];
}

abbrev requested : Subscription
requested = requested_item (text "u") url default_interval (pos 9) request

request_passes : checked_request urls (text "u") default_interval (pos 9) request ≡ ok requested
unfolding checked_request normalize_subscription_url normalize normalize_trimmed trim_space text
    is_http_url ◌==◌ validate_url
request_passes = refl

checked_request-IsAccepted_example : IsAccepted urls requested
checked_request-IsAccepted_example =
    checked_request-IsAccepted urls (text "u") default_interval (pos 9) request requested
      request_passes

abbrev node : Node
node = record {
  id = text "n";
  subscription_id = text "s";
  name = text "N";
  type = text "trojan";
  country_code = [];
  server = text "a.example";
  port = pos 443;
  phase = NodePhase.ready;
  error = [];
  outbound_json = [];
  outbound = none;
}

abbrev item : Subscription
item = record no_subscription {
  id = text "s";
  name = text "S";
  enabled = true;
  auto_update = true;
  update_interval = pos 3600000000000;
  profile = record { nodes = node ∷ [] };
  resolved_endpoints = text "10.0.0.2" ∷ text "10.0.0.1" ∷ [];
}

abbrev items : Items
items =
    (text "s", item)
    ∷ (text "t", record item { id = text "t"; enabled = false; profile = record { nodes = [] } })
    ∷ []

abbrev world : World memory_store
world = record {
  items = items;
  store = record { items = map (λ p. p.1) items; metadata = [] };
  published = [];
}

perform-ArePaced_example :
    ArePaced
      (perform memory_store urls delivered none
        (configure_call (text "s") true (pos 900000000000) (pos 9))
        world).0.items
perform-ArePaced_example =
    perform-ArePaced memory_store urls delivered none world (refl, (refl, tt))
      (configure_call (text "s") true (pos 900000000000) (pos 9))

endpoints_listed :
    EachPair (λ a b. text_le a b ≡ true) (resolved_endpoints true items)
    × Distinct (resolved_endpoints true items)
    × ((a : Text) → contains (resolved_endpoints true items) a ≡ has_endpoint true (list items) a)
endpoints_listed = resolved_endpoints_set true items

subscriptions_listed :
    Perm (list items) (values items) × EachPair (λ a b. text_le a.name b.name ≡ true) (list items)
subscriptions_listed = list_sorted items

pool_listed :
    EachPair (λ a b. text_le a.id b.id ≡ true) (node_pool items)
    × All (λ n. contains (enabled_ids (values items)) n.subscription_id ≡ true) (node_pool items)
pool_listed = node_pool_enabled items ((refl, tt), (tt, tt))
