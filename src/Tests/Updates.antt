-- ===== src/Tests/Updates.antt =====
-- Examples for the coordinator, the stores and the updates of subscriptions/, and for profile/.
use target_lib.Base.{
  ◌≡◌, ◌≢◌, refl, true, false, List, [], ◌∷◌, ◌++◌, map, none, some, Text, text, ◌==◌, EachPair,
  contains, Distinct, text_le, sort_by, ok, pos, leb_ℤ,
}
use target_lib.Profile.{Node, NodePhase, Profile}
use target_lib.Profile.Identity.{
  Digest, with_source, claim_nodes, identity_of, delete_key, IsScoped, with_source-IsScoped,
  with_source_twice,
}
use target_lib.Subscriptions.Model.{Status, Subscription, cancelled, UpdateStage, lookup}
use target_lib.Subscriptions.Store.{Write, written}
use target_lib.Subscriptions.Store.Memory.{
  MemoryStore, memory_store, stored, update, Valid, get_metadata, noted, memory-update, find,
}
use target_lib.Subscriptions.Coordinator.{World, delivered, run_command, apply_mutation}
use target_lib.Subscriptions.Coordinator.Commands.{
  build_of, remove_item, rename_item, load_items, commit_item, remove,
}
use target_lib.Subscriptions.Coordinator.Sync.{Steps-Synced, stop, step, Synced, run_command-Synced}
use target_lib.Subscriptions.Maps.{AllItems}
use target_lib.Subscriptions.Coordinator.Loading.{IsLoaded, load_items-IsLoaded}
use target_lib.Subscriptions.Coordinator.Failure.{undone, run_command-undone}
use target_lib.Subscriptions.Update.{PathTaken, no_subscription}
use target_lib.Subscriptions.Fetching.{
  Services, FetchResponse, minimum_interval, apply_header_metadata, resolve_endpoints,
}
use target_lib.Subscriptions.Update
use target_lib.Subscriptions.Update.Outcome.{Ended, update-Ended, update_revives}
use target_lib.Subscriptions.Fetching.Endpoints.{
  all_addresses, resolve_endpoints_set, apply_header_metadata-interval,
}

abbrev pub digest : Digest
digest = record {
  unmarshal = λ s. some ((text "tag", s) ∷ (text "server", s) ∷ []);
  marshal = λ m. text "m" ++ (elim m [ [] ↦ [] | p ∷ ps ↦ p.1 ]);
  sha256_hex = λ s. s;
}

abbrev pub node_of : Text → Node
node_of server = record {
  id = text "old";
  subscription_id = [];
  name = server;
  type = text "trojan";
  country_code = [];
  server = server;
  port = pos 443;
  phase = NodePhase.ready;
  error = [];
  outbound_json = server;
  outbound = none;
}

abbrev pub nodes : List Node
nodes = node_of (text "b.example") ∷ node_of (text "a.example") ∷ node_of (text "b.example") ∷ []

abbrev pub profile : Profile
profile = record { nodes = nodes }

-- Of the three nodes two have the same settings.
two_claimed :
    map (λ n. n.name) (with_source digest (text "s") profile).nodes
    ≡ text "a.example" ∷ text "b.example" ∷ []
unfolding with_source sort_by claim_nodes identity_of contains ◌==◌ text delete_key text_le
two_claimed = refl

with_source-IsScoped_example : IsScoped digest (text "s") (with_source digest (text "s") profile)
with_source-IsScoped_example = with_source-IsScoped digest (text "s") profile

with_source_twice_example :
    with_source digest (text "s") (with_source digest (text "s") profile)
    ≡ with_source digest (text "s") profile
with_source_twice_example = with_source_twice digest (text "s") profile

abbrev pub item : Subscription
item = record no_subscription {
  id = text "s";
  name = text "S";
  url = text "https://a.example";
  enabled = true;
  auto_update = true;
  update_interval = pos 3600000000000;
}

abbrev pub memory : MemoryStore
memory = record { items = item ∷ []; metadata = [] }

memory-update_example :
    (t : MemoryStore) × (update none memory (Write.delete (text "s")) ≡ ok t)
    × Valid t
    × ((id : Text) → stored t id ≡ written (Write.delete (text "s")) id (stored memory id))
    × ((k : Text)
        → get_metadata t.metadata k
          ≡ noted (Write.delete (text "s")) k (get_metadata memory.metadata k))
unfolding contains
memory-update_example = memory-update memory (Write.delete (text "s")) (refl, tt)

abbrev pub world : World memory_store
world = record { items = (text "s", item) ∷ []; store = memory; published = [] }

world-Synced : Synced memory_store world
unfolding contains lookup find stored
world-Synced = record { valid = (refl, tt); keyed = (refl, tt); saved = λ id. refl }

run_command-Synced_example :
    Synced memory_store
      (run_command memory_store none
        (build_of digest (commit_item (record item { name = text "T" }) item))
        world).0
unfolding stored find ◌==◌ text
run_command-Synced_example =
    run_command-Synced memory_store none world world-Synced digest
      (commit_item (record item { name = text "T" }) item) (refl, refl)

-- Renamed, and then removed.
Steps-Synced_example :
    Synced memory_store
      (run_command memory_store none
        (build_of digest (remove_item (text "s")))
        (run_command memory_store none
          (build_of digest (rename_item (text "s") (text "T")))
          world).0).0
Steps-Synced_example =
    Steps-Synced memory_store digest world _
      (step none (rename_item (text "s") (text "T")) world _ tt
        (step none (remove_item (text "s")) _ _ tt (stop _)))
      world-Synced

load_items-IsLoaded_example :
    AllItems
      (IsLoaded digest)
      (load_items digest [] (record item { status = Status.updating } ∷ no_subscription ∷ []))
load_items-IsLoaded_example =
    load_items-IsLoaded digest (record item { status = Status.updating } ∷ no_subscription ∷ [])

-- Under a context that has ended the store refuses, and the item stays.
run_command-undone_example :
    (run_command memory_store (some cancelled) (build_of digest (remove_item (text "s"))) world).0
    ≡ undone memory_store (remove_item (text "s")) world
unfolding run_command remove lookup ◌==◌ text apply_mutation update
run_command-undone_example =
    run_command-undone memory_store (some cancelled) digest (remove_item (text "s")) world cancelled
      refl

abbrev pub response : FetchResponse
response = record {
  body = text "{}";
  etag = text "e1";
  last_modified = [];
  user_info = [];
  not_modified = false;
  suggested_interval = pos 60000000000;
  expires_at = pos 0;
  title = [];
  web_page_url = [];
  support_url = [];
  moved_permanently_to = [];
}

-- A provider that answers with the nodes above; b.example resolves to two addresses.
abbrev pub services : Services
services = record {
  fetch = λ s. ok response;
  parse = λ body. ok (record { profile = profile; nodes_hash = text "h" });
  parse_addr = λ a. none;
  lookup_net_ip = λ name. some (name ∷ text "10.0.0.1" ∷ []);
  parse_int = λ t. pos 7;
  digest = digest;
}

abbrev pub path : (UpdateStage → World memory_store → World memory_store) → PathTaken memory_store
path others = record {
  services = services;
  started = pos 1;
  updated_at = pos 2;
  ended = pos 3;
  deliver = λ stage. delivered;
  others = others;
}

-- Another command removes the subscription just before the commit.
abbrev removed_meanwhile : UpdateStage → World memory_store → World memory_store
removed_meanwhile UpdateStage.complete w = (run_command memory_store none (remove (text "s")) w).0
removed_meanwhile _ w = w

update-Ended_example :
    Ended memory_store
      (path (λ _ w. w))
      item
      (Update.update memory_store (path (λ _ w. w)) (text "s") world)
unfolding lookup ◌==◌ text
update-Ended_example =
    update-Ended memory_store (path (λ _ w. w)) refl (text "s") item world refl refl

update_revives_example :
    lookup (Update.update memory_store (path removed_meanwhile) (text "s") world).0.items (text "s")
    ≢ none
unfolding lookup ◌==◌ text
update_revives_example =
    update_revives memory_store (path removed_meanwhile) refl (text "s") item world refl refl

endpoints_resolved :
    EachPair (λ a b. text_le a b ≡ true) (resolve_endpoints services nodes)
    × Distinct (resolve_endpoints services nodes)
    × ((a : Text)
        → contains (resolve_endpoints services nodes) a ≡ contains (all_addresses services nodes) a)
endpoints_resolved = resolve_endpoints_set services nodes

interval_stays_above :
    leb_ℤ minimum_interval (apply_header_metadata services response item).update_interval ≡ true
interval_stays_above = apply_header_metadata-interval services response item refl
