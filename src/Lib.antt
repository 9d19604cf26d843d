-- ===== src/Lib.antt =====
-- Verification of the Go core of TargetLib, a manager of subscriptions for the proxy sing-box.
--
-- The program has a part that keeps subscriptions (subscriptions/, profile/), a part that turns
-- the nodes of the enabled subscriptions and the user's selectors and services into one
-- sing-box configuration (config/), and a part that runs sing-box with it (manager/), behind
-- gRPC and FFI.
--
-- Base has the shared tests, lists, Go strings, sorting, results and signed integers.
--
-- Profile is profile/model.go and its child Identity profile/identity.go: nodes, and
-- WithSource, which gives each the digest of its settings for an ID. Json has JSON documents as
-- Go decodes them, Parser is profile/parser.go, from a document to its nodes, and Country
-- country.go.
--
-- Config is config/. Settings is settings.go with Settings.Validate. Model is runtime_model.go.
-- Normalize is NormalizeRuntimeModel of runtime_validation.go, a function for each of its
-- loops, and Domains its validDomain; the children of Normalize prove what a returned model
-- has. Outbounds is planOutboundsWithSelectors of build.go and Plan the rest of that file:
-- routes, DNS, inbounds, the runtime section, planRuntimeModel, Build.
--
-- Subscriptions is subscriptions/. Model has its types. Store is store.go: the interface as a
-- record of operations and laws, in Store/Memory the store in memory, and in Store/Badger that
-- of badger_store.go, with its records and keys in Badger/Encoding. Coordinator is
-- coordinator.go: a World is the coordinator's items, the store and the published events;
-- run_command is the body of its loop, and submit adds how the two selects of the source can
-- go. Coordinator/Commands has the build functions that manager.go submits. Fetching is what an
-- update calls, with endpoints.go and, in Fetching/Http, fetcher.go, with the options of its
-- client in Fetching/Client, and Update is updateClaimed and failUpdate; other commands may run
-- before each submit. Manager is the client's operations of manager.go and node_pool.go, View
-- what clients see of a subscription, and Normalize is normalize.go. Handler is grpc.go, the
-- calls of the service, with Handler/Messages for the conversions to messages and
-- Handler/Stream for the events. Events has the channels to which manager.go publishes, with
-- their closing; run is any sequence of its actions. Defaults has NewManager's defaults. A
-- Course is how one call goes: what the selects decide, when the client leaves, and what is
-- done meanwhile.
--
-- Manager is manager/. The root has the messages and buildSettings. Desired is the way from a
-- wanted configuration to a model (runtime_controller.go). Machine is the manager's state with
-- the daemon and the store, applySnapshot and commitLiveSelector; Machine/Saved is
-- runtime_config_store.go, which the store in memory fills. Startup is New, from what was
-- stored to a started manager. Operations are the calls that change the state (routes.go,
-- node_selection.go, runtime_config.go, manager.go), by the changes in Edits (what is asked for
-- in Edits/Asked), Reports those that read it, Streams what is made of the daemon's logs and
-- traffic, Generated the manager's UpdateSubscription, Server server.go with NewLocal, Access
-- auth.go, and Token its loadControlToken, with the number of calls of itself as fuel: it
-- returns without any unless a link to nothing is in the way, and then never.
--
-- Command is the command line of cmd/TargetLib/main.go, with the part of package flag that it
-- uses, and the arguments that the service is installed with.
--
-- State is passed explicitly and errors are values. Strings are lists of code points, ordered
-- as strings.Compare orders valid UTF-8; maps with string keys are association lists, and sets
-- are lists of strings. Sorting is stable insertion where the library leaves ties open.
-- Integers are unbounded but for the conversions to uint16 and int32 of a port. Recursion is
-- structural throughout: the depth of URL normalisation is the source's own limit of 8 and its
-- rounds are 3, so nothing here can run out of fuel that the source would not. The search for a
-- word has two more than the text's length for fuel, since each round goes forward and the last
-- may be on an empty text, and the digits of a number the number itself. Waiting for a stable
-- status is a list of readings, those that the source takes before its deadline.
--
-- Parameters are what lies outside the repository: encoding/json and crypto/sha256 (Digest, and
-- Formats for the parser), net/url and regexp (Urls), net/netip, the resolver, strconv and the
-- fetcher (Services), the HTTP client, base64 and mime (Http), the operating system (Host),
-- sing-box's encoder (emit), its decoder (in Formats) and its daemon (Daemon), protobuf
-- (Encoding), strconv, filepath.Abs and the names of a service's actions (Library), BadgerDB
-- (Database), CBOR (Codec), and for the token the file system and crypto/rand (Machinery). The
-- order in which Go visits a map is one as well. An update takes the parser as a parameter.
--
-- Not modelled: how resty tries again and net/http redirects, whose conditions are modelled,
-- the opening of the database and the keyring, the sharing of an update between callers, the
-- ticker of Run with its limit on parallel updates, the closing of the manager, the forwarding
-- to a phone's platform, the life of the system service and the C interface. The generated
-- messages in api/ and the Flutter package are no part of the core.
pub mod Base
pub mod Profile
pub mod Config
pub mod Subscriptions
pub mod Manager
pub mod Command
pub mod Tests
