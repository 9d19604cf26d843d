-- ===== src/Manager/Server.antt =====
-- manager/server.go: the two listeners of the gRPC server.
use target_lib.Base.{
  ◌≡◌, refl, Bool, true, false, Option, none, some, Text, is_empty, Result, ok, err, if◌then◌else◌,
  Bool-cases, inl, inr,
}
use target_lib.Manager.{Code}

pub data ListenError : Type 0 where
  invalid_path tcp_failed directory_failed remove_failed socket_failed : ListenError

-- Which calls of the operating system fail. To remove a socket that is not there does not.
pub record Network : Type 0 where
  pub tcp_fails : Bool
  pub mkdir_fails : Bool
  pub remove_fails : Bool
  pub unix_fails : Bool

-- The listeners that are open, and the file of the socket.
pub record Listeners : Type 0 where
  pub tcp : Bool
  pub socket : Bool

abbrev pub no_listeners : Listeners
no_listeners = record { tcp = false; socket = false }

-- `_ = tcpListener.Close(); return nil, err`
abbrev pub tcp_closed : ListenError → Listeners × Option ListenError
tcp_closed e = (no_listeners, some e)

abbrev pub listen_unix : Bool → Listeners × Option ListenError
listen_unix true = tcp_closed socket_failed
listen_unix false = (record { tcp = true; socket = true }, none)

abbrev pub listen_removed : Bool → Bool → Listeners × Option ListenError
listen_removed true unix_fails = tcp_closed remove_failed
listen_removed false unix_fails = listen_unix unix_fails

abbrev pub listen_made : Bool → Bool → Bool → Listeners × Option ListenError
listen_made true remove_fails unix_fails = tcp_closed directory_failed
listen_made false remove_fails unix_fails = listen_removed remove_fails unix_fails

abbrev pub listen_tcp : Bool → Network → Listeners × Option ListenError
listen_tcp true n = (no_listeners, some tcp_failed)
listen_tcp false n = listen_made n.mkdir_fails n.remove_fails n.unix_fails

unfoldable pub listen : Text → Network → Listeners × Option ListenError
listen socket_path n =
    if is_empty socket_path then (no_listeners, some invalid_path) else listen_tcp n.tcp_fails n

-- NewLocal: what New returned, and then whether the manager is open, with the error. Closing the
-- manager closes its store.
pub data LocalError : Type 0 where
  of_new : Code → LocalError
  of_listen : ListenError → LocalError

pub record Local : Type 0 where
  pub manager_open : Bool
  pub listeners : Listeners

abbrev pub after_listen : Listeners × Option ListenError → Local × Option LocalError
after_listen (l, none) = (record { manager_open = true; listeners = l }, none)
after_listen (l, some e) = (record { manager_open = false; listeners = l }, some (of_listen e))

unfoldable pub new_local : Result Code (Unit {0}) → Text → Network → Local × Option LocalError
new_local (err e) socket_path n =
    (record { manager_open = false; listeners = no_listeners }, some (of_new e))
new_local (ok made) socket_path n = after_listen (listen socket_path n)

-- stopListeners.
unfoldable pub stop_listeners : Listeners → Listeners
stop_listeners l = no_listeners

-- Either everything is open, or there is an error and nothing is.
abbrev IsWhole : Listeners × Option ListenError → Type 0
IsWhole (l, none) = (l.tcp ≡ true) × (l.socket ≡ true)
IsWhole (l, some e) = l ≡ no_listeners

listen_made-IsWhole : (a b c : Bool) → IsWhole (listen_made a b c)
listen_made-IsWhole true b c = refl
listen_made-IsWhole false true c = refl
listen_made-IsWhole false false true = refl
listen_made-IsWhole false false false = (refl, refl)

listen_tcp-IsWhole : (a : Bool) (n : Network) → IsWhole (listen_tcp a n)
listen_tcp-IsWhole true n = refl
listen_tcp-IsWhole false n = listen_made-IsWhole n.mkdir_fails n.remove_fails n.unix_fails

listen-IsWhole : (socket_path : Text) (n : Network) → IsWhole (listen socket_path n)
unfolding listen
listen-IsWhole socket_path n = elim (Bool-cases (is_empty socket_path)) [
  | inl e ↦ rw e refl
  | inr e ↦ rw e (listen_tcp-IsWhole n.tcp_fails n)
]

abbrev pub IsClean : Local × Option LocalError → Type 0
IsClean (s, none) = (s.manager_open ≡ true) × (s.listeners.tcp ≡ true) × (s.listeners.socket ≡ true)
IsClean (s, some e) = (s.manager_open ≡ false) × (s.listeners ≡ no_listeners)

after_listen-IsClean : (r : Listeners × Option ListenError) → IsWhole r → IsClean (after_listen r)
after_listen-IsClean (l, none) h = (refl, h.0, h.1)
after_listen-IsClean (l, some e) h = (refl, h)

-- NewLocal gives a server whose manager and both of whose listeners are open, or an error, and then
-- the manager is closed and no listener is left open, whatever fails.
pub new_local-IsClean :
    (made : Result Code (Unit {0})) (socket_path : Text) (n : Network)
    → IsClean (new_local made socket_path n)
unfolding new_local
new_local-IsClean (err e) socket_path n = (refl, refl)
new_local-IsClean (ok made) socket_path n =
    after_listen-IsClean (listen socket_path n) (listen-IsWhole socket_path n)
