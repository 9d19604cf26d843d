-- ===== src/Tests/Servers.antt =====
-- Examples for manager/server.go, and for the streams and the options of a client.
use target_lib.Base.{◌≡◌, refl, true, false, none, some, text, [], ◌∷◌, ok, err, ◌==◌}
use target_lib.Manager.Server.{Network, IsClean, new_local, new_local-IsClean}
use target_lib.Manager.Streams.{DaemonLog, relay_log, relayed_messages}
use target_lib.Subscriptions.Fetching.Client.{
  secure_redirect_policy, https_downgrade, too_many_redirects,
}

-- The socket is in use.
abbrev network : Network
network = record { tcp_fails = false; mkdir_fails = false; remove_fails = false; unix_fails = true }

new_local-IsClean_example : IsClean (new_local (ok tt) (text "targetlib.sock") network)
new_local-IsClean_example = new_local-IsClean (ok tt) (text "targetlib.sock") network

-- A warning alone is not sent.
abbrev warning : DaemonLog
unfolding text
warning = record { reset = false; messages = some (record { level = 3; message = text "w" }) ∷ [] }

warning_held : relay_log warning ≡ none
unfolding relay_log relayed_messages warning
warning_held = refl

redirects :
    (secure_redirect_policy false 1 (text "http") ≡ err https_downgrade)
    × (secure_redirect_policy true 5 (text "http") ≡ err too_many_redirects)
    × (secure_redirect_policy false 4 (text "https") ≡ ok tt)
unfolding secure_redirect_policy text ◌==◌
redirects = (refl, refl, refl)
