-- ===== src/Config/Plan/Inbounds.antt =====
-- What Settings.Validate lets through, and the inbounds that follow from it.
use target_lib.Base.{
  ℕ, ◌<◌, ◌≡◌, refl, ap, ◌∙◌, true, false, ◌||◌, ◌⊎◌, inl, inr, [], ◌∷◌, Option, none, some, arith,
  Text, text, ◌==◌, trim_space, is_some, ok, >>-eq-ok, ℤ, pos, leb_ℤ, if◌then◌else◌,
}
use native.Mathlib.Nat.{mod-eq_of_lt}
use target_lib.Config.Settings.{Settings, ProxyMode, mixed, tun, has_line_break, validate}
use target_lib.Config.Plan.{
  Host, Inbound, mixed_options, mixed_inbound, inbounds_for, build_inbounds,
}

-- The port is a TCP port.
abbrev pub IsPort : ℤ → Type 0
IsPort port = (n : ℕ) × (port ≡ pos n) × (0 < n) × (n < 65536)

IsPort-of_tests : (port : ℤ) → (leb_ℤ port (pos 0) || leb_ℤ (pos 65536) port) ≡ false → IsPort port
IsPort-of_tests (pos n) h = (n, refl, ground arith, ground arith)
IsPort-of_tests (ℤ.negsuc n) h = absurd (ground arith)

pub validate-IsPort : (s : Settings) {u : Unit {0}} → validate s ≡ ok u → IsPort s.mixed_port
unfolding validate
validate-IsPort s h =
    let address = trim_space s.listen_address in
    let (_, h1) = >>-eq-ok (address == [] || has_line_break address) _ _ h in
    let (port, _) =
      >>-eq-ok (leb_ℤ s.mixed_port (pos 0) || leb_ℤ (pos 65536) s.mixed_port) _ _ h1 in
    IsPort-of_tests s.mixed_port port

-- The mode is one of the two constants.
pub validate-proxy_mode :
    (s : Settings) {u : Unit {0}}
    → validate s ≡ ok u
    → (s.proxy_mode ≡ mixed) ⊎ (s.proxy_mode ≡ tun)
unfolding validate
validate-proxy_mode s h =
    let address = trim_space s.listen_address in
    let (_, h1) = >>-eq-ok (address == [] || has_line_break address) _ _ h in
    let (_, h2) = >>-eq-ok (leb_ℤ s.mixed_port (pos 0) || leb_ℤ (pos 65536) s.mixed_port) _ _ h1 in
    ground arith

abbrev pub IsListener : Settings → Inbound → Type 0
IsListener s i =
    (listen : Text) × (n : ℕ) × (s.mixed_port ≡ pos n) × (i.options ≡ mixed_options listen n)

of_mixed :
    (host : Host) (s : Settings) (o : Option Text)
    → IsPort s.mixed_port
    → is_some o ≡ true
    → (i : Inbound) × (mixed_inbound o s.mixed_port ≡ ok (i ∷ [])) × IsListener s i
unfolding mixed_inbound
of_mixed host s none port h = cc
of_mixed host s (some listen) (n, e, _, below) h =
    (_, refl, (listen, n, e, ground (arith, mod-eq_of_lt {n = n} {m = 65536} below)))

for_mode :
    (host : Host) (s : Settings) (m : ProxyMode)
    → (m ≡ mixed) ⊎ (m ≡ tun)
    → IsPort s.mixed_port
    → is_some (host.parse_addr (trim_space s.listen_address)) ≡ true
    → (i : Inbound) × (inbounds_for host s m ≡ ok (i ∷ []))
      × (((m ≡ mixed) × IsListener s i) ⊎ ((m ≡ tun) × (i.tag ≡ text "tun")))
unfolding inbounds_for
for_mode host s mixed known port parses =
    let (i, one, listens) =
      of_mixed host s (host.parse_addr (trim_space s.listen_address)) port parses in
    (i, one, inl (refl, listens))
for_mode host s tun known port parses = (_, refl, inr (refl, refl))
for_mode host s (ProxyMode.other t) known port parses = absurd (ground arith)

-- Settings that validate, with a listen address that parses, give exactly one inbound unless only
-- a probe is wanted: in mixed mode a listener on the very port of the settings, which the
-- conversion to uint16 leaves as it is, and in TUN mode the inbound "tun".
pub build_inbounds_one :
    (host : Host) (s : Settings) {u : Unit {0}}
    → validate s ≡ ok u
    → is_some (host.parse_addr (trim_space s.listen_address)) ≡ true
    → s.probe_only ≡ false
    → (i : Inbound) × (build_inbounds host s ≡ ok (i ∷ []))
      × (((s.proxy_mode ≡ mixed) × IsListener s i) ⊎ ((s.proxy_mode ≡ tun) × (i.tag ≡ text "tun")))
unfolding build_inbounds
build_inbounds_one host s h parses full =
    let (i, one, kind) =
      for_mode host s s.proxy_mode (validate-proxy_mode s h) (validate-IsPort s h) parses in
    (i, ap (λ b. if b then ok [] else inbounds_for host s s.proxy_mode) full ∙ one, kind)
