-- ===== src/Routing/Plex.antt =====
-- internal/routing/plex.go and LANBinding of internal/config/plex.go: the URLs that Plex announces.
use text.Mathlib.TextLemmas.{append-eq-nil_iff}
use sdbx.Base.{
  suc, String, Bool, true, false, ◌==◌, ◌!=◌, not, ◌&&◌, any, codes, nat_eq, ◌≡◌, ◌≢◌, ◌↔◌, refl,
  List, [], ◌∷◌, ◌++◌, inl, inr, arith, eq_iff, eq-cases, Bool-cases, if◌then◌else◌, ◌<>◌,
}
use sdbx.Base.Int.{ℤ, pos, negsuc}
use sdbx.Config.{Config, PlexConfig, expose_mode_lan}
use sdbx.Registry.Types.{ServiceDefinition}
use sdbx.Registry.Validator.Report.{decimal}
use sdbx.Settings.{effective_lan_port}
use sdbx.Routing.{hostname}

-- strconv.Itoa
abbrev itoa : ℤ → String
itoa (pos n) = decimal n
itoa (negsuc n) = "-" <> decimal (suc n)

-- net.JoinHostPort
unfoldable pub join_host_port : String → String → String
join_host_port host port =
    if any (λ c. nat_eq c b':') (codes host)
    then "[" <> host <> "]:" <> port
    else host <> ":" <> port

unfoldable pub lan_binding : PlexConfig → String
lan_binding p =
    if p.lan_address == ""
    then ""
    else join_host_port p.lan_address (itoa (effective_lan_port p.lan_port))

-- strings.Join(urls, ",")
unfoldable pub join_urls : List String → String
join_urls [] = ""
join_urls (url ∷ []) = url
join_urls (url ∷ next ∷ urls) = url <> "," <> join_urls (next ∷ urls)

abbrev lan_urls : String → List String
lan_urls binding = if binding != "" then ("http://" <> binding <> "/") ∷ [] else []

unfoldable pub plex_advertise_urls : Config → ServiceDefinition → String
plex_advertise_urls cfg definition =
    let remote =
      if cfg.expose.mode != expose_mode_lan
      then ("https://" <> hostname cfg definition <> ":443/") ∷ []
      else [] in
    join_urls (lan_urls (lan_binding cfg.plex) ++ remote)

-- A text behind a text that is not empty.
starts : (s t : String) → s ≢ "" → (s <> t == "") ≡ false
starts s t h = elim (eq-cases (s <> t) "") [
  | inl (same, _) ↦ absurd (h (append-eq-nil_iff.0 same).0)
  | inr (_, e) ↦ e
]

some_text : (s : String) → (s == "") ≡ false → s ≢ ""
some_text s h same = ground (arith, eq_iff s "")

join_host_port-some : (host port : String) → host ≢ "" → (join_host_port host port == "") ≡ false
unfolding join_host_port
join_host_port-some host port h = elim (Bool-cases (any (λ c. nat_eq c b':') (codes host))) [
  | inl is ↦ rw is (starts "[" (host <> "]:" <> port) (some_text "[" refl))
  | inr is ↦ rw is (starts host (":" <> port) h)
]

lan_binding-empty : (p : PlexConfig) → (lan_binding p == "") ≡ (p.lan_address == "")
unfolding lan_binding
lan_binding-empty p = elim (eq-cases p.lan_address "") [
  | inl (_, e) ↦ rw e refl
  | inr (some_address, e) ↦ rw e (join_host_port-some p.lan_address _ some_address)
]

joined :
    (local_ remote : Bool) (u v : String)
    → u ≢ ""
    → v ≢ ""
    → (join_urls ((if local_ then u ∷ [] else []) ++ (if remote then v ∷ [] else [])) == "")
      ≡ (not local_ && not remote)
unfolding join_urls
joined true true u v some_u some_v = starts u ("," <> v) some_u
joined true false u v some_u some_v = ground (arith, eq_iff u "")
joined false true u v some_u some_v = ground (arith, eq_iff v "")
joined false false u v some_u some_v = refl

announced :
    (cfg : Config) (definition : ServiceDefinition)
    → (plex_advertise_urls cfg definition == "")
      ≡ (not (lan_binding cfg.plex != "") && not (cfg.expose.mode != expose_mode_lan))
unfolding plex_advertise_urls
announced cfg definition =
    joined (lan_binding cfg.plex != "") (cfg.expose.mode != expose_mode_lan)
      ("http://" <> lan_binding cfg.plex <> "/") ("https://" <> hostname cfg definition <> ":443/")
      (some_text _ (starts "http://" (lan_binding cfg.plex <> "/") (some_text "http://" refl)))
      (some_text _
        (starts "https://" (hostname cfg definition <> ":443/") (some_text "https://" refl)))

-- Plex announces no URL exactly where it has no address in the local network and the exposure mode is
-- that of the local network.
pub plex_advertise_urls_iff :
    (cfg : Config) (definition : ServiceDefinition)
    → (plex_advertise_urls cfg definition ≡ "")
      ↔ ((cfg.plex.lan_address ≡ "") × (cfg.expose.mode ≡ expose_mode_lan))
plex_advertise_urls_iff cfg definition =
    let urls = announced cfg definition in
    let binding = lan_binding-empty cfg.plex in
    let url = plex_advertise_urls cfg definition in
    ground
      (arith, eq_iff url "", eq_iff cfg.plex.lan_address "", eq_iff cfg.expose.mode expose_mode_lan)
