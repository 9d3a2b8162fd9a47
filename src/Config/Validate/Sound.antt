-- ===== src/Config/Validate/Sound.antt =====
-- What a configuration that `Validate` accepts guarantees to the generators.
use sdbx.Base.{ℕ, ◌≤◌, false, ◌≡◌, refl, ◌≢◌, ◌⊎◌, [], ok, eq_iff, arith, for_each}
use sdbx.Base.Int.{ℤ, pos, negsuc, below, above}
use sdbx.Config.{Config}
use sdbx.Config.Checks.{Host, validate_plex, validate_domain, validate_expose, validate_routing}
use sdbx.Config.Validate.{
  validate_vpn, validate_paths, validate_identity, validate_scalars, validate_credentials,
  validate_addons, validate_override, validate,
}

-- Every group of checks has passed.
pub record Passed (host : Host) (c : Config) : Type 0 where
  pub plex : validate_plex host c.plex ≡ ok tt
  pub domain : validate_domain host c ≡ ok tt
  pub expose : validate_expose c ≡ ok tt
  pub routing : validate_routing c ≡ ok tt
  pub vpn : validate_vpn c ≡ ok tt
  pub paths : validate_paths c ≡ ok tt
  pub identity : validate_identity c ≡ ok tt
  pub scalars : validate_scalars c ≡ ok tt
  pub credentials : validate_credentials host c ≡ ok tt
  pub addons : validate_addons [] c.addons ≡ ok tt
  pub services : for_each validate_override c.services ≡ ok tt

pub validate-Passed : (host : Host) (c : Config) → validate host c ≡ ok tt → Passed host c
unfolding validate
validate-Passed host c h = ground arith

-- The exposure mode is known, and certificates come from ACME exactly for direct exposure.
pub record IsCoherent (c : Config) : Type 0 where
  pub known : (c.expose.mode ≡ "lan") ⊎ (c.expose.mode ≡ "direct") ⊎ (c.expose.mode ≡ "cloudflared")
  pub direct : c.expose.mode ≡ "direct" → c.expose.tls.provider ≡ "acme"
  pub other : c.expose.mode ≢ "direct" → c.expose.tls.provider ≡ ""
  pub no_files : (c.expose.tls.cert_file ≡ "") × (c.expose.tls.key_file ≡ "")

pub validate_expose-IsCoherent : (c : Config) → validate_expose c ≡ ok tt → IsCoherent c
unfolding validate_expose
validate_expose-IsCoherent c h = ground (
  arith,
  eq_iff "lan" c.expose.mode,
  eq_iff "direct" c.expose.mode,
  eq_iff "cloudflared" c.expose.mode,
  eq_iff c.expose.mode "direct",
  eq_iff c.expose.tls.provider "acme",
  eq_iff c.expose.tls.provider "",
  eq_iff c.expose.tls.cert_file "",
  eq_iff c.expose.tls.key_file "",
)

-- A number of Go's `int` that lies in a range of natural numbers.
abbrev pub Within : ℕ → ℕ → ℤ → Type 0
Within lo hi i = (n : ℕ) × (i ≡ pos n) × (lo ≤ n) × (n ≤ hi)

pub record HasBounds (c : Config) : Type 0 where
  pub puid : Within 0 65535 c.puid
  pub pgid : Within 0 65535 c.pgid
  pub torrent_port : Within 1 65535 c.torrent_port
  pub lan_port : Within 0 65535 c.plex.lan_port

Within-of_tests : (lo hi : ℕ) (i : ℤ) → below i lo ≡ false → above i hi ≡ false → Within lo hi i
Within-of_tests lo hi (pos n) h k = (n, refl, ground arith, ground arith)
Within-of_tests lo hi (negsuc n) h k = cc

-- The numbers of an accepted configuration fit their fields: no id, port or peer port is negative
-- or above 65535, and the peer port is not 0.
pub validate-HasBounds : (host : Host) (c : Config) → validate host c ≡ ok tt → HasBounds c
unfolding validate_plex validate_vpn validate_identity
validate-HasBounds host c h =
    let p = validate-Passed host c h in
    record {
      puid =
          Within-of_tests 0 65535 c.puid (ground (arith, p.identity)) (ground (arith, p.identity));
      pgid =
          Within-of_tests 0 65535 c.pgid (ground (arith, p.identity)) (ground (arith, p.identity));
      torrent_port =
          Within-of_tests 1 65535 c.torrent_port (ground (arith, p.vpn)) (ground (arith, p.vpn));
      lan_port =
          Within-of_tests 0 65535 c.plex.lan_port (ground (arith, p.plex)) (ground (arith, p.plex));
    }

-- Whatever the configuration, an accepted one is coherent in its exposure settings.
pub validate-IsCoherent : (host : Host) (c : Config) → validate host c ≡ ok tt → IsCoherent c
validate-IsCoherent host c h = validate_expose-IsCoherent c (validate-Passed host c h).expose
