-- ===== src/Config/Validate/Changes.antt =====
-- Enabling and disabling an addon, and changing the exposure mode, keep a configuration valid.
use sdbx.Base.{
  String, true, false, ◌≡◌, refl, ◌↔◌, inl, inr, List, [], ◌∷◌, ◌++◌, ◌==◌, ◌!=◌, ◌||◌, ok, eq_iff,
  eq_refl, arith, All, All-append, All-keep, keep, eq-cases, Bool-cases, if◌then◌else◌, trim_space,
}
use sdbx.Config.{
  Config, contains, is_addon_enabled, enable_addon, disable_addon, set_exposure_mode,
  effective_tunnel_protocol,
}
use sdbx.Config.Patterns.{identifier_regex}
use sdbx.Config.Checks.{validate_expose, validate_tls, tunnel_protocols, valid_expose_modes}
use sdbx.Config.Validate.{validate_addons}
use sdbx.Config.Validate.Addons.{
  Absent, Distinct, Absent-contains, Distinct-append, Distinct-keep, validate_addons-IsAccepted,
  validate_addons_of_IsAccepted,
}

none_seen : (xs : List String) → All (λ a. contains [] a ≡ false) xs
unfolding contains
none_seen [] = tt
none_seen (x ∷ xs) = (refl, none_seen xs)

-- The addon check accepts a list exactly when its names are identifiers and no name occurs twice.
pub validate_addons_iff :
    (addons : List String)
    → (validate_addons [] addons ≡ ok tt)
      ↔ (All (λ a. identifier_regex a ≡ true) addons × Distinct addons)
validate_addons_iff addons = (
  (λ h. let a = validate_addons-IsAccepted [] addons h in (a.identifiers, a.distinct)),
  (λ h.
      validate_addons_of_IsAccepted [] addons
        (record { identifiers = h.0; distinct = h.1; fresh = none_seen addons })),
)

-- Enabling an addon with an identifier for a name keeps the addon list acceptable.
pub enable_addon-validate_addons :
    (c : Config) (name : String)
    → identifier_regex name ≡ true
    → validate_addons [] c.addons ≡ ok tt
    → validate_addons [] (enable_addon name c).addons ≡ ok tt
unfolding enable_addon is_addon_enabled
enable_addon-validate_addons c name ident h = elim (Bool-cases (contains c.addons name)) [
  | inl old ↦ rw old h
  | inr new ↦
      let (idents, distinct) = (validate_addons_iff c.addons).0 h in
      rw new (
        (validate_addons_iff (c.addons ++ (name ∷ []))).1 (
          All-append (λ a. identifier_regex a ≡ true) c.addons (name ∷ []) idents (ident, tt),
          Distinct-append name c.addons distinct (Absent-contains name c.addons new),
        ))
]

-- Disabling any addon keeps the addon list acceptable.
pub disable_addon-validate_addons :
    (c : Config) (name : String)
    → validate_addons [] c.addons ≡ ok tt
    → validate_addons [] (disable_addon name c).addons ≡ ok tt
unfolding disable_addon
disable_addon-validate_addons c name h =
    let (idents, distinct) = (validate_addons_iff c.addons).0 h in
    (validate_addons_iff (keep (λ a. a != name) c.addons)).1 (
      All-keep (λ a. identifier_regex a ≡ true) (λ a. a != name) c.addons idents,
      Distinct-keep (λ a. a != name) c.addons distinct,
    )

contains-append :
    (xs : List String) (a b : String)
    → contains (xs ++ (a ∷ [])) b ≡ (if a == b then true else contains xs b)
unfolding contains
contains-append [] a b = ground arith
contains-append (x ∷ xs) a b = ground (arith, contains-append xs a b)

contains-keep :
    (xs : List String) (a b : String)
    → contains (keep (λ x. x != a) xs) b ≡ (if a == b then false else contains xs b)
unfolding contains
contains-keep [] a b = ground arith
contains-keep (x ∷ xs) a b =
    ground (arith, contains-keep xs a b, eq_iff x a, eq_iff x b, eq_iff a b)

-- After enabling an addon it is enabled, and every other addon is as before.
pub is_addon_enabled-enable_addon :
    (c : Config) (a b : String)
    → is_addon_enabled (enable_addon a c) b ≡ (if a == b then true else is_addon_enabled c b)
unfolding enable_addon is_addon_enabled
is_addon_enabled-enable_addon c a b = elim (Bool-cases (contains c.addons a)) [
  | inl old ↦ rw old (ground (arith, eq_iff a b))
  | inr new ↦ rw new (contains-append c.addons a b)
]

-- After disabling an addon it is not enabled, and every other addon is as before.
pub is_addon_enabled-disable_addon :
    (c : Config) (a b : String)
    → is_addon_enabled (disable_addon a c) b ≡ (if a == b then false else is_addon_enabled c b)
unfolding disable_addon is_addon_enabled
is_addon_enabled-disable_addon c a b = contains-keep c.addons a b

keep-Absent :
    (a : String) (xs : List String) → Absent a xs → keep (λ x. x != a) (xs ++ (a ∷ [])) ≡ xs
keep-Absent a [] h = rw (eq_refl a)
keep-Absent a (x ∷ xs) (p, h) = ground (arith, keep-Absent a xs h, eq_iff x a)

-- Enabling an addon that was not enabled and then disabling it gives the configuration back.
pub disable_addon-enable_addon :
    (c : Config) (a : String)
    → is_addon_enabled c a ≡ false
    → disable_addon a (enable_addon a c) ≡ c
unfolding disable_addon enable_addon is_addon_enabled
disable_addon-enable_addon c a h =
    let e = keep-Absent a c.addons (Absent-contains a c.addons h) in
    rw h (λ i. record c { addons = e i })

-- What `validate_expose` asks for, one test for each of its statements.
record ExposeParts (c : Config) : Type 0 where
  mode : contains valid_expose_modes c.expose.mode ≡ true
  protocol : contains tunnel_protocols (effective_tunnel_protocol c) ≡ true
  tls : validate_tls c ≡ ok tt
  files : (c.expose.tls.cert_file != "" || c.expose.tls.key_file != "") ≡ false

ExposeParts-of : (c : Config) → validate_expose c ≡ ok tt → ExposeParts c
unfolding validate_expose
ExposeParts-of c h = ground arith

of-ExposeParts : (c : Config) → ExposeParts c → validate_expose c ≡ ok tt
unfolding validate_expose
of-ExposeParts c h = ground arith

validate_tls-set_exposure_mode :
    (c : Config) (mode : String)
    → (mode ≡ "direct" → (trim_space c.expose.tls.email == "") ≡ false)
    → validate_tls (set_exposure_mode mode c) ≡ ok tt
unfolding validate_tls set_exposure_mode
validate_tls-set_exposure_mode c mode email = elim (eq-cases mode "direct") [
  | inl (e, t) ↦ rw e (rw (email e))
  | inr (e, t) ↦ rw (t, set_exposure_mode) (rw t)
]

set_exposure_mode-fields :
    (c : Config) (mode : String)
    → ((set_exposure_mode mode c).expose.mode ≡ mode)
      × ((set_exposure_mode mode c).expose.tunnel_protocol ≡ c.expose.tunnel_protocol)
      × ((set_exposure_mode mode c).expose.tls.cert_file ≡ c.expose.tls.cert_file)
      × ((set_exposure_mode mode c).expose.tls.key_file ≡ c.expose.tls.key_file)
unfolding set_exposure_mode
set_exposure_mode-fields c mode = ground arith

-- Changing the exposure mode of a valid configuration to a known mode keeps the exposure checks
-- passing, if the configuration has a contact address whenever the new mode is direct.
pub set_exposure_mode-validate_expose :
    (c : Config) (mode : String)
    → validate_expose c ≡ ok tt
    → contains valid_expose_modes mode ≡ true
    → (mode ≡ "direct" → (trim_space c.expose.tls.email == "") ≡ false)
    → validate_expose (set_exposure_mode mode c) ≡ ok tt
unfolding effective_tunnel_protocol
set_exposure_mode-validate_expose c mode h known email =
    let parts = ExposeParts-of c h in
    let (m, p, cert, key) = set_exposure_mode-fields c mode in
    of-ExposeParts (set_exposure_mode mode c) (record {
      mode = rw m known;
      protocol = rw p parts.protocol;
      tls = validate_tls-set_exposure_mode c mode email;
      files = rw (cert, key) parts.files;
    })
