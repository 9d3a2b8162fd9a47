-- ===== src/Settings/Outcome.antt =====
-- internal/settings/manager.go: a change of a setting either happens as a whole or leaves the manager
-- as it was.
use sdbx.Generator.{Generator, planned}
use sdbx.Base.{
  String, ◌==◌, Option, none, some, Result, ok, err, Check, ◌>>◌, ◌≡◌, refl, sym, ◌∙◌, inl, inr,
  Bool-cases, Option-cases, Result-cases, >>-eq-ok, err-ne-ok,
}
use sdbx.Config.{Config}
use sdbx.Config.Checks.{Host}
use sdbx.Config.Validate.{validate}
use sdbx.Registry.Types.Resolved.{Cause, ResolutionGraph}
use sdbx.Registry.Resolver.{Catalog}
use sdbx.Settings.{Error, lock_required, lock_requires_version_and_resolver, apply}
use sdbx.Settings.Manager.{
  Manager, SettingsResult, Outcome, check_vpn, ready, returns, relocked, settle, regenerate_locked,
  regenerate, set_changed, set_ready, set, after_plan,
}
use sdbx.Settings.Store.{IsStored, apply-IsStored}

module _ {Lock Image : Type 0} where
  -- The manager, with another configuration in place of its own.
  abbrev put_back : Config → Manager Lock Image → Manager Lock Image
  put_back c n = record n { config = some c }

module _ {Lock Image Files : Type 0} where
  -- What a regeneration of the configuration `c` has done: a new lock, the files of the generator
  -- and what `Plan` wrote to the configuration; or nothing but the latter.
  record IsRegenerated (gen : Generator Lock Image Files) (c : Config) (catalog : Catalog)
      (m : Manager Lock Image) (files : Files) (o : Outcome Lock Image Files (Unit {0}))
      : Type 0 where
    done :
        o.result ≡ ok tt
        → (lock : Lock) × (image : Image) × (new : Lock) × (graph : Option ResolutionGraph)
          × (m.lock ≡ some lock)
          × (m.image_resolver ≡ some image)
          × (gen.regenerate_runtime_with_updated_lock c m.project_dir catalog lock m.cli_version
                image files
              ≡ (ok new, graph, o.files))
          × (o.manager ≡ record m { config = some (planned graph c); lock = some new })
    undone :
        (e : Error) (previous : Config)
        → o.result ≡ err e
        → put_back previous o.manager ≡ put_back previous m

  refused-IsRegenerated :
      (gen : Generator Lock Image Files) (c : Config) (catalog : Catalog) (m : Manager Lock Image)
      (files : Files) (e : Error)
      → IsRegenerated gen c catalog m files (returns (err e) m files)
  refused-IsRegenerated gen c catalog m files e = record {
    done = λ h. absurd (err-ne-ok h);
    undone = λ d previous h. refl;
  }

  relocked-IsRegenerated :
      (gen : Generator Lock Image Files) (c : Config) (catalog : Catalog) (m : Manager Lock Image)
      (files : Files) (lock : Lock) (image : Image)
      (answer : Result Cause Lock × Option ResolutionGraph × Files)
      → m.lock ≡ some lock
      → m.image_resolver ≡ some image
      → gen.regenerate_runtime_with_updated_lock c m.project_dir catalog lock m.cli_version image
          files
        ≡ answer
      → IsRegenerated gen c catalog (put_back c m) files (relocked (put_back c m) answer)
  unfolding relocked after_plan
  relocked-IsRegenerated gen c catalog m files lock image (err cause, graph, after) has asks call =
      record { done = λ h. absurd (err-ne-ok h); undone = λ d previous h. refl }
  relocked-IsRegenerated gen c catalog m files lock image (ok new, graph, after) has asks call =
      record {
        done = λ h. (lock, image, new, graph, has, asks, call, refl);
        undone = λ d previous h. absurd (err-ne-ok (sym h));
      }

  module _ (host : Host) (gen : Generator Lock Image Files) where
    regenerate_locked-IsRegenerated :
        (lock : Option Lock) (image : Option Image) (c : Config) (catalog : Catalog)
        (m : Manager Lock Image) (files : Files)
        → m.lock ≡ lock
        → m.image_resolver ≡ image
        → IsRegenerated gen c catalog
            (put_back c m)
            files
            (regenerate_locked host gen lock image c catalog (put_back c m) files)
    unfolding regenerate_locked
    regenerate_locked-IsRegenerated none image c catalog m files has asks =
        refused-IsRegenerated gen c catalog (put_back c m) files lock_required
    regenerate_locked-IsRegenerated (some lock) none c catalog m files has asks =
        refused-IsRegenerated gen c catalog (put_back c m) files lock_requires_version_and_resolver
    regenerate_locked-IsRegenerated (some lock) (some image) c catalog m files has asks =
        elim (Bool-cases (m.cli_version == "")) [
          | inl e ↦ rw e (
              refused-IsRegenerated gen c catalog (put_back c m) files
                lock_requires_version_and_resolver)
          | inr e ↦ rw e (relocked-IsRegenerated gen c catalog m files lock image _ has asks refl)
        ]

    -- What `Set` has done when it returns without an error.
    pub record IsChanged (key v : String) (m : Manager Lock Image) (files : Files)
        (o : Outcome Lock Image Files SettingsResult) : Type 0 where
      pub before : Config
      pub after : Config
      pub was : m.config ≡ some before
      pub allowed : check_vpn m.allow_unprotected_downloads key v ≡ ok tt
      pub stored : IsStored before key v after
      pub valid : validate host after ≡ ok tt
      pub catalog : Catalog
      pub lock : Lock
      pub image : Image
      pub new : Lock
      pub graph : Option ResolutionGraph
      pub registered : m.registry ≡ some catalog
      pub locked : m.lock ≡ some lock
      pub imaged : m.image_resolver ≡ some image
      pub generated :
          gen.regenerate_runtime_with_updated_lock after m.project_dir catalog lock m.cli_version
            image files
          ≡ (ok new, graph, o.files)
      pub manager : o.manager ≡ record m { config = some (planned graph after); lock = some new }

    -- Both ways out of `Set`.
    record IsWhole (key v : String) (m : Manager Lock Image) (files : Files)
        (o : Outcome Lock Image Files SettingsResult) : Type 0 where
      done : (r : SettingsResult) → o.result ≡ ok r → IsChanged key v m files o
      undone : (e : Error) → o.result ≡ err e → o.manager ≡ m

    ready-config :
        (m : Manager Lock Image) {c : Config} {catalog : Catalog}
        → ready m ≡ ok (c, catalog)
        → (m.config ≡ some c) × (m.registry ≡ some catalog)
    unfolding ready
    ready-config m h = elim (Bool-cases (m.project_dir == "")) [
      | inl e ↦ absurd (err-ne-ok (rw e at h))
      | inr e ↦ elim (Option-cases m.config) [
        | inl f ↦ absurd (err-ne-ok (rw (e, f) at h))
        | inr (d, f) ↦ elim (Option-cases m.registry) [
          | inl g ↦ absurd (err-ne-ok (rw (e, f, g) at h))
          | inr (r, g) ↦ (cc (rw (e, f, g) at h, f), cc (rw (e, f, g) at h, g))
        ]
      ]
    ]

    settle-IsWhole :
        (key v : String) (c after : Config) (catalog : Catalog) (m : Manager Lock Image)
        (files : Files) (r : Check Error) (now : Manager Lock Image) (written : Files)
        → m.config ≡ some c
        → m.registry ≡ some catalog
        → check_vpn m.allow_unprotected_downloads key v ≡ ok tt
        → apply c key v ≡ ok after
        → validate host after ≡ ok tt
        → IsRegenerated gen after catalog
            (record m { config = some after })
            files
            (returns r now written)
        → IsWhole key v m files (settle key v c (returns r now written))
    unfolding settle
    settle-IsWhole key v c after catalog m files (ok _) now written was listed allowed applied valid
          it =
        let (lock, image, new, graph, has, asks, call, manager) = it.done refl in
        record {
          done = λ r h. record {
            before = c;
            after = after;
            was = was;
            allowed = allowed;
            stored = apply-IsStored c key v after applied;
            valid = valid;
            catalog = catalog;
            lock = lock;
            image = image;
            new = new;
            graph = graph;
            registered = listed;
            locked = has;
            imaged = asks;
            generated = call;
            manager = manager;
          };
          undone = λ e h. absurd (err-ne-ok (sym h));
        }
    settle-IsWhole key v c after catalog m files (err d) now written was listed allowed applied
          valid it =
        record {
          done = λ r h. absurd (err-ne-ok h);
          undone = λ e h. it.undone d c refl ∙ (λ i. record m { config = sym was i });
        }

    refused-IsWhole :
        (key v : String) (m : Manager Lock Image) (files : Files) (e : Error)
        → IsWhole key v m files (returns (err e) m files)
    refused-IsWhole key v m files e = record {
      done = λ r h. absurd (err-ne-ok h);
      undone = λ d h. refl;
    }

    set_changed-IsWhole :
        (key v : String) (c after : Config) (catalog : Catalog) (m : Manager Lock Image)
        (files : Files)
        → m.config ≡ some c
        → m.registry ≡ some catalog
        → check_vpn m.allow_unprotected_downloads key v ≡ ok tt
        → apply c key v ≡ ok after
        → IsWhole key v m files (set_changed host gen key v c after catalog m files)
    unfolding set_changed
    set_changed-IsWhole key v c after catalog m files was listed allowed applied =
        elim (Result-cases (validate host after)) [
          | inr (e, wrong) ↦
              rw (wrong, set_changed)
                (record {
                  done = λ r h. absurd (err-ne-ok h);
                  undone = λ d h. λ i. record m { config = sym was i };
                })
          | inl (_, valid) ↦
              let ran =
                regenerate host gen after catalog (record m { config = some after }) files in
              rw (valid, set_changed)
                (settle-IsWhole key v c after catalog m files ran.result ran.manager ran.files was
                  listed allowed applied valid
                  (unfold regenerate in
                    regenerate_locked-IsRegenerated m.lock m.image_resolver after catalog m files
                      refl refl))
        ]

    set_ready-IsWhole :
        (key v : String) (m : Manager Lock Image) (files : Files)
        (r : Result Error (Config × Catalog))
        → ready m ≡ r
        → IsWhole key v m files (set_ready host gen key v r m files)
    unfolding set_ready
    set_ready-IsWhole key v m files (err e) h = refused-IsWhole key v m files e
    set_ready-IsWhole key v m files (ok (c, catalog)) h =
        elim (Result-cases (check_vpn m.allow_unprotected_downloads key v >> apply c key v)) [
          | inr (e, refused) ↦ rw (refused, set_ready) (refused-IsWhole key v m files e)
          | inl (after, e) ↦
              let (allowed, applied) =
                >>-eq-ok (check_vpn m.allow_unprotected_downloads key v) (apply c key v) e in
              rw (e, set_ready)
                (set_changed-IsWhole key v c after catalog m files (ready-config m h).0
                  (ready-config m h).1 allowed applied)
        ]

    -- Where `Set` fails, the manager is as it was before the call: the configuration and the lock.
    pub set_restores :
        (key v : String) (m : Manager Lock Image) (files : Files) (e : Error)
        → (set host gen key v m files).result ≡ err e
        → (set host gen key v m files).manager ≡ m
    unfolding set
    set_restores key v m files e h = (set_ready-IsWhole key v m files (ready m) refl).undone e h

    -- Where `Set` returns without an error, the setting that the key names reads as the value and the
    -- other settings as before; the new configuration is valid; the generator was called with it,
    -- the catalog, the lock and the image resolver of the manager, and wrote its files; and the
    -- manager holds the new configuration, with the active services that the generator planned, and
    -- the new lock. VPN protection is only given up with the acknowledgement.
    pub set-IsChanged :
        (key v : String) (m : Manager Lock Image) (files : Files) (r : SettingsResult)
        → (set host gen key v m files).result ≡ ok r
        → IsChanged key v m files (set host gen key v m files)
    unfolding set
    set-IsChanged key v m files r h = (set_ready-IsWhole key v m files (ready m) refl).done r h
