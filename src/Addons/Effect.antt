-- ===== src/Addons/Effect.antt =====
-- internal/addons/manager.go: what a call of `Enable` or `Disable` that succeeds has done.
use sdbx.Generator.{Generator, planned, is_addon_enabled-planned}
use sdbx.Registry.Types.Resolved.{ResolutionGraph}
use sdbx.Base.{
  String, true, false, ◌==◌, List, Option, none, some, Result, ok, err, ◌≡◌, refl, sym, ap, ◌∙◌,
  ◌⊎◌, inl, inr, arith, Bool-cases, Result-cases, if◌then◌else◌, eq_iff,
}
use sdbx.Config.{Config, is_addon_enabled}
use mathlib.Core.Option.{some-injective}
use sdbx.Config.Validate.Changes.{is_addon_enabled-enable_addon, is_addon_enabled-disable_addon}
use sdbx.Registry.Resolver.{Catalog}
use sdbx.Addons.{
  Error, Manager, Outcome, AddonResult, ready, regenerate, settle, apply, apply_ready,
  apply_changed, enable, disable, enable_change, disable_change, is_addon,
}
use sdbx.Addons.Rollback.{ready-config, regenerate-IsRegenerated, IsGenerated, IsGenerated-config}

module _ {Lock Image Files : Type 0} where
  -- Either there was nothing to do, and nothing was done; or the files were generated from the
  -- changed configuration, and the manager holds it with what `Plan` wrote to it, and the new lock
  -- if there is one.
  pub record IsDone (gen : Generator Lock Image Files) (name : String)
      (mutate : Config → Option Config) (m : Manager Lock Image) (files : Files)
      (o : Outcome Lock Image Files AddonResult) (r : AddonResult) : Type 0 where
    pub before : Config
    pub catalog : Catalog
    pub was : ready m ≡ ok (before, catalog)
    pub listed : is_addon catalog name ≡ true
    pub same_name : r.name ≡ name
    pub effect :
        (mutate before ≡ none)
          × (r.changed ≡ false)
          × (r.regenerated ≡ false)
          × (o.manager ≡ m)
          × (o.files ≡ files)
        ⊎ (after : Config) × (mutate before ≡ some after)
          × (r.changed ≡ true)
          × (r.regenerated ≡ true)
          × (graph : Option ResolutionGraph) × IsGenerated gen after catalog
              (record m { config = some after })
              files
              graph
              o.manager
              o.files

  settle-ok :
      (r : AddonResult) (previous : List String) (o : Outcome Lock Image Files (Unit {0}))
      {s : AddonResult}
      → (settle r previous o).result ≡ ok s
      → (o.result ≡ ok tt)
        × (s ≡ record r { changed = true; regenerated = true })
        × ((settle r previous o).manager ≡ o.manager)
        × ((settle r previous o).files ≡ o.files)
  unfolding settle
  settle-ok r previous o h = elim (Result-cases o.result) [
    | inl (a, e) ↦ (e, cc (rw e at h), rw e refl, rw e refl)
    | inr (d, e) ↦ cc (rw e at h)
  ]

module _ {Lock Image Files : Type 0} (gen : Generator Lock Image Files) where
  apply_changed-IsDone :
      (name action : String) (mutate : Config → Option Config) (c : Config) (catalog : Catalog)
      (mutation : Option Config) (m : Manager Lock Image) (files : Files) {r : AddonResult}
      → ready m ≡ ok (c, catalog)
      → is_addon catalog name ≡ true
      → mutate c ≡ mutation
      → (apply_changed gen
          (record { name = name; action = action; changed = false; regenerated = false })
          c
          catalog
          mutation
          m
          files).result
        ≡ ok r
      → IsDone gen name mutate m files
          (apply_changed gen
            (record { name = name; action = action; changed = false; regenerated = false })
            c
            catalog
            mutation
            m
            files)
          r
  unfolding apply_changed
  apply_changed-IsDone name action mutate c catalog none m files {r} was listed same h = record {
    before = c;
    catalog = catalog;
    was = was;
    listed = listed;
    same_name = cc h;
    effect = inl (same, cc h, cc h, refl, refl);
  }
  apply_changed-IsDone name action mutate c catalog (some after) m files {r} was listed same h =
      let mid = record m { config = some after } in
      let (ran, told, manager, written) =
        settle-ok _ c.addons (regenerate gen after catalog mid files) h in
      let it = regenerate-IsRegenerated gen after catalog mid files in
      record {
        before = c;
        catalog = catalog;
        was = was;
        listed = listed;
        same_name = cc told;
        effect = inr (after, same, cc told, cc told, it.graph, rw (manager, written) (it.done ran));
      }

  apply_ready-IsDone :
      (name action : String) (mutate : Config → Option Config)
      (guard : Result Error (Config × Catalog)) (m : Manager Lock Image) (files : Files)
      {r : AddonResult}
      → ready m ≡ guard
      → (apply_ready gen name action mutate guard m files).result ≡ ok r
      → IsDone gen name mutate m files (apply_ready gen name action mutate guard m files) r
  unfolding apply_ready
  apply_ready-IsDone name action mutate (err d) m files was h = cc h
  apply_ready-IsDone name action mutate (ok (c, catalog)) m files was h =
      elim (Bool-cases (is_addon catalog name)) [
        | inl e ↦ rw e (
            apply_changed-IsDone name action mutate c catalog (mutate c) m files was e refl
              (rw e at h))
        | inr e ↦ cc (rw e at h)
      ]

  pub enable-IsDone :
      (name : String) (m : Manager Lock Image) (files : Files) {r : AddonResult}
      → (enable gen name m files).result ≡ ok r
      → IsDone gen name (enable_change name) m files (enable gen name m files) r
  unfolding enable apply
  enable-IsDone name m files h =
      apply_ready-IsDone name "enable" (enable_change name) (ready m) m files refl h

  pub disable-IsDone :
      (name : String) (m : Manager Lock Image) (files : Files) {r : AddonResult}
      → (disable gen name m files).result ≡ ok r
      → IsDone gen name (disable_change name) m files (disable gen name m files) r
  unfolding disable apply
  disable-IsDone name m files h =
      apply_ready-IsDone name "disable" (disable_change name) (ready m) m files refl h

-- The configuration after a change that may not have been needed.
abbrev after_change : Option Config → Config → Config
after_change none c = c
after_change (some changed) c = changed

enable_change-enabled :
    (name other : String) (c : Config)
    → is_addon_enabled (after_change (enable_change name c) c) other
      ≡ (if name == other then true else is_addon_enabled c other)
unfolding enable_change
enable_change-enabled name other c = elim (Bool-cases (is_addon_enabled c name)) [
  | inl e ↦ rw e (ground (arith, e, eq_iff name other))
  | inr e ↦ rw e (is_addon_enabled-enable_addon c name other)
]

disable_change-enabled :
    (name other : String) (c : Config)
    → is_addon_enabled (after_change (disable_change name c) c) other
      ≡ (if name == other then false else is_addon_enabled c other)
unfolding disable_change
disable_change-enabled name other c = elim (Bool-cases (is_addon_enabled c name)) [
  | inl e ↦ rw e (is_addon_enabled-disable_addon c name other)
  | inr e ↦ rw e (ground (arith, e, eq_iff name other))
]

module _ {Lock Image Files : Type 0} (gen : Generator Lock Image Files) where
  IsDone-config :
      (name : String) (mutate : Config → Option Config) (m : Manager Lock Image) (files : Files)
      (o : Outcome Lock Image Files AddonResult) (r : AddonResult) (before : Config)
      → m.config ≡ some before
      → IsDone gen name mutate m files o r
      → (graph : Option ResolutionGraph) × (o.manager.config
          ≡ some (planned graph (after_change (mutate before) before)))
  unfolding planned
  IsDone-config name mutate m files o r before was done =
      let same : before ≡ done.before =
        some-injective _ _ (sym was ∙ (ready-config m done.was).0) in
      let back : (g : Option ResolutionGraph)
          → some (planned g (after_change (mutate done.before) done.before))
            ≡ some (planned g (after_change (mutate before) before)) =
        λ g i. some (planned g (after_change (mutate (sym same i)) (sym same i))) in
      elim done.effect [
        | inl (idle, _, _, manager, _) ↦ (
          none,
          ap (λ x. x.config) manager
              ∙ was
              ∙ ap some same
              ∙ (λ i. some (after_change (sym idle i) done.before))
              ∙ back none,
        )
        | inr (after, change, _, _, graph, it) ↦ (
          graph,
          IsGenerated-config gen after done.catalog m o.manager files o.files graph it
              ∙ (λ i. some (planned graph (after_change (sym change i) done.before)))
              ∙ back graph,
        )
      ]

  -- After an `Enable` that returns without an error, the configuration has the addon enabled, and
  -- every other addon as before.
  pub is_addon_enabled-enable :
      (name : String) (m : Manager Lock Image) (files : Files) (before : Config) {r : AddonResult}
      → m.config ≡ some before
      → (enable gen name m files).result ≡ ok r
      → (after : Config) × ((enable gen name m files).manager.config ≡ some after)
        × ((other : String)
            → is_addon_enabled after other
              ≡ (if name == other then true else is_addon_enabled before other))
  is_addon_enabled-enable name m files before {r} was h =
      let (graph, now) =
        IsDone-config name (enable_change name) m files _ r before was
          (enable-IsDone gen name m files h) in
      (
        planned graph (after_change (enable_change name before) before),
        now,
        λ other. is_addon_enabled-planned graph _ other ∙ enable_change-enabled name other before,
      )

  -- After a `Disable` that returns without an error, the configuration has the addon disabled, and
  -- every other addon as before.
  pub is_addon_enabled-disable :
      (name : String) (m : Manager Lock Image) (files : Files) (before : Config) {r : AddonResult}
      → m.config ≡ some before
      → (disable gen name m files).result ≡ ok r
      → (after : Config) × ((disable gen name m files).manager.config ≡ some after)
        × ((other : String)
            → is_addon_enabled after other
              ≡ (if name == other then false else is_addon_enabled before other))
  is_addon_enabled-disable name m files before {r} was h =
      let (graph, now) =
        IsDone-config name (disable_change name) m files _ r before was
          (disable-IsDone gen name m files h) in
      (
        planned graph (after_change (disable_change name before) before),
        now,
        λ other. is_addon_enabled-planned graph _ other ∙ disable_change-enabled name other before,
      )
