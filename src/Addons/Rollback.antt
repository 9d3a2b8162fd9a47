-- ===== src/Addons/Rollback.antt =====
-- internal/addons/manager.go: a change of one addon either happens or leaves the manager as it was.
use sdbx.Generator.{Generator, planned, activate_config_services}
use sdbx.Registry.Types.Resolved.{Cause, ResolutionGraph}
use sdbx.Base.{
  String, ◌==◌, List, Option, none, some, Result, ok, err, ◌≡◌, refl, sym, ◌∙◌, inl, inr,
  Bool-cases, Option-cases, Result-cases, err-ne-ok, Check, ◌⊎◌, ap,
}
use mathlib.Core.Path.{subst}
use mathlib.Core.Option.{some-injective}
use sdbx.Config.{Config, is_addon_enabled, enable_addon, disable_addon}
use sdbx.Registry.Resolver.{Catalog}
use sdbx.Addons.{
  Error, Manager, Generator, Outcome, AddonResult, ready, set_addons, regenerate, regenerate_locked,
  generated, relocked, settle, apply, apply_ready, apply_changed, enable, disable, enable_change,
  disable_change, is_addon, lock_requires_version_and_resolver, returns, after_plan,
}

not_planned_config :
    (o : Option Config) → o ≡ elim o [ none ↦ none | some c ↦ some (planned none c) ]
unfolding planned
not_planned_config none = refl
not_planned_config (some c) = refl

-- Without a graph nothing is written.
not_planned : {Lock Image : Type 0} → (m : Manager Lock Image) → m ≡ after_plan none m
unfolding after_plan
not_planned m = λ i. record m { config = not_planned_config m.config i }

module _ {Lock Image Files : Type 0} (gen : Generator Lock Image Files) where
  -- What a regeneration that succeeds has done: the generator was asked for the files of the
  -- configuration, in the way that the manager's lock asks for, and wrote them; and the manager has
  -- what `Plan` wrote to the configuration, and the new lock if there is one.
  abbrev pub IsGenerated :
      Config
      → Catalog
      → Manager Lock Image
      → Files
      → Option ResolutionGraph
      → Manager Lock Image
      → Files
      → Type 0
  IsGenerated c catalog m files graph now written =
      (m.lock ≡ none)
        × (gen.generate_runtime_files c m.project_dir catalog files ≡ (ok tt, graph, written))
        × (now ≡ after_plan graph m)
      ⊎ (lock : Lock) × (image : Image) × (new : Lock) × (m.lock ≡ some lock)
        × (m.image_resolver ≡ some image)
        × (gen.regenerate_runtime_with_updated_lock c m.project_dir catalog lock m.cli_version image
              files
            ≡ (ok new, graph, written))
        × (now ≡ record (after_plan graph m) { lock = some new })

  -- A call of the generator for the configuration failed, with what `Plan` had written.
  abbrev pub HasFailed :
      Config → Catalog → Manager Lock Image → Files → Option ResolutionGraph → Type 0
  HasFailed c catalog m files graph =
      (cause : Cause) × (written : Files) × ((m.lock ≡ none)
          × (gen.generate_runtime_files c m.project_dir catalog files ≡ (err cause, graph, written))
        ⊎ (lock : Lock) × (image : Image) × (m.lock ≡ some lock)
          × (m.image_resolver ≡ some image)
          × (gen.regenerate_runtime_with_updated_lock c m.project_dir catalog lock m.cli_version
                image files
              ≡ (err cause, graph, written)))

  -- Either way, the manager changes in nothing else: where it fails, only in what `Plan` wrote.
  pub record IsRegenerated (c : Config) (catalog : Catalog) (m : Manager Lock Image) (files : Files)
      (o : Outcome Lock Image Files (Unit {0})) : Type 0 where
    pub graph : Option ResolutionGraph
    pub done : o.result ≡ ok tt → IsGenerated c catalog m files graph o.manager o.files
    pub undone : {e : Error} → o.result ≡ err e → o.manager ≡ after_plan graph m
    pub failed : {e : Error} → o.result ≡ err e → (graph ≡ none) ⊎ HasFailed c catalog m files graph

  -- The configuration that was regenerated is still there, with what `Plan` wrote.
  pub IsGenerated-config :
      (c : Config) (catalog : Catalog) (m now : Manager Lock Image) (files written : Files)
      (graph : Option ResolutionGraph)
      → IsGenerated c catalog (record m { config = some c }) files graph now written
      → now.config ≡ some (planned graph c)
  unfolding after_plan
  IsGenerated-config c catalog m now files written graph (inl (_, _, same)) =
      ap (λ x. x.config) same
  IsGenerated-config c catalog m now files written graph (inr (_, _, _, _, _, _, same)) =
      ap (λ x. x.config) same

  refused-IsRegenerated :
      (c : Config) (catalog : Catalog) (m : Manager Lock Image) (files : Files) (e : Error)
      → IsRegenerated c catalog m files (returns (err e) m files)
  refused-IsRegenerated c catalog m files e = record {
    graph = none;
    done = λ h. absurd (err-ne-ok h);
    undone = λ h. not_planned m;
    failed = λ h. inl refl;
  }

  generated-IsRegenerated :
      (c : Config) (catalog : Catalog) (m : Manager Lock Image) (files : Files)
      (answer : Check Cause × Option ResolutionGraph × Files)
      → m.lock ≡ none
      → gen.generate_runtime_files c m.project_dir catalog files ≡ answer
      → IsRegenerated c catalog m files (generated m answer)
  unfolding generated
  generated-IsRegenerated c catalog m files (ok _, graph, after) has call = record {
    graph = graph;
    done = λ h. inl (has, call, refl);
    undone = λ h. absurd (err-ne-ok (sym h));
    failed = λ h. absurd (err-ne-ok (sym h));
  }
  generated-IsRegenerated c catalog m files (err e, graph, after) has call = record {
    graph = graph;
    done = λ h. absurd (err-ne-ok h);
    undone = λ h. refl;
    failed = λ h. inr (e, after, inl (has, call));
  }

  relocked-IsRegenerated :
      (c : Config) (catalog : Catalog) (m : Manager Lock Image) (files : Files) (lock : Lock)
      (image : Image) (answer : Result Cause Lock × Option ResolutionGraph × Files)
      → m.lock ≡ some lock
      → m.image_resolver ≡ some image
      → gen.regenerate_runtime_with_updated_lock c m.project_dir catalog lock m.cli_version image
          files
        ≡ answer
      → IsRegenerated c catalog m files (relocked m answer)
  unfolding relocked
  relocked-IsRegenerated c catalog m files lock image (ok new, graph, after) has asks call =
      record {
        graph = graph;
        done = λ h. inr (lock, image, new, has, asks, call, refl);
        undone = λ h. absurd (err-ne-ok (sym h));
        failed = λ h. absurd (err-ne-ok (sym h));
      }
  relocked-IsRegenerated c catalog m files lock image (err e, graph, after) has asks call = record {
    graph = graph;
    done = λ h. absurd (err-ne-ok h);
    undone = λ h. refl;
    failed = λ h. inr (e, after, inr (lock, image, has, asks, call));
  }

  regenerate_locked-IsRegenerated :
      (lock : Option Lock) (image : Option Image) (c : Config) (catalog : Catalog)
      (m : Manager Lock Image) (files : Files)
      → m.lock ≡ lock
      → m.image_resolver ≡ image
      → IsRegenerated c catalog m files (regenerate_locked gen lock image c catalog m files)
  unfolding regenerate_locked
  regenerate_locked-IsRegenerated none image c catalog m files has asks =
      generated-IsRegenerated c catalog m files _ has refl
  regenerate_locked-IsRegenerated (some lock) none c catalog m files has asks =
      refused-IsRegenerated c catalog m files lock_requires_version_and_resolver
  regenerate_locked-IsRegenerated (some lock) (some image) c catalog m files has asks =
      elim (Bool-cases (m.cli_version == "")) [
        | inl e ↦ rw e (refused-IsRegenerated c catalog m files lock_requires_version_and_resolver)
        | inr e ↦ rw e (relocked-IsRegenerated c catalog m files lock image _ has asks refl)
      ]

  pub regenerate-IsRegenerated :
      (c : Config) (catalog : Catalog) (m : Manager Lock Image) (files : Files)
      → IsRegenerated c catalog m files (regenerate gen c catalog m files)
  unfolding regenerate
  regenerate-IsRegenerated c catalog m files =
      regenerate_locked-IsRegenerated m.lock m.image_resolver c catalog m files refl refl

module _ {Lock Image : Type 0} where
  -- What the guards let through.
  pub ready-config :
      (m : Manager Lock Image) {c : Config} {catalog : Catalog}
      → ready m ≡ ok (c, catalog)
      → (m.config ≡ some c) × (m.registry ≡ some catalog)
  unfolding ready
  ready-config m h = elim (Bool-cases (m.project_dir == "")) [
    | inl e ↦ cc (rw e at h)
    | inr e ↦ elim (Option-cases m.config) [
      | inl f ↦ cc (rw (e, f) at h)
      | inr (c, f) ↦ elim (Option-cases m.registry) [
        | inl g ↦ cc (rw (e, f, g) at h)
        | inr (catalog, g) ↦ (cc (rw (e, f, g) at h), cc (rw (e, f, g) at h))
      ]
    ]
  ]

  -- Writing the old list of addons back undoes a change of the addons only, but not what `Plan`
  -- wrote.
  pub set_addons_back :
      (m : Manager Lock Image) (c changed : Config) (graph : Option ResolutionGraph)
      → m.config ≡ some c
      → record changed { addons = c.addons } ≡ c
      → set_addons c.addons (after_plan graph (record m { config = some changed }))
        ≡ after_plan graph m
  unfolding set_addons after_plan planned activate_config_services
  set_addons_back m c changed none was back =
      (λ i. record m { config = some (back i) })
      ∙ (λ i. after_plan none (record m { config = sym was i }))
  set_addons_back m c changed (some graph) was back =
      (λ i. after_plan (some graph) (record m { config = some (back i) }))
      ∙ (λ i. after_plan (some graph) (record m { config = sym was i }))

module _ {Lock Image Files : Type 0} (gen : Generator Lock Image Files) where
  -- The manager is `m` again, except for what `Plan` wrote to cfg.ActiveServices if the generator was
  -- called, and failed, for a configuration: that is not rolled back.
  pub record IsRolledBack (m : Manager Lock Image) (files : Files) (now : Manager Lock Image)
      : Type 0 where
    pub graph : Option ResolutionGraph
    pub same : now ≡ after_plan graph m
    pub failed :
        (graph ≡ none)
        ⊎ (changed : Config) × (catalog : Catalog) × HasFailed gen changed catalog m files graph

  pub untouched-IsRolledBack : (m : Manager Lock Image) (files : Files) → IsRolledBack m files m
  untouched-IsRolledBack m files = record { graph = none; same = not_planned m; failed = inl refl }

  pub called-IsRolledBack :
      (m now : Manager Lock Image) (files : Files) (changed : Config) (catalog : Catalog)
      (graph : Option ResolutionGraph)
      → now ≡ after_plan graph m
      → (graph ≡ none)
        ⊎ HasFailed gen changed catalog (record m { config = some changed }) files graph
      → IsRolledBack m files now
  called-IsRolledBack m now files changed catalog graph same (inl is) = record {
    graph = graph;
    same = same;
    failed = inl is;
  }
  called-IsRolledBack m now files changed catalog graph same (inr call) = record {
    graph = graph;
    same = same;
    failed = inr (changed, catalog, call);
  }

-- A change of the addons only.
abbrev pub ChangesAddons : (Config → Option Config) → Type 0
ChangesAddons mutate =
    (c changed : Config) → mutate c ≡ some changed → record changed { addons = c.addons } ≡ c

addons_back : Config → Config → Config
addons_back c changed = record changed { addons = c.addons }

enable_addon-back : (name : String) (c : Config) → addons_back c (enable_addon name c) ≡ c
unfolding enable_addon addons_back
enable_addon-back name c = elim (Bool-cases (is_addon_enabled c name)) [
  | inl e ↦ rw e refl
  | inr e ↦ rw e refl
]

enable_change-ChangesAddons : (name : String) → ChangesAddons (enable_change name)
unfolding enable_change addons_back
enable_change-ChangesAddons name c changed h = elim (Bool-cases (is_addon_enabled c name)) [
  | inl e ↦ cc (rw e at h)
  | inr e ↦
      subst (λ x. addons_back c x ≡ c) (some-injective _ _ (rw e at h)) (enable_addon-back name c)
]

disable_change-ChangesAddons : (name : String) → ChangesAddons (disable_change name)
unfolding disable_change disable_addon addons_back
disable_change-ChangesAddons name c changed h = elim (Bool-cases (is_addon_enabled c name)) [
  | inl e ↦ subst (λ x. addons_back c x ≡ c) (some-injective _ _ (rw e at h)) refl
  | inr e ↦ cc (rw e at h)
]

module _ {Lock Image Files : Type 0} where
  settle-err :
      (r : AddonResult) (previous : List String) (o : Outcome Lock Image Files (Unit {0}))
      {e : Error}
      → (settle r previous o).result ≡ err e
      → (d : Error) × (o.result ≡ err d)
        × ((settle r previous o).manager ≡ set_addons previous o.manager)
  unfolding settle
  settle-err r previous o h = elim (Result-cases o.result) [
    | inl (a, e) ↦ cc (rw e at h)
    | inr (d, e) ↦ (d, e, rw e refl)
  ]

module _ {Lock Image Files : Type 0} (gen : Generator Lock Image Files) where
  apply_changed-err :
      (r : AddonResult) (c : Config) (catalog : Catalog) (mutation : Option Config)
      (m : Manager Lock Image) (files : Files) {e : Error}
      → m.config ≡ some c
      → ((changed : Config) → mutation ≡ some changed → record changed { addons = c.addons } ≡ c)
      → (apply_changed gen r c catalog mutation m files).result ≡ err e
      → IsRolledBack gen m files (apply_changed gen r c catalog mutation m files).manager
  unfolding apply_changed
  apply_changed-err r c catalog none m files was back h = untouched-IsRolledBack gen m files
  apply_changed-err r c catalog (some changed) m files was back h =
      let mid = record m { config = some changed } in
      let (d, failed, rolled) =
        settle-err r c.addons (regenerate gen changed catalog mid files) h in
      let it = regenerate-IsRegenerated gen changed catalog mid files in
      called-IsRolledBack gen m _ files changed catalog it.graph
        (rolled
          ∙ (λ i. set_addons c.addons (it.undone failed i))
          ∙ set_addons_back m c changed it.graph was (back changed refl))
        (it.failed failed)

  apply_ready-err :
      (name action : String) (mutate : Config → Option Config)
      → ChangesAddons mutate
      → (guard : Result Error (Config × Catalog)) (m : Manager Lock Image) (files : Files)
        {e : Error}
      → ready m ≡ guard
      → (apply_ready gen name action mutate guard m files).result ≡ err e
      → IsRolledBack gen m files (apply_ready gen name action mutate guard m files).manager
  unfolding apply_ready
  apply_ready-err name action mutate only (err d) m files was h = untouched-IsRolledBack gen m files
  apply_ready-err name action mutate only (ok (c, catalog)) m files was h =
      elim (Bool-cases (is_addon catalog name)) [
        | inl e ↦ rw e (
            apply_changed-err _ c catalog (mutate c) m files (ready-config m was).0 (only c)
              (rw e at h))
        | inr e ↦ rw e (untouched-IsRolledBack gen m files)
      ]

  -- Where enabling an addon fails, the manager is as it was before the call, its lock and its addons
  -- included, except that the active services of its configuration may be those that the generator
  -- planned before it failed.
  pub enable_restores :
      (name : String) (m : Manager Lock Image) (files : Files) {e : Error}
      → (enable gen name m files).result ≡ err e
      → IsRolledBack gen m files (enable gen name m files).manager
  unfolding enable apply
  enable_restores name m files h =
      apply_ready-err name "enable" _ (enable_change-ChangesAddons name) (ready m) m files refl h

  -- Where disabling an addon fails, the manager is as it was before the call, its lock and its addons
  -- included, except that the active services of its configuration may be those that the generator
  -- planned before it failed.
  pub disable_restores :
      (name : String) (m : Manager Lock Image) (files : Files) {e : Error}
      → (disable gen name m files).result ≡ err e
      → IsRolledBack gen m files (disable gen name m files).manager
  unfolding disable apply
  disable_restores name m files h =
      apply_ready-err name "disable" _ (disable_change-ChangesAddons name) (ready m) m files refl h
