-- ===== src/DeployService/Restored.antt =====
-- internal/service/deploy_service.go: what the configuration of a rollback keeps.
use deploypilot.Base.{
  ◌≡◌, ◌≢◌, refl, sym, subst, ap, inl, inr, List, [], ◌∷◌, Option, none, some, Text, arith,
  is_empty, if_cases,
}
use deploypilot.Deployer.Command.{DeployConfig as ContainerConfig}
use deploypilot.Deployer.Inspect.{ContainerStatus}
use deploypilot.DeployService.Records.{
  DeployConfig, ServiceResult, App, Journal, Bridge, last_success, find_first,
}
use deploypilot.DeployService.Run.{World, run_deploy}
use deploypilot.DeployService.Rollback.{
  with_app, with_env, with_limits, column_map, merge_snapshot, with_snapshot, snapshot_of,
  minimal_config, config_for, build_rollback_config, or_keep,
}
use deploypilot.DeployService.Outcome.{Stores, Succeeds, Recorded, Accounted, run_deploy-Accounted}
use deploypilot.DeployService.Target.{success_test}
use deploypilot.DeployService.Ready.{is_empty→eq}

-- A new configuration takes over what an old one says: all of it, but where a field is empty the
-- app's record or the default may fill it.
pub record Restores (old new : ContainerConfig) : Type 0 where
  pub network : new.network ≡ old.network
  pub volumes : new.volumes ≡ old.volumes
  pub labels : new.labels ≡ old.labels
  pub ports : old.ports ≢ [] → new.ports ≡ old.ports
  pub env_vars : old.env_vars ≢ [] → new.env_vars ≡ old.env_vars
  pub cpu : old.cpu ≢ [] → new.cpu ≡ old.cpu
  pub memory : old.memory ≢ [] → new.memory ≡ old.memory
  pub restart_policy : old.restart_policy ≢ [] → new.restart_policy ≡ old.restart_policy

or_keep_given {ℓ} : {A : Type ℓ} (xs old : List A) → xs ≢ [] → or_keep xs old ≡ xs
or_keep_given [] old n = absurd (n refl)
or_keep_given (x ∷ xs) old n = refl

or_keep_nil {ℓ} : {A : Type ℓ} (xs : List A) → or_keep xs [] ≡ xs
or_keep_nil [] = refl
or_keep_nil (x ∷ xs) = refl

-- No network, volume or label comes from the app's record, and no other image or name.
abbrev IsPlain : Text → Text → ContainerConfig → Type 0
IsPlain name image c =
    (c.network ≡ [])
    × (c.volumes ≡ [])
    × (c.labels ≡ [])
    × (c.image ≡ image)
    × (c.container_name ≡ name)

module _ (name image : Text) where
  env-IsPlain :
      (m : Option (List (Text × Text))) (c : ContainerConfig)
      → IsPlain name image c
      → IsPlain name image (with_env m c)
  unfolding with_env
  env-IsPlain none c p = p
  env-IsPlain (some m) c p = p

  limits-IsPlain :
      (m : Option (List (Text × Text))) (c : ContainerConfig)
      → IsPlain name image c
      → IsPlain name image (with_limits m c)
  unfolding with_limits
  limits-IsPlain none c p = p
  limits-IsPlain (some m) c p = p

  app-IsPlain :
      (b : Bridge) (app : App) → IsPlain name image (with_app b app (minimal_config name image))
  unfolding with_app minimal_config deploypilot.Deployer.Health.bare_config
  app-IsPlain b app =
      limits-IsPlain (column_map b app.resource_limits) _
        (env-IsPlain (column_map b app.env_vars) _ (refl, refl, refl, refl, refl))

merge-Restores :
    (name image : Text) (old c : ContainerConfig)
    → IsPlain name image c
    → let new = merge_snapshot old c in
      Restores old new × (new.image ≡ image) × (new.container_name ≡ name)
unfolding merge_snapshot
merge-Restores name image old c (n, v, l, i, m) = (
  record {
    network = rw n (or_keep_nil old.network);
    volumes = rw v (or_keep_nil old.volumes);
    labels = rw l (or_keep_nil old.labels);
    ports = or_keep_given old.ports c.ports;
    env_vars = or_keep_given old.env_vars c.env_vars;
    cpu = or_keep_given old.cpu c.cpu;
    memory = or_keep_given old.memory c.memory;
    restart_policy = or_keep_given old.restart_policy c.restart_policy;
  },
  i,
  m,
)

module _ (b : Bridge) (s : Stores b) (cfg : DeployConfig) (given : b.marshal cfg ≢ [])
    (read : b.unmarshal (b.marshal cfg) ≡ some cfg) where
  snapshot_found :
      (j j' : Journal) (r : ServiceResult ContainerStatus)
      → Recorded b cfg j r j'
      → Succeeds r
      → snapshot_of b (last_success b cfg.container.container_name j') ≡ some cfg
  unfolding last_success find_first snapshot_of
  snapshot_found j j' r (new, e, n, i, st, snap) g =
      rw (s.present, e, success_test new cfg.container.container_name n (st.1 g), snap g)
        (if_cases (λ o. o ≡ some cfg) (is_empty (b.marshal cfg)) _ _
          (λ m. absurd (given (is_empty→eq (b.marshal cfg) m))) (λ _. read))

  snapshot_by :
      (w : World) (e : ServiceResult ContainerStatus × World)
      → Accounted b s cfg w e
      → Succeeds e.0
      → snapshot_of b (last_success b cfg.container.container_name e.1.journal) ≡ some cfg
  snapshot_by w (r, w') (inl p) g = snapshot_found w.journal w'.journal r p g
  snapshot_by w (r, w') (inr (p, n, inl q)) g = cc (g.1)
  snapshot_by w (r, w') (inr (p, n, inr q)) g = cc (g.1)

  abbrev Continues : Text → Text → App → DeployConfig → Type 0
  Continues name image app new =
      (Restores cfg.container new.container
        × (new.container.image ≡ image)
        × (new.container.container_name ≡ name))
      × (new.server_id ≡ [])
      × (new.app_name ≡ app.name)

  config_for-Restores :
      (app : App) (name image : Text) (j : Journal)
      → snapshot_of b (last_success b name j) ≡ some cfg
      → Continues name image app (config_for b (some app) name image j)
  unfolding config_for with_snapshot
  config_for-Restores app name image j e =
      rw e (merge-Restores name image cfg.container _ (app-IsPlain name image b app), refl, refl)

  config_found :
      (name image : Text) (j : Journal) (app : App)
      → b.find_app name ≡ some app
      → build_rollback_config b name image j ≡ config_for b (some app) name image j
  unfolding build_rollback_config
  config_found name image j app f =
      ap (λ o. config_for b o name image j)
        (if_cases (λ o. o ≡ some app) b.has_db _ _ (λ _. f)
          (λ e. absurd (ground (arith, e, s.present))))

  -- After a deployment succeeds, the configuration that a rollback of its container builds for an app
  -- that has a record, with any image, restores that of the deployment with this image: its network,
  -- volumes and labels, and of its ports, environment, limits and restart policy each that is not
  -- empty. It names no server, on whichever server the deployment was. The database stores the
  -- records, and the configuration is read back from its JSON.
  pub build_rollback_config-Restores :
      (w : World) (app : App) (image : Text)
      → Succeeds (run_deploy b cfg w).0
      → b.find_app cfg.container.container_name ≡ some app
      → let name = cfg.container.container_name in
        let new = build_rollback_config b name image (run_deploy b cfg w).1.journal in
        (Restores cfg.container new.container
          × (new.container.image ≡ image)
          × (new.container.container_name ≡ name))
        × (new.server_id ≡ [])
        × (new.app_name ≡ app.name)
  build_rollback_config-Restores w app image g f =
      let name = cfg.container.container_name in
      let j = (run_deploy b cfg w).1.journal in
      subst (Continues name image app) (sym (config_found name image j app f)) (
        config_for-Restores app name image j
          (snapshot_by w (run_deploy b cfg w) (run_deploy-Accounted b s cfg w) g))
