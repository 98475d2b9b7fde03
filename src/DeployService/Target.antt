-- ===== src/DeployService/Target.antt =====
-- internal/service/deploy_service.go: which image a rollback goes to where none is given.
use deploypilot.Base.{
  ◌≡◌, ◌≢◌, refl, ◌∙◌, ap, true, false, inl, inr, List, [], ◌∷◌, some, Text, codes, arith,
  text_beq_iff, text_tested,
}
use deploypilot.Deployer.Inspect.{ContainerStatus}
use deploypilot.DeployService.Records.{
  DeployConfig, ServiceResult, done, DeploymentRecord, Journal, Bridge, find_first, is_success_of,
  last_success, find_previous_successful_image,
}
use deploypilot.DeployService.Run.{World, run_deploy}
use deploypilot.DeployService.Rollback.{rollback_service, rollback_with_type, rollback_found}
use deploypilot.DeployService.Outcome.{Stores, Succeeds, Recorded, Accounted, run_deploy-Accounted}

pub success_test :
    (r : DeploymentRecord) (name : Text)
    → r.container_name ≡ name
    → r.status ≡ codes "success"
    → is_success_of name r ≡ true
success_test r name n s =
    ground
      (arith, text_beq_iff r.container_name name, text_beq_iff r.status (codes "success"), n, s)

failure_test :
    (r : DeploymentRecord) (name : Text) → r.status ≢ codes "success" → is_success_of name r ≡ false
failure_test r name n = ground (arith, text_beq_iff r.status (codes "success"), n)

-- The worlds after deployments one after the other.
unfoldable pub deploys : Bridge → List DeployConfig → World → World
deploys b [] w = w
deploys b (cfg ∷ cfgs) w = deploys b cfgs (run_deploy b cfg w).1

-- Each of the deployments fails.
unfoldable pub AllFail : Bridge → List DeployConfig → World → Type 0
AllFail b [] w = Unit
AllFail b (cfg ∷ cfgs) w =
    ((cs : ContainerStatus) → (run_deploy b cfg w).0 ≢ done cs)
    × AllFail b cfgs (run_deploy b cfg w).1

module _ (b : Bridge) (s : Stores b) where
  found_after :
      (cfg : DeployConfig) (j j' : Journal) (r : ServiceResult ContainerStatus)
      → Recorded b cfg j r j'
      → Succeeds r
      → find_previous_successful_image b cfg.container.container_name j' ≡ some cfg.container.image
  unfolding find_previous_successful_image last_success find_first
  found_after cfg j j' r (new, e, n, i, st, snap) succeeded =
      rw (s.present, e, success_test new cfg.container.container_name n (st.1 succeeded))
        (ap some i)

  kept_after :
      (cfg : DeployConfig) (j j' : Journal) (r : ServiceResult ContainerStatus) (name : Text)
      → Recorded b cfg j r j'
      → ((cs : ContainerStatus) → r ≢ done cs)
      → find_previous_successful_image b name j' ≡ find_previous_successful_image b name j
  unfolding find_previous_successful_image last_success find_first
  kept_after cfg j j' r name (new, e, n, i, st, snap) f =
      rw (s.present, e, failure_test new name (λ t. let (cs, d) = st.0 t in f cs d)) refl

  kept_by :
      (cfg : DeployConfig) (w : World) (e : ServiceResult ContainerStatus × World) (name : Text)
      → Accounted b s cfg w e
      → ((cs : ContainerStatus) → e.0 ≢ done cs)
      → find_previous_successful_image b name e.1.journal
        ≡ find_previous_successful_image b name w.journal
  kept_by cfg w (r, w') name (inl p) f = kept_after cfg w.journal w'.journal r name p f
  kept_by cfg w (r, w') name (inr p) f =
      ap (λ (v : World). find_previous_successful_image b name v.journal) p.0

  found_by :
      (cfg : DeployConfig) (w : World) (e : ServiceResult ContainerStatus × World)
      → Accounted b s cfg w e
      → Succeeds e.0
      → find_previous_successful_image b cfg.container.container_name e.1.journal
        ≡ some cfg.container.image
  found_by cfg w (r, w') (inl p) g = found_after cfg w.journal w'.journal r p g
  found_by cfg w (r, w') (inr (p, n, inl q)) g = cc (g.1)
  found_by cfg w (r, w') (inr (p, n, inr q)) g = cc (g.1)

  deploys-keep :
      (cfgs : List DeployConfig) (w : World) (name : Text)
      → AllFail b cfgs w
      → find_previous_successful_image b name (deploys b cfgs w).journal
        ≡ find_previous_successful_image b name w.journal
  unfolding deploys AllFail
  deploys-keep [] w name f = refl
  deploys-keep (cfg ∷ cfgs) w name (f, fs) =
      deploys-keep cfgs (run_deploy b cfg w).1 name fs
      ∙ kept_by cfg w (run_deploy b cfg w) name (run_deploy-Accounted b s cfg w) f

  rollback-found :
      (name image : Text) (w : World)
      → image ≢ []
      → find_previous_successful_image b name w.journal ≡ some image
      → rollback_service b name [] w ≡ rollback_service b name image w
  unfolding rollback_service rollback_with_type rollback_found
  rollback-found name [] w n e = absurd (n refl)
  rollback-found name (c ∷ image) w n e = rw e refl

  -- After a deployment that succeeds and any deployments, of whatever containers, that fail, a
  -- rollback of its container with no image does exactly what one to its own image does.
  pub rollback_service-deploys :
      (cfg : DeployConfig) (cfgs : List DeployConfig) (w : World)
      → cfg.container.image ≢ []
      → Succeeds (run_deploy b cfg w).0
      → AllFail b cfgs (run_deploy b cfg w).1
      → let w' = deploys b cfgs (run_deploy b cfg w).1 in
        rollback_service b cfg.container.container_name [] w'
        ≡ rollback_service b cfg.container.container_name cfg.container.image w'
  rollback_service-deploys cfg cfgs w n g f =
      rollback-found cfg.container.container_name cfg.container.image _ n (
        deploys-keep cfgs (run_deploy b cfg w).1 cfg.container.container_name f
        ∙ found_by cfg w (run_deploy b cfg w) (run_deploy-Accounted b s cfg w) g)
