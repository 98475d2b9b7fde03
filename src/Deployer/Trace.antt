-- ===== src/Deployer/Trace.antt =====
-- internal/engine/deployer/deployer.go: which commands `Deploy` runs, and what it answers.
use deploypilot.Base.{
  ℕ, ◌≡◌, ◌≢◌, refl, List, [], ◌∷◌, Option, none, some, Text, codes, arith, join, All,
}
use deploypilot.Strings.{trim_space, trim_prefix}
use deploypilot.Strings.Split.{Lacks, split-join}
use deploypilot.Deployer.{Host, ok, err, image_required, name_required, pull_failed, run_failed}
use deploypilot.Deployer.Command.{
  DeployConfig, pull_command, replace_command, build_run_command, inspect_command,
}
use deploypilot.Deployer.Inspect.{get_container_status, parse_status}
use deploypilot.Deployer.Deploy.{deploy, minimal_status, status_or}

module _ (h : Host) (cfg : DeployConfig) (log : List Text) where
  -- The commands run before each step.
  abbrev pub after_pull : List Text
  after_pull = pull_command cfg.image ∷ log

  abbrev pub after_replace : List Text
  after_replace = replace_command cfg.container_name ∷ after_pull

  abbrev pub after_run : List Text
  after_run = build_run_command cfg ∷ after_replace

  -- What the host answers to the pull and to the run, when they are made.
  abbrev pub pulled : Option Text
  pulled = h.run_command log (pull_command cfg.image)

  abbrev pub ran : Option Text
  ran = h.run_command after_replace (build_run_command cfg)

  no_image : cfg.image ≡ [] → deploy h cfg log ≡ (err image_required, log)
  unfolding deploy
  no_image e = ground arith

  no_name : cfg.image ≢ [] → cfg.container_name ≡ [] → deploy h cfg log ≡ (err name_required, log)
  unfolding deploy
  no_name i n = ground arith

  module _ (image : cfg.image ≢ []) (name : cfg.container_name ≢ []) where
    pull_fails : pulled ≡ none → deploy h cfg log ≡ (err pull_failed, after_pull)
    unfolding deploy
    pull_fails p = ground arith

    run_fails : pulled ≢ none → ran ≡ none → deploy h cfg log ≡ (err run_failed, after_run)
    unfolding deploy
    run_fails p r = ground arith

    run_succeeds :
        (out : Text)
        → pulled ≢ none
        → ran ≡ some out
        → deploy h cfg log ≡ (
          ok (
              status_or
                (minimal_status cfg out)
                (get_container_status h cfg.container_name after_run).0),
          inspect_command cfg.container_name ∷ after_run,
        )
    unfolding deploy get_container_status
    run_succeeds out p r = ground arith

  -- A configuration with no image or no name runs no command. A pull that fails is the only command,
  -- so the container that is running is not touched. After a pull the container of that name is
  -- removed and the new one run, in this order, whatever the removal answers; a run that fails ends
  -- the deployment. A run that succeeds is followed by one inspection, and the deployment succeeds
  -- whatever that answers: its status is the one
  -- inspected, or a minimal one where the inspection fails.
  pub deploy_trace :
      ((cfg.image ≡ []) → deploy h cfg log ≡ (err image_required, log))
      × (cfg.image ≢ [] → cfg.container_name ≡ [] → deploy h cfg log ≡ (err name_required, log))
      × (cfg.image ≢ []
          → cfg.container_name ≢ []
          → (pulled ≡ none → deploy h cfg log ≡ (err pull_failed, after_pull))
            × (pulled ≢ none → ran ≡ none → deploy h cfg log ≡ (err run_failed, after_run))
            × (pulled ≢ none
                → (out : Text) → ran ≡ some out
                → deploy h cfg log ≡ (
                  ok (
                      status_or
                        (minimal_status cfg out)
                        (get_container_status h cfg.container_name after_run).0),
                  inspect_command cfg.container_name ∷ after_run,
                )))
  deploy_trace = (
    no_image,
    no_name,
    λ i n. (pull_fails i n, run_fails i n, λ p out r. run_succeeds i n out p r),
  )

-- The answer of `docker inspect` for fields that hold no `|`, with any blanks that the trimming
-- takes off its ends, is read back field by field; the name loses its leading `/`.
pub parse_status-join :
    (h : Host) (output id name image status created : Text) (t : ℕ)
    → trim_space output ≡ join (codes "|") (id ∷ (b'/' ∷ name) ∷ image ∷ status ∷ created ∷ [])
    → id ≢ []
    → All (Lacks b'|') (id ∷ (b'/' ∷ name) ∷ image ∷ status ∷ created ∷ [])
    → h.parse_time created ≡ some t
    → parse_status h output
      ≡ ok (record { id = id; name = name; image = image; status = status; created_at = t })
unfolding parse_status join trim_prefix
parse_status-join h output [] name image status created t o i f c = absurd (i refl)
parse_status-join h output (d ∷ id) name image status created t o i f c =
    rw (o, join, split-join b'|' (d ∷ id) _ f) (rw c)
