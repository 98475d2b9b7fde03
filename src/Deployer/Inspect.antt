-- ===== src/Deployer/Inspect.antt =====
-- internal/engine/deployer/deployer.go: what `docker inspect` answers, and the small operations.
use deploypilot.Base.{
  ℕ, Bool, List, ◌∷◌, Option, none, some, Text, codes, is_empty, if◌then◌else◌, ◌==◌, text_tested,
  ◌||◌, not,
}
use deploypilot.Strings.{ℤ, pos, trim_space, split, trim_prefix, atoi}
use deploypilot.Deployer.{
  Host, M, Result, ok, err, inspect_failed, not_found, bad_format, stop_failed, remove_failed,
  ◌>>=◌, ◌>>◌, pure, require, attempt, exec,
}
use deploypilot.Deployer.Command.{
  inspect_command, stop_command, remove_command, detail_command, restart_count_command,
}

-- The fields that the code fills in; `Ports` and `Labels` stay empty.
pub record ContainerStatus : Type 0 where
  pub id : Text
  pub name : Text
  pub image : Text
  pub status : Text
  pub created_at : ℕ

abbrev time_or : Option ℕ → ℕ → ℕ
time_or none now = now
time_or (some t) now = t

-- The parts of a split answer: fewer than five are refused, and those behind the fifth ignored.
pub status_of_parts : Host → List Text → Result ContainerStatus
status_of_parts h (id ∷ name ∷ image ∷ status ∷ created ∷ rest) = ok (record {
  id = id;
  name = trim_prefix b'/' name;
  image = image;
  status = status;
  created_at = time_or (h.parse_time created) h.now;
})
status_of_parts h _ = err bad_format

-- What `GetContainerStatus` makes of the answer.
unfoldable pub parse_status : Host → Text → Result ContainerStatus
unfolding status_of_parts
parse_status h output =
    let out = trim_space output in
    if is_empty out then err not_found else status_of_parts h (split out b'|')

abbrev lift {ℓ} : {A : Type ℓ} → Result A → M A
lift r log = (r, log)

-- `GetContainerStatus`
unfoldable pub get_container_status : Host → Text → M ContainerStatus
unfolding parse_status
get_container_status h name = do
  output ← exec h inspect_failed (inspect_command name)
  lift (parse_status h output)

-- `Stop`
unfoldable pub stop : Host → Text → M (Unit {0})
stop h name = exec h stop_failed (stop_command name) >> pure tt

-- `Remove`
unfoldable pub remove : Host → Text → M (Unit {0})
remove h name = exec h remove_failed (remove_command name) >> pure tt

pub record ContainerDetail : Type 0 where
  pub base : ContainerStatus
  pub oom_killed : Bool
  pub exit_code : ℤ
  pub restart_count : ℤ
  pub pid : ℤ
  pub started_at : Text
  pub finished_at : Text
  pub health : Text

-- The fields of the first answer: `restarting`, the third, is not read.
pub record DetailFields : Type 0 where
  pub oom : Text
  pub code : Text
  pub pid : Text
  pub started : Text
  pub finished : Text
  pub health : Text

pub detail_of_parts : List Text → Result DetailFields
detail_of_parts (oom ∷ code ∷ restarting ∷ pid ∷ started ∷ finished ∷ health ∷ rest) = ok (record {
  oom = trim_space oom;
  code = trim_space code;
  pid = trim_space pid;
  started = trim_space started;
  finished = trim_space finished;
  health = trim_space health;
})
detail_of_parts _ = err bad_format

pub health_of : Text → Text
health_of health = if health == codes "<nil>" || is_empty health then codes "none" else health

pub restart_count_of : Result Text → ℤ
restart_count_of (ok out) = atoi (trim_space out)
restart_count_of (err e) = pos 0

-- `GetContainerDetail`
unfoldable pub get_container_detail : Host → Text → M ContainerDetail
unfolding detail_of_parts health_of restart_count_of
get_container_detail h name = do
  output ← exec h not_found (detail_command name)
  require (not (is_empty output)) not_found
  fields ← lift (detail_of_parts (split (trim_space output) b'|'))
  counted ← attempt (exec h inspect_failed (restart_count_command name))
  status ← get_container_status h name
  pure (record {
    base = status;
    oom_killed = fields.oom == codes "true";
    exit_code = atoi fields.code;
    restart_count = restart_count_of counted;
    pid = atoi fields.pid;
    started_at = fields.started;
    finished_at = fields.finished;
    health = health_of fields.health;
  })
