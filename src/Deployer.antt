-- ===== src/Deployer.antt =====
-- internal/engine/deployer/deployer.go. An operation is a function of the commands that were run
-- before it, the newest first, and answers with its result and the commands run after it. The host
-- answers a command by those run before; the text of an error is not kept, but which one it is.
pub mod Command
pub mod Inspect
pub mod Deploy
pub mod Health
pub mod Argv
pub mod Trace
pub mod Rounds
pub mod Rollback
mod Tests
use deploypilot.Base.{ℕ, Bool, true, false, List, [], ◌∷◌, Option, none, some, Text, is_empty}

pub data Error : Type 0 where
  image_required name_required pull_failed run_failed inspect_failed not_found bad_format
        stop_failed remove_failed logs_failed check_failed cancelled :
      Error

pub data Result {ℓ} (A : Type ℓ) : Type ℓ where
  ok : A → Result A
  err : Error → Result A

-- What the code reaches outside itself: `RunCommand` of the executor, `time.Parse` of RFC 3339 and
-- `time.Now` (used where that parse fails).
pub record Host : Type 0 where
  pub run_command : List Text → Text → Option Text
  pub parse_time : Text → Option ℕ
  pub now : ℕ

abbrev pub M {ℓ} : Type ℓ → Type ℓ
M A = List Text → Result A × List Text

infixl 5 ◌>>=◌ ◌>>◌
abbrev pub ◌>>=◌ {ℓ κ} : {A : Type ℓ} {B : Type κ} → M A → (A → M B) → M B
◌>>=◌ m f log = let (r, log') = m log in elim r [ ok a ↦ f a log' | err e ↦ (err e, log') ]

abbrev pub ◌>>◌ {ℓ κ} : {A : Type ℓ} {B : Type κ} → M A → M B → M B
m >> k = m >>= λ _. k

abbrev pub pure {ℓ} : {A : Type ℓ} → A → M A
pure a log = (ok a, log)

abbrev pub fail {ℓ} : {A : Type ℓ} → Error → M A
fail e log = (err e, log)

abbrev pub require : Bool → Error → M (Unit {0})
require true e = pure tt
require false e = fail e

-- The result of a step whose error does not end the operation.
abbrev pub attempt {ℓ} : {A : Type ℓ} → M A → M (Result A)
attempt m log = let (r, log') = m log in (ok r, log')

abbrev answer : Error → Option Text → Result Text
answer e none = err e
answer e (some out) = ok out

-- A command, and the error that its failure becomes.
abbrev pub exec : Host → Error → Text → M Text
exec h e cmd log = (answer e (h.run_command log cmd), cmd ∷ log)
