-- ===== src/Deployer/Argv.antt =====
-- internal/engine/deployer/deployer.go: the words that the shell reads from the command that
-- `buildRunCommand` builds.
use deploypilot.Base.{
  ◌≡◌, refl, ap, sym, ◌∙◌, some, List, [], ◌∷◌, ◌++◌, map, Text, codes, is_empty, join,
  if◌then◌else◌, append_assoc, append-nil,
}
use deploypilot.Shell.{blanked, shell_quote}
use deploypilot.Shell.Lexer.{shell_words, lex, step}
use deploypilot.Shell.Quote.{lex-shell_quote_end}
use deploypilot.Shell.Argv.{
  between, within, Arg, arg_words, arg_texts, IsFlag, flag_reads, pair_reads, shell_words-join,
}
use deploypilot.Deployer.Command.{
  DeployConfig, policy_of, optional_arg, pair_arg, option_args, build_run_command,
}

abbrev optional_words : Text → Text → List Text
optional_words flag value = if is_empty value then [] else flag ∷ blanked value ∷ []

abbrev pair_words : Text → List (Text × Text) → List Text
pair_words flag [] = []
pair_words flag ((k, v) ∷ ps) = flag ∷ ((blanked k ++ b'=' ∷ []) ++ blanked v) ∷ pair_words flag ps

-- The words that the optional part of a command is meant to have.
abbrev option_words : DeployConfig → List Text
option_words cfg =
    optional_words (codes "-p") cfg.ports
    ++ (optional_words (codes "-v") cfg.volumes
        ++ (pair_words (codes "-e") cfg.env_vars
            ++ (pair_words (codes "-l") cfg.labels
                ++ (optional_words (codes "--cpus") cfg.cpu
                    ++ (optional_words (codes "--memory") cfg.memory
                        ++ (optional_words (codes "--network") cfg.network
                            ++ blanked cfg.image ∷ []))))))

-- The arguments that a container is meant to be run with: each value is one word, as it is but for
-- a space in place of each control character.
unfoldable pub run_argv : DeployConfig → List Text
run_argv cfg =
    codes "docker"
    ∷ codes "run"
    ∷ codes "-d"
    ∷ codes "--name"
    ∷ blanked cfg.container_name
    ∷ codes "--restart"
    ∷ blanked (policy_of cfg)
    ∷ option_words cfg

-- The arguments with a prefix as texts and as words.
record Args (texts words : List Text) : Type 0 where
  args : List Arg
  same_texts : arg_texts args ≡ texts
  same_words : arg_words args ≡ words

module _ (prefix flag : Text) (f : IsFlag prefix flag) where
  flag_arg : Text → Arg
  flag_arg value = record {
    text = prefix ++ shell_quote value;
    front = flag ∷ [];
    last = blanked value;
    reads = flag_reads prefix flag f value;
  }

  optional_Args : (value : Text) → Args (optional_arg prefix value) (optional_words flag value)
  unfolding flag_arg
  optional_Args [] = record { args = []; same_texts = refl; same_words = refl }
  optional_Args (c ∷ s) = record {
    args = flag_arg (c ∷ s) ∷ [];
    same_texts = refl;
    same_words = refl;
  }

  pair_Args : (ps : List (Text × Text)) → Args (map (pair_arg prefix) ps) (pair_words flag ps)
  pair_Args [] = record { args = []; same_texts = refl; same_words = refl }
  pair_Args ((k, v) ∷ ps) =
      let rest = pair_Args ps in
      record {
        args =
            record {
              text = pair_arg prefix (k, v);
              front = flag ∷ [];
              last = (blanked k ++ b'=' ∷ []) ++ blanked v;
              reads = pair_reads prefix flag f k v;
            }
            ∷ rest.args;
        same_texts = ap (◌∷◌ (pair_arg prefix (k, v))) rest.same_texts;
        same_words = ap (λ ws. flag ∷ ((blanked k ++ b'=' ∷ []) ++ blanked v) ∷ ws) rest.same_words;
      }

append_texts : (as' bs : List Arg) → arg_texts (as' ++ bs) ≡ arg_texts as' ++ arg_texts bs
append_texts [] bs = refl
append_texts (a ∷ cs) bs = ap (◌∷◌ a.text) (append_texts cs bs)

append_words : (as' bs : List Arg) → arg_words (as' ++ bs) ≡ arg_words as' ++ arg_words bs
append_words [] bs = refl
append_words (a ∷ cs) bs = rw (append_words cs bs) (sym (append_assoc a.front _ _))

-- Arguments in sequence.
then_Args : {ts us ws vs : List Text} → Args ts ws → Args us vs → Args (ts ++ us) (ws ++ vs)
then_Args a b = record {
  args = a.args ++ b.args;
  same_texts = append_texts a.args b.args ∙ rw (a.same_texts, b.same_texts);
  same_words = append_words a.args b.args ∙ rw (a.same_words, b.same_words);
}

quoted_Args : (s : Text) → Args (shell_quote s ∷ []) (blanked s ∷ [])
quoted_Args s = record {
  args =
      record {
        text = shell_quote s;
        front = [];
        last = blanked s;
        reads = λ ws. lex-shell_quote_end _ s refl ∙ rw append-nil;
      }
      ∷ [];
  same_texts = refl;
  same_words = refl;
}

name-IsFlag : IsFlag (codes "--name ") (codes "--name")
unfolding lex step
name-IsFlag ws = refl

restart-IsFlag : IsFlag (codes "--restart ") (codes "--restart")
unfolding lex step
restart-IsFlag ws = refl

ports-IsFlag : IsFlag (codes "-p ") (codes "-p")
unfolding lex step
ports-IsFlag ws = refl

volumes-IsFlag : IsFlag (codes "-v ") (codes "-v")
unfolding lex step
volumes-IsFlag ws = refl

env-IsFlag : IsFlag (codes "-e ") (codes "-e")
unfolding lex step
env-IsFlag ws = refl

label-IsFlag : IsFlag (codes "-l ") (codes "-l")
unfolding lex step
label-IsFlag ws = refl

cpus-IsFlag : IsFlag (codes "--cpus ") (codes "--cpus")
unfolding lex step
cpus-IsFlag ws = refl

memory-IsFlag : IsFlag (codes "--memory ") (codes "--memory")
unfolding lex step
memory-IsFlag ws = refl

network-IsFlag : IsFlag (codes "--network ") (codes "--network")
unfolding lex step
network-IsFlag ws = refl

docker_run : Arg
unfolding lex step
docker_run = record {
  text = codes "docker run -d";
  front = codes "docker" ∷ codes "run" ∷ [];
  last = codes "-d";
  reads = docker_run_reads;
}
  where
    docker_run_reads :
        (ws : List Text)
        → lex (between ws) (codes "docker run -d")
          ≡ some (within (ws ++ codes "docker" ∷ codes "run" ∷ []) (codes "-d"))
    docker_run_reads ws = rw (← append_assoc ws (codes "docker" ∷ []) (codes "run" ∷ []))

option_Args : (cfg : DeployConfig) → Args (option_args cfg) (option_words cfg)
option_Args cfg = then_Args (optional_Args _ _ ports-IsFlag cfg.ports) (
    then_Args (optional_Args _ _ volumes-IsFlag cfg.volumes) (
      then_Args (pair_Args _ _ env-IsFlag cfg.env_vars) (
        then_Args (pair_Args _ _ label-IsFlag cfg.labels) (
          then_Args (optional_Args _ _ cpus-IsFlag cfg.cpu) (
            then_Args (optional_Args _ _ memory-IsFlag cfg.memory) (
              then_Args (optional_Args _ _ network-IsFlag cfg.network) (quoted_Args cfg.image)))))))

-- The command that runs a container is one simple shell command. Its words are the flags and values
-- of the configuration, each value one word whatever characters it holds, so that no field of the
-- configuration can add an argument or a second command.
pub shell_words-build_run_command :
    (cfg : DeployConfig) → shell_words (build_run_command cfg) ≡ some (run_argv cfg)
unfolding build_run_command run_argv flag_arg docker_run
shell_words-build_run_command cfg =
    ap (λ ts. shell_words (join (codes " ") (docker_run.text ∷ name.text ∷ policy.text ∷ ts)))
      (sym options.same_texts)
    ∙ shell_words-join docker_run (name ∷ policy ∷ options.args)
    ∙ ap
        (λ ws. some (
          docker_run.front
          ++ docker_run.last ∷ name.front
          ++ name.last ∷ policy.front
          ++ policy.last ∷ ws))
        options.same_words
  where
    options : Args (option_args cfg) (option_words cfg)
    options = option_Args cfg

    name : Arg
    name = flag_arg (codes "--name ") (codes "--name") name-IsFlag cfg.container_name

    policy : Arg
    policy = flag_arg (codes "--restart ") (codes "--restart") restart-IsFlag (policy_of cfg)
