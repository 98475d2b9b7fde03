-- ===== src/Shell/Tests.antt =====
-- Concrete commands and texts under quoting.
use deploypilot.Base.{◌≡◌, refl, some, none, [], ◌∷◌, codes}
use deploypilot.Shell.{shell_quote, escape_quotes, blanked}
use deploypilot.Shell.Lexer.{shell_words}
use deploypilot.Shell.Quote.{shell_words-shell_quote}

shell_words-shell_quote_example :
    shell_words (shell_quote (codes "it's; rm -rf /")) ≡ some (codes "it's; rm -rf /" ∷ [])
unfolding blanked
shell_words-shell_quote_example = shell_words-shell_quote (codes "it's; rm -rf /")

quoted : shell_quote (codes "a'b\nc") ≡ codes "'a'\"'\"'b c'"
unfolding shell_quote escape_quotes blanked
quoted = refl

plain_words :
    shell_words (codes "docker  run 'a b'\"c\"")
    ≡ some (codes "docker" ∷ codes "run" ∷ codes "a bc" ∷ [])
unfolding shell_words
plain_words = refl

second_command : shell_words (codes "docker pull x; reboot") ≡ none
unfolding shell_words
second_command = refl
