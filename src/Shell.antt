-- ===== src/Shell.antt =====
-- internal/util/shell.go. A Go string is the list of its code points.
pub mod Lexer
pub mod Quote
pub mod Argv
mod Tests
use deploypilot.Base.{
  ℕ, Bool, ◌||◌, ◌&&◌, [], ◌∷◌, ◌++◌, map, Text, codes, ltb, leb, ◌==◌, nat_tested, if◌then◌else◌,
}

-- `unicode.IsControl`: the Unicode category Cc.
pub is_control : ℕ → Bool
is_control c = ltb c 32 || (leb 127 c && leb c 159)

-- Control characters become spaces.
pub blank : ℕ → ℕ
unfolding is_control
blank c = if is_control c then 32 else c

unfoldable pub blanked : Text → Text
unfolding blank
blanked = map blank

-- What `strings.ReplaceAll` puts for a quote.
abbrev pub quote_escape : Text
quote_escape = codes "'\"'\"'"

-- `strings.ReplaceAll(s, "'", ...)`
unfoldable pub escape_quotes : Text → Text
escape_quotes [] = []
escape_quotes (c ∷ s) = if c == b'\'' then quote_escape ++ escape_quotes s else c ∷ escape_quotes s

-- `ShellQuote`
unfoldable pub shell_quote : Text → Text
shell_quote s = b'\'' ∷ (escape_quotes (blanked s) ++ b'\'' ∷ [])
