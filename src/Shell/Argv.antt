-- ===== src/Shell/Argv.antt =====
-- internal/util/shell.go: commands that are joined from arguments by spaces, and the words that a
-- shell reads from them.
use deploypilot.Base.{
  ◌≡◌, refl, ap, ◌∙◌, true, false, some, List, [], ◌∷◌, ◌++◌, append_assoc, Text, codes, join,
}
use deploypilot.Shell.{blanked, shell_quote}
use deploypilot.Shell.Lexer.{
  Lexer, bare, step, lex, lex-cons, lex-append, shell_words, shell_words_of_lex,
}
use deploypilot.Shell.Quote.{lex-shell_quote, lex-shell_quote_end}

-- The lexer between two words, and at the end of a word, after others.
abbrev pub between : List Text → Lexer
between ws = record { mode = bare; begun = false; word = []; words = ws }

abbrev pub within : List Text → Text → Lexer
within ws w = record { mode = bare; begun = true; word = w; words = ws }

-- An argument of a command: its text, and the words that the shell reads from it, of which the last
-- is still open at its end.
pub record Arg : Type 0 where
  pub text : Text
  pub front : List Text
  pub last : Text
  pub reads : (ws : List Text) → lex (between ws) text ≡ some (within (ws ++ front) last)

abbrev pub arg_words : List Arg → List Text
arg_words [] = []
arg_words (a ∷ bs) = a.front ++ a.last ∷ arg_words bs

abbrev pub arg_texts : List Arg → List Text
arg_texts [] = []
arg_texts (a ∷ bs) = a.text ∷ arg_texts bs

-- The space between two arguments ends the word.
next_word :
    (ws : List Text) (w rest : Text)
    → lex (within ws w) (b' ' ∷ rest) ≡ lex (between (ws ++ w ∷ [])) rest
unfolding lex step
next_word ws w rest = refl

join_reads :
    (ws : List Text) (a : Arg) (bs : List Arg)
    → (v : List Text) × (w : Text) × (lex (between ws) (join (codes " ") (arg_texts (a ∷ bs)))
        ≡ some (within v w))
      × (v ++ w ∷ [] ≡ ws ++ arg_words (a ∷ bs))
unfolding join
join_reads ws a [] = (ws ++ a.front, a.last, a.reads ws, append_assoc ws a.front (a.last ∷ []))
join_reads ws a (b ∷ cs) =
    let (v, w, e, f) = join_reads ((ws ++ a.front) ++ a.last ∷ []) b cs in
    (
      v,
      w,
      lex-append _ _ a.text _ (a.reads ws) ∙ next_word (ws ++ a.front) a.last _ ∙ e,
      f ∙ simp append_assoc,
    )

-- A command joined from arguments by spaces has the words of its arguments, in order.
pub shell_words-join :
    (a : Arg) (bs : List Arg)
    → shell_words (join (codes " ") (arg_texts (a ∷ bs))) ≡ some (arg_words (a ∷ bs))
shell_words-join a bs =
    let (v, w, e, f) = join_reads [] a bs in
    shell_words_of_lex _ (within v w) e refl refl ∙ ap some f

equals_sign :
    (ws : List Text) (w : Text) → step (within ws w) b'=' ≡ some (within ws (w ++ b'=' ∷ []))
unfolding step
equals_sign ws w = refl

-- A prefix that is one word of plain characters and the space behind it.
abbrev pub IsFlag : Text → Text → Type 0
IsFlag prefix flag = (ws : List Text) → lex (between ws) prefix ≡ some (between (ws ++ flag ∷ []))

module _ (prefix flag : Text) (f : IsFlag prefix flag) where
  -- A flag and its quoted value.
  pub flag_reads :
      (value : Text) (ws : List Text)
      → lex (between ws) (prefix ++ shell_quote value)
        ≡ some (within (ws ++ flag ∷ []) (blanked value))
  flag_reads value ws = lex-append _ _ prefix _ (f ws) ∙ lex-shell_quote_end _ value refl

  -- A flag and a quoted pair `key=value`.
  pub pair_reads :
      (key value : Text) (ws : List Text)
      → lex (between ws) (prefix ++ (shell_quote key ++ b'=' ∷ shell_quote value))
        ≡ some (within (ws ++ flag ∷ []) ((blanked key ++ b'=' ∷ []) ++ blanked value))
  pair_reads key value ws =
      lex-append _ _ prefix _ (f ws)
      ∙ lex-shell_quote _ key _ refl
      ∙ lex-cons _ (within _ (blanked key ++ b'=' ∷ [])) b'=' _ (equals_sign _ _)
      ∙ lex-shell_quote_end _ value refl
