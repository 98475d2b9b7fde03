-- ===== src/Shell/Quote.antt =====
-- internal/util/shell.go: a quoted text is one word of the command that it stands in, whatever
-- characters it holds.
use deploypilot.Base.{
  ℕ, ◌≡◌, refl, subst, ◌∙◌, true, false, some, List, [], ◌∷◌, ◌++◌, append_assoc, append-nil, Text,
  ◌==◌, nat_tested, arith, inl, inr, Bool-cases, nat_beq_iff,
}
use deploypilot.Shell.{blanked, quote_escape, escape_quotes, shell_quote}
use deploypilot.Shell.Lexer.{
  start, shell_words, shell_words_of_lex, Lexer, bare, single, step, lex, lex-cons,
}

-- Inside single quotes a plain character stands for itself.
lex_plain :
    (w : Text) (ws : List Text) (c : ℕ) (s : Text)
    → (c == b'\'') ≡ false
    → lex (record { mode = single; begun = true; word = w; words = ws }) (c ∷ s)
      ≡ lex (record { mode = single; begun = true; word = w ++ c ∷ []; words = ws }) s
unfolding step
lex_plain w ws c s h = lex-cons _ _ c s (ground arith)

lex_escape :
    (w : Text) (ws : List Text) (s : Text)
    → lex (record { mode = single; begun = true; word = w; words = ws }) (quote_escape ++ s)
      ≡ lex (record { mode = single; begun = true; word = w ++ b'\'' ∷ []; words = ws }) s
unfolding lex step
lex_escape w ws s = refl

lex_escaped :
    (w : Text) (ws : List Text) (s rest : Text)
    → lex (record { mode = single; begun = true; word = w; words = ws }) (escape_quotes s ++ rest)
      ≡ lex (record { mode = single; begun = true; word = w ++ s; words = ws }) rest
unfolding escape_quotes
lex_escaped w ws [] rest = rw append-nil
lex_escaped w ws (c ∷ s) rest = elim (Bool-cases (c == b'\'')) [
  | inl e ↦
      rw
        (
          e,
          append_assoc quote_escape (escape_quotes s) rest,
          lex_escape w ws (escape_quotes s ++ rest),
        )
        (lex_escaped (w ++ b'\'' ∷ []) ws s rest ∙ rw (append_assoc, (nat_beq_iff c b'\'').0 e))
  | inr e ↦
      rw (e, lex_plain w ws c (escape_quotes s ++ rest) e)
        (lex_escaped (w ++ c ∷ []) ws s rest ∙ rw append_assoc)
]

opens : (l : Lexer) → l.mode ≡ bare → step l b'\'' ≡ some (record l { mode = single; begun = true })
unfolding step
opens l m = ground arith

closes :
    (w : Text) (ws : List Text)
    → step (record { mode = single; begun = true; word = w; words = ws }) b'\''
      ≡ some (record { mode = bare; begun = true; word = w; words = ws })
unfolding step
closes w ws = refl

-- Between words, or within one, a quoted text adds its own characters to the word, control
-- characters as spaces, and leaves the lexer unquoted: nothing in it ends the word or is special.
pub lex-shell_quote :
    (l : Lexer) (s rest : Text)
    → l.mode ≡ bare
    → lex l (shell_quote s ++ rest)
      ≡ lex (record l { begun = true; word = l.word ++ blanked s }) rest
unfolding shell_quote
lex-shell_quote l s rest m =
    lex-cons l (record l { mode = single; begun = true }) _ _ (opens l m)
    ∙ rw (append_assoc (escape_quotes (blanked s)) (b'\'' ∷ []) rest)
        (lex_escaped l.word l.words (blanked s) (b'\'' ∷ rest))
    ∙ lex-cons _ (record l { mode = bare; begun = true; word = l.word ++ blanked s }) _ rest
        (closes _ _)
    ∙ rw m

-- The same where the quoted text ends the command.
pub lex-shell_quote_end :
    (l : Lexer) (s : Text)
    → l.mode ≡ bare
    → lex l (shell_quote s) ≡ some (record l { begun = true; word = l.word ++ blanked s })
unfolding lex
lex-shell_quote_end l s m =
    subst (λ t. lex l t ≡ some (record l { begun = true; word = l.word ++ blanked s }))
      (append-nil (shell_quote s)) (lex-shell_quote l s [] m)

-- A quoted text, as a whole command, is one word: the text itself, with a space for each control
-- character.
pub shell_words-shell_quote : (s : Text) → shell_words (shell_quote s) ≡ some (blanked s ∷ [])
shell_words-shell_quote s =
    shell_words_of_lex (shell_quote s) _ (lex-shell_quote_end start s refl) refl refl
