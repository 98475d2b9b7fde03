-- ===== src/Shell/Lexer.antt =====
-- How a POSIX shell splits a simple command into words: the specification that quoting
-- (internal/util/shell.go) is held to. A character that starts an expansion, a substitution, a
-- redirection, a comment, an escape or another command is refused where it stands unquoted, and so
-- is one that the shell expands between double quotes.
use deploypilot.Base.{
  ℕ, ◌≡◌, Bool, true, false, Option, none, some, List, [], ◌∷◌, ◌++◌, Text, codes, ◌==◌, nat_tested,
  if◌then◌else◌, any_of, ap, sym, ◌∙◌, Option-cases, inl, inr,
}

pub data Mode : Type 0 where
  bare single double : Mode

-- The words that are complete, and the one being read, if one has begun.
pub record Lexer : Type 0 where
  pub mode : Mode
  pub begun : Bool
  pub word : Text
  pub words : List Text

pub is_meta : ℕ → Bool
unfolding any_of
is_meta c = any_of (λ d. c == d) (10 ∷ 9 ∷ codes "\\$`;|&<>(){}[]*?!#~")

pub is_meta_double : ℕ → Bool
unfolding any_of
is_meta_double c = any_of (λ d. c == d) (codes "\\$`!")

grow : Lexer → ℕ → Lexer
grow l c = record l { begun = true; word = l.word ++ c ∷ [] }

end_word : Lexer → Lexer
end_word l =
    if l.begun then record l { begun = false; word = []; words = l.words ++ l.word ∷ [] } else l

step_in : Mode → Lexer → ℕ → Option Lexer
unfolding grow end_word is_meta is_meta_double
step_in bare l c =
    if c == b' '
    then some (end_word l)
    else if c == b'\''
    then some (record l { mode = single; begun = true })
    else if c == b'"'
    then some (record l { mode = double; begun = true })
    else if is_meta c
    then none
    else some (grow l c)
step_in single l c = if c == b'\'' then some (record l { mode = bare }) else some (grow l c)
step_in double l c =
    if c == b'"'
    then some (record l { mode = bare })
    else if is_meta_double c
    then none
    else some (grow l c)

unfoldable pub step : Lexer → ℕ → Option Lexer
unfolding step_in
step l c = step_in l.mode l c

unfoldable pub lex : Lexer → Text → Option Lexer
lex l [] = some l
lex l (c ∷ s) = elim (step l c) [ none ↦ none | some l' ↦ lex l' s ]

-- A text that ends inside quotes is no command.
finish : Mode → Lexer → Option (List Text)
unfolding end_word
finish bare l = some (end_word l).words
finish single l = none
finish double l = none

abbrev pub start : Lexer
start = record { mode = bare; begun = false; word = []; words = [] }

-- The words of a command, or `none` where it is not one simple command of plain words.
unfoldable pub shell_words : Text → Option (List Text)
unfolding lex step finish end_word
shell_words s = elim (lex start s) [ none ↦ none | some l ↦ finish l.mode l ]

pub lex-cons : (l l' : Lexer) (c : ℕ) (s : Text) → step l c ≡ some l' → lex l (c ∷ s) ≡ lex l' s
unfolding lex
lex-cons l l' c s e = ap {B = Option Lexer} (λ m. elim m [ none ↦ none | some k ↦ lex k s ]) e

pub lex-append : (l l' : Lexer) (s t : Text) → lex l s ≡ some l' → lex l (s ++ t) ≡ lex l' t
unfolding lex
lex-append l l' [] t h = ap {B = Option Lexer} (λ m. elim m [ none ↦ none | some k ↦ lex k t ]) h
lex-append l l' (c ∷ s) t h = elim (Option-cases (step l c)) [
  | inl e ↦ cc (sym (ap {B = Option Lexer} (λ o. elim o [ none ↦ none | some k ↦ lex k s ]) e))
  | inr (m, e) ↦ lex-cons l m c (s ++ t) e ∙ lex-append m l' s t (sym (lex-cons l m c s e) ∙ h)
]

-- A text that the lexer reads from a fresh start in full, between words, has its words.
pub shell_words_of_lex :
    (s : Text) (l : Lexer)
    → lex start s ≡ some l
    → l.mode ≡ bare
    → l.begun ≡ true
    → shell_words s ≡ some (l.words ++ l.word ∷ [])
unfolding shell_words
shell_words_of_lex s l h m b = rw (h, shell_words) (rw (m, b, finish, end_word))
