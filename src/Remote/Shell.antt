-- ===== src/Remote/Shell.antt =====
-- How a POSIX shell splits a command line into words, for lines of plain characters, blanks,
-- backslashes and single quotes. A line with another character that the shell gives a meaning to,
-- outside quotes, is not read.
use tool_public_ubo.Base.{
  ℕ, ◌≡◌, refl, true, false, List, [], ◌∷◌, ◌++◌, ◌==◌, if◌then◌else◌, Option, none, some,
}
use tool_public_ubo.Text.Compare.{Bytes, codes, contains_byte}

pub data Kind : Type 0 where
  blank single_quote backslash special plain : Kind

unfoldable pub kind : ℕ → Kind
unfolding contains_byte
kind c =
    if c == b' '
    then blank
    else if c == b'\''
    then single_quote
    else if c == b'\\'
    then backslash
    else if contains_byte c (codes "\"$`;&|<>()*?[]#~{}!\t\n")
    then special
    else plain

-- Between words, in a word, in single quotes, behind a backslash.
pub data Mode : Type 0 where
  gap word quoted escaped : Mode

abbrev pub add_word : Bytes → Option (List Bytes) → Option (List Bytes)
add_word w none = none
add_word w (some ws) = some (w ∷ ws)

-- `cur` is the word so far.
unfoldable pub lex : Mode → Bytes → Bytes → Option (List Bytes)
unfolding kind
lex gap cur [] = some []
lex word cur [] = some (cur ∷ [])
lex quoted cur [] = none
lex escaped cur [] = none
lex gap cur (c ∷ s) = elim (kind c) [
  | blank ↦ lex gap [] s
  | single_quote ↦ lex quoted [] s
  | backslash ↦ lex escaped [] s
  | special ↦ none
  | plain ↦ lex word (c ∷ []) s
]
lex word cur (c ∷ s) = elim (kind c) [
  | blank ↦ add_word cur (lex gap [] s)
  | single_quote ↦ lex quoted cur s
  | backslash ↦ lex escaped cur s
  | special ↦ none
  | plain ↦ lex word (cur ++ c ∷ []) s
]
lex quoted cur (c ∷ s) = elim (c == b'\'') [
  | true ↦ lex word cur s
  | false ↦ lex quoted (cur ++ c ∷ []) s
]
lex escaped cur (c ∷ s) = lex word (cur ++ c ∷ []) s

unfoldable pub shell_words : Bytes → Option (List Bytes)
unfolding lex
shell_words s = lex gap [] s

shell_words_test : shell_words (codes "a 'b c'\\''d'") ≡ some (codes "a" ∷ codes "b c'd" ∷ [])
unfolding shell_words
shell_words_test = refl
