-- ===== src/Remote/Sudo.antt =====
-- The commands that the client hands to the remote shell are split into the words that they mean.
use tool_public_ubo.Base.{
  ℕ, ◌≡◌, refl, ap, ◌∙◌, true, false, Option, List, [], ◌∷◌, ◌++◌, append-nil, append_assoc, ◌==◌,
  ==_iff, Bool-cases, inl, inr, some,
}
use tool_public_ubo.Remote.Client.{Client, escape_quotes, sudo_flag, sudo_cmd, interactive_sudo_cmd}
use tool_public_ubo.Remote.Shell.{add_word, lex, quoted, shell_words}
use tool_public_ubo.Text.Compare.{Bytes, codes, is_empty}

pub quoted_plain :
    (c : ℕ) (cur s : Bytes)
    → (c == b'\'') ≡ false
    → lex quoted cur (c ∷ s) ≡ lex quoted (cur ++ c ∷ []) s
unfolding lex
quoted_plain c cur s h = rw (h, lex)

quoted_quote :
    (cur s : Bytes) → lex quoted cur (codes "'\\''" ++ s) ≡ lex quoted (cur ++ b'\'' ∷ []) s
unfolding lex
quoted_quote cur s = refl

quoted-byte :
    (c : ℕ) (cur s rest : Bytes)
    → lex quoted cur (escape_quotes (c ∷ s) ++ rest)
      ≡ lex quoted (cur ++ c ∷ []) (escape_quotes s ++ rest)
quoted-byte c cur s rest = elim (Bool-cases (c == b'\'')) [
  | inl q ↦ rw ((==_iff c b'\'').0 q) (unfold escape_quotes in quoted_quote cur _)
  | inr p ↦ unfold escape_quotes in rw p (quoted_plain c cur _ p)
]

-- Inside single quotes the escaped text is the text.
quoted-escape_quotes :
    (s cur : Bytes) → lex quoted cur (escape_quotes s ++ codes "'") ≡ some ((cur ++ s) ∷ [])
quoted-escape_quotes [] cur = unfold escape_quotes lex in rw append-nil
quoted-escape_quotes (c ∷ s) cur =
    quoted-byte c cur s (codes "'") ∙ quoted-escape_quotes s (cur ++ c ∷ []) ∙ rw append_assoc

abbrev add_words : List Bytes → Option (List Bytes) → Option (List Bytes)
add_words [] o = o
add_words (w ∷ ws) o = add_word w (add_words ws o)

interactive :
    (r : Bytes)
    → shell_words (codes "sudo sh -c '" ++ r)
      ≡ add_word (codes "sudo") (add_word (codes "sh") (add_word (codes "-c") (lex quoted [] r)))
unfolding shell_words
interactive r = refl

-- The words of sudo's flags: the password on standard input with an empty prompt, or none.
abbrev pub flag_words : Bytes → List Bytes
flag_words [] = codes "-n" ∷ []
flag_words (_ ∷ _) = codes "-S" ∷ codes "-p" ∷ [] ∷ []

flag_lex :
    (pw r : Bytes)
    → shell_words (codes "sudo " ++ (sudo_flag pw ++ (codes " sh -c '" ++ r)))
      ≡ add_word (codes "sudo") (
          add_words
            (flag_words pw)
            (add_word (codes "sh") (add_word (codes "-c") (lex quoted [] r))))
unfolding shell_words sudo_flag is_empty
flag_lex [] r = refl
flag_lex (_ ∷ _) r = refl

add_words-some : (ws vs : List Bytes) → add_words ws (some vs) ≡ some (ws ++ vs)
add_words-some [] vs = refl
add_words-some (w ∷ ws) vs = ap (add_word w) (add_words-some ws vs)

-- With sudo on, the remote shell reads the command that `sudoCmd` builds as one call of sudo that
-- runs `sh -c` on the given command as a single word, whatever bytes it holds; its flag is `-n` if
-- there is no password, and `-S` with an empty prompt if there is one.
pub shell_words-sudo_cmd :
    (c : Client) (cmd : Bytes)
    → c.sudo ≡ true
    → shell_words (sudo_cmd c cmd)
      ≡ some (codes "sudo" ∷ (flag_words c.sudo_password ++ codes "sh" ∷ codes "-c" ∷ cmd ∷ []))
shell_words-sudo_cmd c cmd h =
    unfold sudo_cmd in
    rw h (
      flag_lex c.sudo_password (escape_quotes cmd ++ codes "'")
      ∙ rw (quoted-escape_quotes cmd [])
          (ap (add_word (codes "sudo")) (add_words-some (flag_words c.sudo_password) _)))

-- The same for the command of an interactive session, where sudo asks on the terminal.
pub shell_words-interactive_sudo_cmd :
    (c : Client) (cmd : Bytes)
    → c.sudo ≡ true
    → shell_words (interactive_sudo_cmd c cmd)
      ≡ some (codes "sudo" ∷ codes "sh" ∷ codes "-c" ∷ cmd ∷ [])
shell_words-interactive_sudo_cmd c cmd h =
    unfold interactive_sudo_cmd in
    rw h (interactive (escape_quotes cmd ++ codes "'") ∙ rw (quoted-escape_quotes cmd []))
