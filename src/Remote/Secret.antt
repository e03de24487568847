-- ===== src/Remote/Secret.antt =====
-- Where the sudo password goes, and what the remote shell makes of the path of `ReadFile`.
use tool_public_ubo.Base.{
  ◌≡◌, refl, ap, ◌∙◌, true, false, [], ◌∷◌, ◌++◌, append-nil, append_assoc, ◌==◌, arith, none, some,
  Option, Lacks, ℕ, List, Bool-cases, inl, inr, if◌then◌else◌, false,
}
use tool_public_ubo.Remote.Client.{
  Client, set_sudo_password, ssh_args, sudo_cmd, sudo_flag, sudo_stdin, interactive_sudo_cmd,
}
use tool_public_ubo.Remote.Process.{
  Ssh, Exit, Stdin, text, stdin_of, has_failed, command_of, session_of, cat_cmd, write_cmd,
  read_result, run_command, write_file, read_file, interactive_session,
}
use tool_public_ubo.System.Disk.{Disk, File}
use tool_public_ubo.Remote.Shell.{add_word, lex, quoted, shell_words}
use tool_public_ubo.Remote.Sudo.{quoted_plain}
use tool_public_ubo.Text.Compare.{Bytes, codes, is_empty}
use tool_public_ubo.Text.Space.{trim_space}
use tool_public_ubo.Base.Result.{Result, ok, err}

abbrev pub or_nothing : Option Bytes → Bytes
or_nothing none = []
or_nothing (some s) = s

args_same : (c : Client) (pw : Bytes) → ssh_args (set_sudo_password c pw) ≡ ssh_args c
unfolding ssh_args set_sudo_password
args_same c pw = refl

flag_same : (p q : Bytes) → is_empty p ≡ false → is_empty q ≡ false → sudo_flag p ≡ sudo_flag q
unfolding sudo_flag
flag_same p q hp hq = rw (hp, hq)

cmd_same :
    (c : Client) (p q cmd : Bytes)
    → is_empty p ≡ false
    → is_empty q ≡ false
    → sudo_cmd (set_sudo_password c p) cmd ≡ sudo_cmd (set_sudo_password c q) cmd
unfolding sudo_cmd set_sudo_password
cmd_same c p q cmd hp hq = rw (flag_same p q hp hq)

interactive_same :
    (c : Client) (p cmd : Bytes)
    → interactive_sudo_cmd (set_sudo_password c p) cmd ≡ interactive_sudo_cmd c cmd
unfolding interactive_sudo_cmd set_sudo_password
interactive_same c p cmd = refl

stdin_line :
    (c : Client) (p : Bytes) (base : Option Bytes)
    → c.sudo ≡ true
    → is_empty p ≡ false
    → stdin_of (sudo_stdin (set_sudo_password c p) base)
      ≡ text (p ++ (codes "\n" ++ or_nothing base))
unfolding sudo_stdin set_sudo_password
stdin_line c p none sudo hp = rw (sudo, hp) (ap (λ s. text (p ++ s)) refl)
stdin_line c p (some content) sudo hp = rw (sudo, hp) refl

stdin_plain :
    (c : Client) (p : Bytes) (base : Option Bytes)
    → c.sudo ≡ false
    → stdin_of (sudo_stdin (set_sudo_password c p) base) ≡ stdin_of base
unfolding sudo_stdin set_sudo_password
stdin_plain c p base off = rw off refl

-- How the functions read the end of a process.
abbrev pub run_outcome : Exit → Bytes × Result Bytes (Unit {0})
run_outcome e = (trim_space e.stdout, (if has_failed e then err (trim_space e.stderr) else ok tt))

abbrev pub write_outcome : Exit → Result Bytes (Unit {0})
write_outcome e = if has_failed e then err (trim_space e.combined) else ok tt

-- A local ssh program whose end depends on its arguments alone, or on its standard input alone.
abbrev pub by_args : (List Bytes → Exit) → (Client → Disk → Option File) → Ssh
by_args f saves = record { exits = λ i. f i.args; host_key_file = saves }

abbrev pub by_stdin : (Stdin → Exit) → (Client → Disk → Option File) → Ssh
by_stdin g saves = record { exits = λ i. g i.stdin; host_key_file = saves }

-- What goes in front of the content: with sudo, the password and a newline.
abbrev pub fed : Client → Bytes → Option Bytes → Stdin
fed c p base = if c.sudo then text (p ++ (codes "\n" ++ or_nothing base)) else stdin_of base

args_command :
    (c : Client) (p q cmd : Bytes) (base : Option Bytes)
    → is_empty p ≡ false
    → is_empty q ≡ false
    → (command_of (set_sudo_password c p) cmd base).args
      ≡ (command_of (set_sudo_password c q) cmd base).args
unfolding command_of
args_command c p q cmd base hp hq = rw (args_same c p, args_same c q, cmd_same c p q cmd hp hq) refl

stdin_command :
    (c : Client) (p cmd : Bytes) (base : Option Bytes)
    → is_empty p ≡ false
    → (command_of (set_sudo_password c p) cmd base).stdin ≡ fed c p base
unfolding command_of
stdin_command c p cmd base hp = elim (Bool-cases c.sudo) [
  | inl on ↦ stdin_line c p base on hp ∙ rw on refl
  | inr off ↦ stdin_plain c p base off ∙ rw off refl
]

-- The sudo password never reaches the argument list of an ssh process: whatever a local ssh program makes
-- of its arguments, for two passwords that are not empty `RunCommand`, `WriteFile`, `ReadFile` and
-- `InteractiveSession` come out the same. With sudo on, the first three send the password and a newline
-- on the standard input in front of the content, if there is any; with sudo off, the content alone.
pub password-args :
    (f : List Bytes → Exit) (g : Stdin → Exit) (saves : Client → Disk → Option File) (c : Client)
    (p q cmd path content : Bytes) (mode : ℕ)
    → is_empty p ≡ false
    → is_empty q ≡ false
    → ((run_command (by_args f saves) (set_sudo_password c p) cmd
          ≡ run_command (by_args f saves) (set_sudo_password c q) cmd)
        × (write_file (by_args f saves) (set_sudo_password c p) path content mode
            ≡ write_file (by_args f saves) (set_sudo_password c q) path content mode)
        × (read_file (by_args f saves) (set_sudo_password c p) path
            ≡ read_file (by_args f saves) (set_sudo_password c q) path)
        × (interactive_session (by_args f saves) (set_sudo_password c p) cmd
            ≡ interactive_session (by_args f saves) (set_sudo_password c q) cmd))
      × ((run_command (by_stdin g saves) (set_sudo_password c p) cmd
            ≡ run_outcome (g (fed c p none)))
          × (write_file (by_stdin g saves) (set_sudo_password c p) path content mode
              ≡ write_outcome (g (fed c p (some content))))
          × (read_file (by_stdin g saves) (set_sudo_password c p) path
              ≡ read_result (g (fed c p none)) (g (fed c p none)).status))
unfolding run_command write_file read_file read_result interactive_session session_of
password-args f g saves c p q cmd path content mode hp hq = (
  (
    rw (args_command c p q cmd none hp hq),
    rw (args_command c p q (write_cmd path mode) (some content) hp hq),
    ap (λ (a : List Bytes). read_result (f a) (f a).status)
        (args_command c p q (cat_cmd path) none hp hq),
    rw (args_same c p, args_same c q, interactive_same c p cmd, interactive_same c q cmd) refl,
  ),
  (
    rw (stdin_command c p cmd none hp) refl,
    rw (stdin_command c p (write_cmd path mode) (some content) hp) refl,
    ap (λ (i : Stdin). read_result (g i) (g i).status) (stdin_command c p (cat_cmd path) none hp),
  ),
)

quoted_run :
    (cur s : Bytes) → Lacks b'\'' s → lex quoted cur (s ++ codes "'") ≡ some ((cur ++ s) ∷ [])
unfolding lex
quoted_run cur [] h = rw append-nil
quoted_run cur (c ∷ s) h =
    let other : (c == b'\'') ≡ false = ground arith in
    quoted_plain c cur (s ++ codes "'") other ∙ quoted_run (cur ++ c ∷ []) s h.1 ∙ rw append_assoc

-- The command of `ReadFile` is one call of cat on the path, if the path has no single quote.
pub shell_words-cat_cmd :
    (path : Bytes) → Lacks b'\'' path → shell_words (cat_cmd path) ≡ some (codes "cat" ∷ path ∷ [])
unfolding shell_words cat_cmd
shell_words-cat_cmd path h = ap (add_word (codes "cat")) (quoted_run [] path h)
