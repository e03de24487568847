-- ===== src/Remote/Process.antt =====
-- `RunCommand`, `WriteFile`, `WriteFileExec`, `ReadFile` and `InteractiveSession` of
-- internal/remote/remote.go. The local ssh program is given by how it ends, and by what it leaves in the
-- known_hosts file that it is told to use, the one file of the modelled disk that it writes.
use tool_public_ubo.Base.{
  ℕ, ◌+◌, ◌/◌, ◌%◌, Bool, true, false, List, [], ◌∷◌, ◌++◌, ltb, if◌then◌else◌, Option, none, some,
  ◌≡◌, refl,
}
use tool_public_ubo.Base.Result.{Result, ok, err}
use tool_public_ubo.Remote.Client.{Client, ssh_args, sudo_cmd, sudo_stdin, interactive_sudo_cmd}
use tool_public_ubo.System.Disk.{Disk, File, update, SameBut}
use tool_public_ubo.Text.Compare.{Bytes, codes}
use tool_public_ubo.Text.FilePath.{dir}
use tool_public_ubo.Text.Space.{trim_space}

-- Where the standard input of ssh comes from.
pub data Stdin : Type 0 where
  closed terminal : Stdin
  text : Bytes → Stdin

pub record Invocation : Type 0 where
  pub args : List Bytes
  pub stdin : Stdin

-- ssh went well, ended with an exit status, or could not be run.
pub data Status : Type 0 where
  success exit_error not_run : Status

pub record Exit : Type 0 where
  pub status : Status
  pub stdout : Bytes
  pub stderr : Bytes
  pub combined : Bytes

pub record Ssh : Type 0 where
  pub exits : Invocation → Exit
  -- the file behind one or more processes that run one after the other for this client
  pub host_key_file : Client → Disk → Option File

-- The disk behind the ssh processes of a step.
unfoldable pub keep_host_key : Ssh → Client → Disk → Disk
keep_host_key ssh c d = record d {
  files = update d.files c.known_hosts_file (ssh.host_key_file c d);
}

pub keep_host_key-SameBut :
    (ssh : Ssh) (c : Client) (p : Bytes) (d : Disk)
    → c.known_hosts_file ≡ p
    → SameBut p d (keep_host_key ssh c d)
unfolding keep_host_key SameBut
keep_host_key-SameBut ssh c p d h q apart = rw (h, apart) refl

abbrev pub has_failed : Exit → Bool
has_failed e = elim e.status [ success ↦ false | _ ↦ true ]

-- A nil reader is no input.
abbrev pub stdin_of : Option Bytes → Stdin
stdin_of none = closed
stdin_of (some s) = text s

-- ssh with a command, as the first three functions call it.
unfoldable pub command_of : Client → Bytes → Option Bytes → Invocation
command_of c cmd base = record {
  args = ssh_args c ++ sudo_cmd c cmd ∷ [];
  stdin = stdin_of (sudo_stdin c base);
}

-- The output, which counts beside an error too, and the text of the error.
unfoldable pub run_command : Ssh → Client → Bytes → Bytes × Result Bytes (Unit {0})
run_command ssh c cmd =
    let e = ssh.exits (command_of c cmd none) in
    (trim_space e.stdout, (if has_failed e then err (trim_space e.stderr) else ok tt))

-- `%o` of the permission bits.
unfoldable pub octal : ℕ → Bytes
octal mode =
    let n = mode % 512 in
    (if ltb n 64 then [] else (b'0' + n / 64) ∷ [])
    ++ ((if ltb n 8 then [] else (b'0' + n / 8 % 8) ∷ []) ++ ((b'0' + n % 8) ∷ []))

unfoldable pub write_cmd : Bytes → ℕ → Bytes
unfolding octal dir
write_cmd path mode =
    codes "mkdir -p '"
    ++ (dir path
        ++ (codes "' && cat > '"
            ++ (path
                ++ (codes "' && chmod " ++ (octal mode ++ (codes " '" ++ (path ++ codes "'")))))))

unfoldable pub write_file : Ssh → Client → Bytes → Bytes → ℕ → Result Bytes (Unit {0})
write_file ssh c path content mode =
    let e = ssh.exits (command_of c (write_cmd path mode) (some content)) in
    if has_failed e then err (trim_space e.combined) else ok tt

unfoldable pub write_file_exec : Ssh → Client → Bytes → Bytes → Result Bytes (Unit {0})
write_file_exec ssh c path content = write_file ssh c path content 0o755

unfoldable pub cat_cmd : Bytes → Bytes
cat_cmd path = codes "cat '" ++ (path ++ codes "'")

-- Standard error is told only if ssh ended with an exit status.
unfoldable pub read_result : Exit → Status → Result Bytes Bytes
read_result e success = ok e.stdout
read_result e exit_error = err (trim_space e.stderr)
read_result e not_run = err []

unfoldable pub read_file : Ssh → Client → Bytes → Result Bytes Bytes
unfolding read_result
read_file ssh c path =
    let e = ssh.exits (command_of c (cat_cmd path) none) in read_result e e.status

unfoldable pub session_of : Client → Bytes → Invocation
session_of c cmd = record {
  args =
      (codes "-t" ∷ codes "-o" ∷ codes "LogLevel=ERROR" ∷ [])
      ++ (ssh_args c ++ interactive_sudo_cmd c cmd ∷ []);
  stdin = terminal;
}

unfoldable pub interactive_session : Ssh → Client → Bytes → Result (Unit {0}) (Unit {0})
interactive_session ssh c cmd = if has_failed (ssh.exits (session_of c cmd)) then err tt else ok tt

write_test :
    write_cmd (codes "/tmp/ubo-setup.sh") 0o700
    ≡ codes "mkdir -p '/tmp' && cat > '/tmp/ubo-setup.sh' && chmod 700 '/tmp/ubo-setup.sh'"
unfolding write_cmd
write_test = refl
