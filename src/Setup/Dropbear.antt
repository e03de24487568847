-- ===== src/Setup/Dropbear.antt =====
-- `detectDropbearPaths` and `generateDropbearHostKey` of internal/setup/setup.go.
use tool_public_ubo.Base.{List, [], ◌∷◌, ◌++◌, if◌then◌else◌, Option, none, some}
use tool_public_ubo.Base.Result.{Result, ok, err, ◌>>=◌}
use tool_public_ubo.Remote.Client.{Client}
use tool_public_ubo.Remote.Process.{Ssh, run_command}
use tool_public_ubo.Text.Compare.{Bytes, codes, equal, has_prefix}
use tool_public_ubo.Text.Lines.{split}
use tool_public_ubo.Text.Space.{trim_space}

pub record DropbearPaths : Type 0 where
  pub config_dir : Bytes
  pub host_key_file : Bytes

pub data DropbearError : Type 0 where
  command_failed : Bytes → DropbearError
  not_installed no_public_key : DropbearError

-- The output of a command that goes well.
output : Ssh → Client → Bytes → Result DropbearError Bytes
output ssh client cmd = elim ((run_command ssh client cmd).1) [
  | ok _ ↦ ok ((run_command ssh client cmd).0)
  | err e ↦ err (command_failed e)
]

unfoldable pub detect_dropbear_paths : Ssh → Client → Result DropbearError DropbearPaths
unfolding output
detect_dropbear_paths ssh client = do
  out ← output ssh client (
      codes "if [ -d /etc/dropbear/initramfs ]; then echo /etc/dropbear/initramfs; "
      ++ (codes "elif [ -d /etc/dropbear-initramfs ]; then echo /etc/dropbear-initramfs; "
          ++ codes "else echo NOTFOUND; fi"))
  (if equal (trim_space out) (codes "NOTFOUND")
      then err not_installed
      else ok (record {
        config_dir = trim_space out;
        host_key_file = trim_space out ++ codes "/dropbear_ed25519_host_key";
      }))

-- The first line that begins with "ssh-".
unfoldable pub key_line : List Bytes → Option Bytes
key_line [] = none
key_line (line ∷ lines) =
    let rest = key_line lines in
    if has_prefix (trim_space line) (codes "ssh-") then some (trim_space line) else rest

key_result : Option Bytes → Result DropbearError Bytes
key_result none = err no_public_key
key_result (some line) = ok line

make_key : Ssh → Client → Bytes → Result DropbearError Bytes
unfolding output key_line key_result
make_key ssh client key_file = do
  made ←
      output ssh client
        (codes "dropbearkey -t ed25519 -f " ++ (key_file ++ codes " >/dev/null 2>&1"))
  out ← output ssh client (codes "dropbearkey -y -f " ++ (key_file ++ codes " 2>/dev/null"))
  key_result (key_line (split b'\n' out))

-- The removal of the old key comes first, and its result is not looked at.
unfoldable pub generate_dropbear_host_key : Ssh → Client → Bytes → Result DropbearError Bytes
unfolding make_key
generate_dropbear_host_key ssh client key_file =
    let removed = run_command ssh client (codes "rm -f " ++ key_file) in
    make_key ssh client key_file
