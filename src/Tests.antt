-- ===== src/Tests.antt =====
-- The theorems at concrete inputs, and runs of the program's functions.
mod Network
mod Files
mod Keys
mod Errors
mod Setup
mod Program
mod Commands
mod Unlock
use tool_public_ubo.Base.{
  ◌≡◌, ◌↔◌, ◌⊎◌, refl, true, false, none, some, [], ◌∷◌, ◌++◌, arith, if◌then◌else◌,
}
use tool_public_ubo.Base.Int.{pos, le_ℕ}
use tool_public_ubo.Base.Result.{ok}
use tool_public_ubo.Config.Checked.{IsChecked, validate_iff}
use tool_public_ubo.Config.Parse.{parse_toml}
use tool_public_ubo.Config.Print.{marshal}
use tool_public_ubo.Config.RoundTrip.Whole.{parse-marshal}
use tool_public_ubo.Config.Validate.{validate}
use tool_public_ubo.Config.{Config, default}
use tool_public_ubo.Remote.Client.{Client, ConnectOptions, sudo_cmd, interactive_sudo_cmd}
use tool_public_ubo.Remote.Connect.{connect, close, apply_host_key_mode, validate_connect_options}
use tool_public_ubo.Remote.Pinned.{
  materialize_pinned_known_hosts, parse_authorized_key, first_key, parse_authorized_key_line,
  has_known_key_type_prefix,
}
use tool_public_ubo.Remote.HostKey.{
  IsValid, IsPinned, IsTofu, connect-trust, close-connect, close_again,
}
use tool_public_ubo.Remote.Shell.{shell_words}
use tool_public_ubo.Remote.Sudo.{shell_words-sudo_cmd, flag_words, shell_words-interactive_sudo_cmd}
use tool_public_ubo.System.Disk.{Disk, read_file, write_file}
use tool_public_ubo.Text.Lines.{scan_lines}
use tool_public_ubo.Text.Space.{trim_space, fields}
use tool_public_ubo.Text.Compare.{codes, equal, is_empty, has_prefix}

abbrev pub sample : Config
sample = record default {
  host = codes "fd00::1";
  luks = record { device = codes "/dev/sda3 \"\\#" };
}

parse-marshal_example : parse_toml (marshal sample) default ≡ ok sample
parse-marshal_example = parse-marshal sample default (omega arith)

validate_iff_example : (validate sample ≡ ok tt) ↔ IsChecked sample
validate_iff_example = validate_iff sample

abbrev pub options : ConnectOptions
options = record {
  host = codes "h";
  port = pos 2222;
  user = codes "root";
  key_path = [];
  known_hosts_path = [];
  pinned_key_path = codes "k";
  sudo = true;
  proxy_jump = [];
}

abbrev pub pinned_disk : Disk
pinned_disk = record {
  files = λ p.
      if equal p (codes "k")
      then some (record { content = codes "ssh-ed25519 AAAA\n"; mode = 0o644 })
      else none;
  unreadable = λ _. false;
  unwritable = λ _. false;
  leftover = λ _. none;
  fixed = λ _. false;
}

abbrev pub pinned_client : Client
pinned_client = record {
  host = codes "h";
  port = pos 2222;
  user = codes "root";
  key_path = [];
  sudo = true;
  sudo_password = [];
  proxy_jump = [];
  known_hosts_file = codes "k.known_hosts";
  strict_mode = codes "yes";
  temp_known_hosts = codes "k.known_hosts";
}

shell_words-sudo_cmd_example :
    shell_words (sudo_cmd pinned_client (codes "echo 'a b'"))
    ≡ some (codes "sudo" ∷ (flag_words [] ++ codes "sh" ∷ codes "-c" ∷ codes "echo 'a b'" ∷ []))
shell_words-sudo_cmd_example = shell_words-sudo_cmd pinned_client (codes "echo 'a b'") refl

abbrev pub connected_disk : Disk
connected_disk = (connect (some options) pinned_disk).1

connected : connect (some options) pinned_disk ≡ (ok pinned_client, connected_disk)
unfolding connect apply_host_key_mode validate_connect_options materialize_pinned_known_hosts
    read_file parse_authorized_key first_key scan_lines trim_space is_empty has_prefix fields
    write_file le_ℕ parse_authorized_key_line has_known_key_type_prefix equal
connected = refl

connect-trust_example :
    IsValid options
    × (IsPinned options pinned_disk pinned_client connected_disk
        ⊎ IsTofu options pinned_disk pinned_client connected_disk)
connect-trust_example = connect-trust options pinned_disk pinned_client connected_disk connected

absent : pinned_disk.files (codes "k.known_hosts") ≡ none
unfolding equal
absent = refl

close-connect_example :
    (close pinned_client connected_disk).0.1.files (codes "k") ≡ pinned_disk.files (codes "k")
close-connect_example =
    close-connect options pinned_disk pinned_client connected_disk connected absent refl (codes "k")

shell_words-interactive_example :
    shell_words (interactive_sudo_cmd pinned_client (codes "cryptsetup 'x'"))
    ≡ some (codes "sudo" ∷ codes "sh" ∷ codes "-c" ∷ codes "cryptsetup 'x'" ∷ [])
shell_words-interactive_example =
    shell_words-interactive_sudo_cmd pinned_client (codes "cryptsetup 'x'") refl

close_again_example :
    close (close pinned_client connected_disk).0.0 (close pinned_client connected_disk).0.1
    ≡ ((close pinned_client connected_disk).0, ok tt)
close_again_example = close_again pinned_client connected_disk
