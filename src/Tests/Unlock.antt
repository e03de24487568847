-- ===== src/Tests/Unlock.antt =====
-- The theorems on the ssh processes and on the unlocking at concrete inputs.
use tool_public_ubo.Base.{
  ◌≡◌, refl, true, false, none, some, [], ◌∷◌, ◌++◌, arith, ℕ, ◌==◌, if◌then◌else◌, List, Option,
}
use tool_public_ubo.Base.Int.{pos, le_ℕ, eq_ℕ}
use tool_public_ubo.Base.Result.{ok, err}
use tool_public_ubo.Config.{Config, default}
use tool_public_ubo.Net.Address.{parse_addr, Address, zeros}
use tool_public_ubo.Remote.Client.{Client, set_sudo_password}
use tool_public_ubo.Remote.Process.{
  Ssh, Exit, Stdin, success, run_command, write_file, read_result, interactive_session, cat_cmd,
  text, terminal, has_failed,
}
use tool_public_ubo.Remote.Process.{read_file}
use tool_public_ubo.Remote.Secret.{
  password-args, by_args, by_stdin, fed, run_outcome, write_outcome, shell_words-cat_cmd,
}
use tool_public_ubo.Remote.Shell.{shell_words}
use tool_public_ubo.Rootless.Address.{server_addr, parse_addr_port, cut_last, unbracket}
use tool_public_ubo.Rootless.ChangeKey.{
  change_key_direct_ssh, change_key_direct_ssh-session, direct_args, session_failed,
  build_change_luks_cmd, ssh_port,
}
use tool_public_ubo.Rootless.Ipc.{build_ipc}
use tool_public_ubo.Rootless.Keys.{split-build_ipc}
use tool_public_ubo.Rootless.Parse.{WgClientConfig, empty_config}
use tool_public_ubo.Rootless.ServerAddr.{server_addr_lem, target}
use tool_public_ubo.Rootless.Session.{
  SshLibrary, Server, perform_unlock, with_client, dial_ssh, handle_change_and_unlock, after_change,
  run_change_key, run_unlock,
}
use tool_public_ubo.Rootless.Trace.{
  Steps, perform_unlock-Steps, commands, expected_commands, commands-perform_unlock,
}
use tool_public_ubo.Rootless.Tunnel.{Round, Ends, wait_tunnel, wait_tunnel-Ends, reached}
use tool_public_ubo.Rootless.Unlock.{Device, unlock}
use tool_public_ubo.Rootless.Whole.{Clean, unlock-Clean}
use tool_public_ubo.System.Disk
use tool_public_ubo.System.Disk.{Disk, File, SameBut}
use tool_public_ubo.Text.Base64.{encode, hex}
use tool_public_ubo.Text.Compare.{Bytes, codes, equal, is_empty}
use tool_public_ubo.Text.Decimal.{itoa}
use tool_public_ubo.Text.Lines.{split}
use tool_public_ubo.Text.Space.{trim_space}

abbrev client : Client
client = record {
  host = codes "h";
  port = pos 22;
  user = codes "u";
  key_path = [];
  proxy_jump = [];
  sudo = true;
  sudo_password = [];
  known_hosts_file = [];
  strict_mode = codes "yes";
  temp_known_hosts = [];
}

-- Programs that tell their arguments and their input.
abbrev last_of : List Bytes → Bytes
last_of [] = []
last_of (a ∷ []) = a
last_of (a ∷ b ∷ rest) = last_of (b ∷ rest)

abbrev told : Bytes → Exit
told out = record { status = success; stdout = out; stderr = []; combined = [] }

abbrev tells_args : List Bytes → Exit
tells_args args = told (last_of args)

abbrev tells_stdin : Stdin → Exit
tells_stdin (text s) = told s
tells_stdin other = told []

abbrev saves_none : Client → Disk → Option File
saves_none c d = none

abbrev one : Client
one = set_sudo_password client (codes "one")

abbrev two : Client
two = set_sudo_password client (codes "2")

password-args_example :
    ((run_command (by_args tells_args saves_none) one (codes "id")
        ≡ run_command (by_args tells_args saves_none) two (codes "id"))
      × (write_file (by_args tells_args saves_none) one (codes "/f") (codes "in") 0o600
          ≡ write_file (by_args tells_args saves_none) two (codes "/f") (codes "in") 0o600)
      × (read_file (by_args tells_args saves_none) one (codes "/f")
          ≡ read_file (by_args tells_args saves_none) two (codes "/f"))
      × (interactive_session (by_args tells_args saves_none) one (codes "id")
          ≡ interactive_session (by_args tells_args saves_none) two (codes "id")))
    × ((run_command (by_stdin tells_stdin saves_none) one (codes "id")
          ≡ run_outcome (tells_stdin (fed client (codes "one") none)))
        × (write_file (by_stdin tells_stdin saves_none) one (codes "/f") (codes "in") 0o600
            ≡ write_outcome (tells_stdin (fed client (codes "one") (some (codes "in")))))
        × (read_file (by_stdin tells_stdin saves_none) one (codes "/f")
            ≡ read_result
                (tells_stdin (fed client (codes "one") none))
                (tells_stdin (fed client (codes "one") none)).status))
unfolding is_empty
password-args_example =
    password-args tells_args tells_stdin saves_none client (codes "one") (codes "2") (codes "id")
      (codes "/f") (codes "in") 0o600 refl refl

shell_words-cat_cmd_example :
    shell_words (cat_cmd (codes "/tmp/ubo result"))
    ≡ some (codes "cat" ∷ codes "/tmp/ubo result" ∷ [])
shell_words-cat_cmd_example = shell_words-cat_cmd (codes "/tmp/ubo result") (omega arith)

abbrev key : Bytes
key =
    1 ∷ 2 ∷ 3 ∷ 4 ∷ 5 ∷ 6 ∷ 7 ∷ 8 ∷ 9 ∷ 10 ∷ 11 ∷ 12 ∷ 13 ∷ 14 ∷ 15 ∷ 16 ∷ 17 ∷ 18 ∷ 19 ∷ 20 ∷ 21
    ∷ 22 ∷ 23 ∷ 24 ∷ 25 ∷ 26 ∷ 27 ∷ 28 ∷ 29 ∷ 30 ∷ 31 ∷ 255 ∷ []

abbrev wg : WgClientConfig
wg = record empty_config {
  private_key = encode key;
  peer_pub_key = encode key;
  endpoint = codes "h:51820";
  allowed_ips = codes "10.0.0.1/32";
}

split-build_ipc_example :
    (text : Bytes) × (build_ipc wg ≡ ok text)
    × (split b'\n' text
        ≡ (codes "private_key=" ++ hex key)
          ∷ (codes "public_key=" ++ hex key)
          ∷ (codes "endpoint=" ++ codes "h:51820")
          ∷ (codes "allowed_ip=" ++ codes "10.0.0.1/32")
          ∷ codes "persistent_keepalive_interval=25"
          ∷ []
          ∷ [])
split-build_ipc_example =
    split-build_ipc wg key key (omega arith) refl (omega arith) refl refl refl (omega arith)
      (omega arith)

abbrev sixth : Address
sixth = record { bytes = 0xFD ∷ 0 ∷ zeros 13 ++ 1 ∷ []; is_4 = false; zone = [] }

sixth_read : parse_addr (codes "fd00::1") ≡ some sixth
unfolding parse_addr
sixth_read = refl

server_addr_lem_example :
    server_addr (codes "fd00::1") (pos 2222)
    ≡ (if sixth.is_4 then some (target sixth 2222) else none)
server_addr_lem_example =
    server_addr_lem (codes "fd00::1") 2222 sixth sixth_read (omega arith) (omega arith)

abbrev fourth : Address
fourth = record { bytes = zeros 10 ++ 255 ∷ 255 ∷ 10 ∷ 8 ∷ 0 ∷ 1 ∷ []; is_4 = true; zone = [] }

fourth_test : server_addr (codes "10.8.0.1") (pos 2222) ≡ some (target fourth 2222)
unfolding server_addr parse_addr parse_addr_port cut_last itoa unbracket
fourth_test = refl

abbrev silent : ℕ → Round
silent i = record { connected = i == 3; cancelled = false; took = 500 }

wait_tunnel-Ends_example : Ends silent 0 (wait_tunnel silent)
wait_tunnel-Ends_example = wait_tunnel-Ends silent

wait_test : (wait_tunnel silent).result ≡ some (reached 3)
unfolding wait_tunnel
wait_test = refl

abbrev unlock_disk : Disk
unlock_disk = record {
  files = λ p.
      if equal p (codes "out/client_auth_ed25519")
      then some (record { content = codes "key"; mode = 0o600 })
      else if equal p (codes "out/dropbear_host_key.pub")
      then some (record { content = codes "pin"; mode = 0o644 })
      else none;
  unreadable = λ _. false;
  unwritable = λ _. false;
  leftover = λ _. none;
  fixed = λ _. false;
}

abbrev lib : SshLibrary
lib = record {
  Signer = Bytes;
  HostKey = Bytes;
  parse_private_key = λ s. some s;
  parse_authorized_key = λ s. some s;
}

abbrev server : Server lib
server = record {
  accepts = λ _. true;
  shakes = λ _ _ k. equal k (codes "pin");
  succeeds = λ _ _. true;
}

perform_unlock-Steps_example :
    Steps none
      (perform_unlock lib server unlock_disk (codes "out") (codes "change") (codes "y") true).events
      none
perform_unlock-Steps_example =
    perform_unlock-Steps lib server unlock_disk (codes "out") (codes "change") (codes "y") true

commands-perform_unlock_example :
    commands
      (perform_unlock lib server unlock_disk (codes "out") (codes "change") (codes "y") true).events
    ≡ expected_commands lib server unlock_disk (codes "out") (codes "change") (codes "y") true
commands-perform_unlock_example =
    commands-perform_unlock lib server unlock_disk (codes "out") (codes "change") (codes "y") true

commands_test :
    commands
      (perform_unlock lib server unlock_disk (codes "out") (codes "change") (codes "y") true).events
    ≡ codes "change" ∷ codes "cryptroot-unlock" ∷ []
unfolding perform_unlock commands with_client dial_ssh Disk.read_file equal handle_change_and_unlock
    after_change run_change_key is_empty trim_space run_unlock
commands_test = refl

declined_test :
    commands
      (perform_unlock lib server unlock_disk (codes "out") (codes "change") (codes "n") true).events
    ≡ codes "change" ∷ []
unfolding perform_unlock commands with_client dial_ssh Disk.read_file equal handle_change_and_unlock
    after_change run_change_key is_empty trim_space run_unlock
declined_test = refl

abbrev same_text : Bytes → Bytes
same_text s = s

abbrev good_ssh : Ssh
good_ssh = record {
  exits = λ _. record { status = success; stdout = []; stderr = []; combined = [] };
  host_key_file = λ _ _. some (record { content = codes "h ssh-ed25519 K"; mode = 0o600 });
}

abbrev host_only : Config
host_only = record default { host = codes "h" }

change_key_direct_ssh_example :
    ((change_key_direct_ssh same_text good_ssh host_only (codes "out") unlock_disk).1 ≡ (
      if has_failed (
        good_ssh.exits (record {
          args = direct_args host_only (codes "out") (build_change_luks_cmd same_text host_only);
          stdin = terminal;
        }))
      then err session_failed
      else ok tt))
    × SameBut
        (codes "out" ++ codes "/known_hosts")
        unlock_disk
        (change_key_direct_ssh same_text good_ssh host_only (codes "out") unlock_disk).0
unfolding is_empty ssh_port le_ℕ eq_ℕ
change_key_direct_ssh_example =
    change_key_direct_ssh-session same_text good_ssh host_only (codes "out") unlock_disk refl refl

abbrev device : Device
device = record { creates_tun = λ _. true; accepts_ipc = λ _. true; comes_up = true }

unlock-Clean_example : Clean true (codes "out") unlock_disk (wait_tunnel silent).result (
    unlock same_text good_ssh device silent lib server
      (codes "y")
      host_only
      (codes "out")
      true
      unlock_disk)
unlock-Clean_example =
    unlock-Clean same_text good_ssh device silent lib server (codes "y") host_only (codes "out")
      true unlock_disk
