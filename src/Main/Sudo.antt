-- ===== src/Main/Sudo.antt =====
-- `connectForRun`, `ensureSudo` and `sudoProbe` of main.go. `ssh` is the local ssh program, `typed` the
-- password that is read, `none` if the read fails.
use tool_public_ubo.Base.{not, [], if◌then◌else◌, Option, none, some}
use tool_public_ubo.Base.Result.{Result, ok, err}
use tool_public_ubo.Config.{Config}
use tool_public_ubo.Remote.Client.{Client, ConnectOptions, set_sudo_password}
use tool_public_ubo.Remote.Connect.{ConnectError, connect, close}
use tool_public_ubo.Remote.Process.{Ssh, run_command, keep_host_key}
use tool_public_ubo.System.Disk.{Disk}
use tool_public_ubo.Text.Compare.{Bytes, codes}
use tool_public_ubo.Text.FilePath.{join}

pub data SudoError : Type 0 where
  password_unread : SudoError
  sudo_failed : Bytes → SudoError

pub data RunConnectError : Type 0 where
  not_connected : ConnectError → RunConnectError
  no_sudo : SudoError → RunConnectError

unfoldable pub sudo_probe : Ssh → Client → Result Bytes (Unit {0})
sudo_probe ssh c = (run_command ssh c (codes "true")).1

-- The second probe, with the password in the client.
unfoldable pub accept_password : Client → Result Bytes (Unit {0}) → Result SudoError Client
accept_password c (ok _) = ok c
accept_password c (err e) = err (sudo_failed e)

unfoldable pub with_password : Ssh → Client → Option Bytes → Disk → Disk × Result SudoError Client
unfolding accept_password sudo_probe keep_host_key
with_password ssh c none d = (d, err password_unread)
with_password ssh c (some pw) d =
    let c' = set_sudo_password c pw in
    (keep_host_key ssh c' d, accept_password c' (sudo_probe ssh c'))

-- The client goes on as it is if the first probe went well.
unfoldable pub after_probe :
    Ssh → Client → Option Bytes → Result Bytes (Unit {0}) → Disk → Disk × Result SudoError Client
unfolding with_password
after_probe ssh c typed (ok _) d = (d, ok c)
after_probe ssh c typed (err _) d = with_password ssh c typed d

-- The disk and the client behind the call; the probe runs ssh, which may record the host key.
unfoldable pub ensure_sudo :
    Ssh → Config → Client → Option Bytes → Disk → Disk × Result SudoError Client
unfolding after_probe sudo_probe keep_host_key
ensure_sudo ssh cfg c typed d =
    if not cfg.ssh.sudo
    then (d, ok c)
    else after_probe ssh c typed (sudo_probe ssh c) (keep_host_key ssh c d)

abbrev pub run_options : Config → Bytes → ConnectOptions
run_options cfg out_dir = record {
  host = cfg.host;
  port = cfg.ssh.port;
  user = cfg.ssh.user;
  key_path = cfg.ssh.key;
  known_hosts_path = join out_dir (codes "ssh_known_hosts");
  pinned_key_path = [];
  sudo = cfg.ssh.sudo;
  proxy_jump = cfg.ssh.proxy_jump;
}

-- The client is closed when there is no sudo.
unfoldable pub checked_client :
    Client → Disk × Result SudoError Client → Disk × Result RunConnectError Client
checked_client c (d, ok c') = (d, ok c')
checked_client c (d, err e) = ((close c d).0.1, err (no_sudo e))

unfoldable pub with_sudo :
    Ssh
    → Config
    → Option Bytes
    → Result ConnectError Client × Disk
    → Disk × Result RunConnectError Client
unfolding ensure_sudo checked_client
with_sudo ssh cfg typed (err e, d) = (d, err (not_connected e))
with_sudo ssh cfg typed (ok c, d) = checked_client c (ensure_sudo ssh cfg c typed d)

unfoldable pub connect_for_run :
    Ssh → Config → Bytes → Option Bytes → Disk → Disk × Result RunConnectError Client
unfolding with_sudo
connect_for_run ssh cfg out_dir typed d =
    with_sudo ssh cfg typed (connect (some (run_options cfg out_dir)) d)
