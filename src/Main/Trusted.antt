-- ===== src/Main/Trusted.antt =====
-- What the connection that `connectForRun` of main.go hands on has gone through.
use tool_public_ubo.Base.{◌≡◌, ◌⊎◌, false, [], Option, some}
use tool_public_ubo.Base.Result.{Result, ok, err}
use tool_public_ubo.Config.{Config}
use tool_public_ubo.Main.Sudo.{RunConnectError, sudo_probe}
use tool_public_ubo.Remote.Client.{Client, set_sudo_password}
use tool_public_ubo.Remote.Process.{Ssh}
use tool_public_ubo.System.Disk.{Disk, SameBut}
use tool_public_ubo.Text.Compare.{Bytes, codes}
use tool_public_ubo.Text.FilePath.{join}

-- The client as it is in front of the probe.
abbrev pub run_client : Config → Bytes → Client
run_client cfg out_dir = record {
  host = cfg.host;
  port = cfg.ssh.port;
  user = cfg.ssh.user;
  key_path = cfg.ssh.key;
  sudo = cfg.ssh.sudo;
  sudo_password = [];
  proxy_jump = cfg.ssh.proxy_jump;
  known_hosts_file = join out_dir (codes "ssh_known_hosts");
  strict_mode = codes "accept-new";
  temp_known_hosts = [];
}

-- A client that has passed: it is the one in front of the probe but for the password; sudo works for it
-- if it is asked for, and the password is there only if the first probe failed and it was typed.
pub Passed : Ssh → Config → Bytes → Option Bytes → Client → Type 0
Passed ssh cfg out_dir typed c =
    (c ≡ set_sudo_password (run_client cfg out_dir) c.sudo_password)
    × ((cfg.ssh.sudo ≡ false) ⊎ (sudo_probe ssh c ≡ ok tt))
    × ((c.sudo_password ≡ [])
        ⊎ ((typed ≡ some c.sudo_password)
            × ((text : Bytes) × (sudo_probe ssh (run_client cfg out_dir) ≡ err text))))

-- The known_hosts file of the runs, the one file that a connection may change.
abbrev pub run_known_hosts : Bytes → Bytes
run_known_hosts out_dir = join out_dir (codes "ssh_known_hosts")

unfoldable pub IsTrusted :
    Ssh → Config → Bytes → Option Bytes → Disk → Disk × Result RunConnectError Client → Type 0
IsTrusted ssh cfg out_dir typed d (d', err e) = SameBut (run_known_hosts out_dir) d d'
IsTrusted ssh cfg out_dir typed d (d', ok c) =
    SameBut (run_known_hosts out_dir) d d' × Passed ssh cfg out_dir typed c
