-- ===== src/Tests/Commands.antt =====
-- The theorems on the commands of main.go at concrete inputs.
use tool_public_ubo.Base.{◌≡◌, refl, true, false, none, some, [], ◌∷◌, ◌++◌, List, ℕ, ◌==◌, arith}
use tool_public_ubo.Base.Int.{pos}
use tool_public_ubo.Base.Result.{ok}
use tool_public_ubo.Config.Files.{wg_server_tunnel_ip, tunnel_ip}
use tool_public_ubo.Config.{Config, default}
use tool_public_ubo.Net.Cidr.{parse_cidr}
use tool_public_ubo.Net.Show.{show_ip}
use tool_public_ubo.Templates.WireGuard.{marshal_client}
use tool_public_ubo.Text.Decimal.{itoa}
use tool_public_ubo.Text.FilePath.{join}
use tool_public_ubo.Rootless.Parse.{parse_wg_config}
use tool_public_ubo.Rootless.RoundTrip.{IsWritable}
use tool_public_ubo.Keygen.{Keys}
use tool_public_ubo.Main.Asked.{IsAnswered, bootstrap_config-IsAnswered}
use tool_public_ubo.Main.Command.{is_flag, wg_endpoint}
use tool_public_ubo.Main.Dispatch.{dispatch}
use tool_public_ubo.Main.Init.{InitOutcome, cmd_init, cmd_init-InitOutcome}
use tool_public_ubo.Main.Load.{bootstrap_config, answered}
use tool_public_ubo.Main.Select.{scan_int}
use tool_public_ubo.Main.Unlock.{cmd_unlock, Safe, cmd_unlock-Safe}
use tool_public_ubo.Main.Usage.{TakesPath, spelled, dash_equals, dispatch-config, dispatch-run}
use tool_public_ubo.Main.Run.{client_config, write_run_artifacts, write_rendered, write_readme}
use tool_public_ubo.Main.Configured.{client_values, parse_wg_config-write_run_artifacts}
use tool_public_ubo.Remote.Process.{Ssh, success, exit_error}
use tool_public_ubo.Rootless.Session.{SshLibrary, Server}
use tool_public_ubo.Rootless.Tunnel.{Round}
use tool_public_ubo.Rootless.Unlock.{Device}
use tool_public_ubo.System.Disk.{Disk, write_file}
use tool_public_ubo.Text.Compare.{Bytes, codes, equal, is_empty, contains_byte}
use tool_public_ubo.Text.Space.{trim_space}

abbrev empty_disk : Disk
empty_disk = record {
  files = λ _. none;
  unreadable = λ _. false;
  unwritable = λ _. false;
  leftover = λ _. none;
  fixed = λ _. false;
}

cmd_init_example :
    InitOutcome (codes "ubo.toml") empty_disk (cmd_init (codes "ubo.toml") empty_disk)
cmd_init_example = cmd_init-InitOutcome (codes "ubo.toml") empty_disk refl

abbrev typed_lines : List Bytes
typed_lines = codes "\n" ∷ codes " fd00::1\n" ∷ codes "\n" ∷ codes "2222\n" ∷ codes "\n" ∷ []

abbrev typed_config : Config
typed_config = answered (codes "fd00::1") (codes "root") (pos 2222) []

typed_read : bootstrap_config typed_lines ≡ ok typed_config
unfolding bootstrap_config is_empty trim_space scan_int
typed_read = refl

bootstrap_config_example : IsAnswered typed_config
bootstrap_config_example = bootstrap_config-IsAnswered typed_lines typed_read

abbrev sudo_config : Config
sudo_config = record default { host = codes "h"; ssh = record (default.ssh) { sudo = true } }

abbrev failing_ssh : Ssh
failing_ssh = record {
  exits = λ _. record { status = exit_error; stdout = []; stderr = codes "no"; combined = [] };
  host_key_file = λ _ _. some (record { content = codes "h ssh-ed25519 K"; mode = 0o600 });
}

dispatch-config_example :
    TakesPath (λ sub flag. dispatch (sub ++ flag)) (codes "a=b") (spelled dash_equals (codes "a=b"))
unfolding is_empty
dispatch-config_example = dispatch-config dash_equals (codes "a=b") refl

dispatch-run_example :
    (dispatch [] ≡ dispatch (codes "run" ∷ []))
    × (dispatch (codes "--config" ∷ codes "a" ∷ [])
        ≡ dispatch (codes "run" ∷ codes "--config" ∷ codes "a" ∷ []))
unfolding is_flag
dispatch-run_example = dispatch-run (codes "--config") (codes "a" ∷ []) refl

abbrev same_text : Bytes → Bytes
same_text s = s

abbrev good_ssh : Ssh
good_ssh = record {
  exits = λ _. record { status = success; stdout = []; stderr = []; combined = [] };
  host_key_file = λ _ _. some (record { content = codes "h ssh-ed25519 K"; mode = 0o600 });
}

abbrev device : Device
device = record { creates_tun = λ _. true; accepts_ipc = λ _. true; comes_up = true }

abbrev rounds : ℕ → Round
rounds i = record { connected = i == 1; cancelled = false; took = 0 }

abbrev lib : SshLibrary
lib = record {
  Signer = Bytes;
  HostKey = Bytes;
  parse_private_key = λ s. some s;
  parse_authorized_key = λ s. some s;
}

abbrev server : Server lib
server = record { accepts = λ _. true; shakes = λ _ _ _. true; succeeds = λ _ _. true }

-- Every file that is asked for is there; the others are an empty configuration with a host.
abbrev full_disk : Disk
full_disk = record empty_disk {
  files = λ _. some (record { content = codes "host = \"h\""; mode = 0o600 });
}

cmd_unlock_example :
    Safe same_text good_ssh device rounds lib server (codes "y") true (codes "ubo.toml") full_disk (
      cmd_unlock same_text good_ssh device rounds lib server
        (codes "y")
        true
        (codes "ubo.toml")
        full_disk)
cmd_unlock_example =
    cmd_unlock-Safe same_text good_ssh device rounds lib server (codes "y") true (codes "ubo.toml")
      full_disk

abbrev keys : Keys
keys = record {
  server_wg_private = codes "a";
  server_wg_public = codes "b";
  client_wg_private = codes "c";
  client_wg_public = codes "d";
  client_ssh_key_path = codes "e";
  client_ssh_pub_key = codes "f";
}

writable : IsWritable (client_config typed_config keys)
unfolding is_empty wg_endpoint wg_server_tunnel_ip tunnel_ip parse_cidr show_ip contains_byte itoa
writable = record {
  private_key = record { present = refl; graphic = omega arith; short = omega arith };
  address = record { present = refl; graphic = omega arith; short = omega arith };
  server_public_key = record { present = refl; graphic = omega arith; short = omega arith };
  server_endpoint = record { present = refl; graphic = omega arith; short = omega arith };
  allowed_ips = record { present = refl; graphic = omega arith; short = omega arith };
}

artifacts_apart :
    equal (join (codes "out") (codes "README.txt")) (join (codes "out") (codes "client_wg.conf"))
    ≡ false
unfolding equal join
artifacts_apart = refl

artifacts_written :
    (write_run_artifacts typed_config keys (codes "out") (codes "out/ubo.toml") empty_disk).1
    ≡ ok (codes "out/README.txt")
unfolding write_run_artifacts write_rendered write_readme marshal_client is_empty wg_endpoint
    wg_server_tunnel_ip tunnel_ip parse_cidr show_ip contains_byte itoa write_file join
artifacts_written = refl

parse_wg_config-write_run_artifacts_example :
    parse_wg_config
      (join (codes "out") (codes "client_wg.conf"))
      (write_run_artifacts typed_config keys (codes "out") (codes "out/ubo.toml") empty_disk).0
    ≡ ok (client_values typed_config keys)
parse_wg_config-write_run_artifacts_example =
    parse_wg_config-write_run_artifacts typed_config keys (codes "out") (codes "out/ubo.toml")
      empty_disk writable refl artifacts_apart artifacts_written
