-- ===== src/Main/Run.antt =====
-- `prepareRun`, `writeRunArtifacts` and `cmdRun` of main.go, which put the parts of the program together.
use tool_public_ubo.Checker
use tool_public_ubo.Checker.{check_tools}
use tool_public_ubo.Keygen.All.{Sources, generate_all}
use tool_public_ubo.Keygen.{KeygenError}
use tool_public_ubo.Setup.Configure.{ConfigureError, configure}
use tool_public_ubo.Templates.Readme.{render_readme}
use tool_public_ubo.Base.{Bool, true, false, List, ◌++◌, if◌then◌else◌, Option}
use tool_public_ubo.Base.Result.{Result, ok, err, ◌>>=◌, ◌>>◌, map_err, fail_if}
use tool_public_ubo.Config.Files.{Faults, output_dir, wg_server_tunnel_ip, save}
use tool_public_ubo.Config.Validate.{validate}
use tool_public_ubo.Config.{Config}
use tool_public_ubo.Keygen.{Keys}
use tool_public_ubo.Main.Command.{wg_endpoint}
use tool_public_ubo.Main.Load.{ConfigError, invalid, load_or_bootstrap}
use tool_public_ubo.Main.Sudo.{RunConnectError, connect_for_run}
use tool_public_ubo.Remote.Client.{Client}
use tool_public_ubo.Remote.Connect.{close}
use tool_public_ubo.Remote.Process.{Ssh}
use tool_public_ubo.System.Disk.{Disk, write_file}
use tool_public_ubo.Templates.WireGuard.{WireGuardClientConfig, Missing, marshal_client}
use tool_public_ubo.Text.Compare.{Bytes, codes}
use tool_public_ubo.Text.FilePath.{join}

-- What the outside answers to a run.
pub record Environment : Type 0 where
  -- the programs that `exec.LookPath` finds
  pub on_path : Bytes → Bool
  -- `os.MkdirAll` of the output directory goes well
  pub makes_dir : Bool
  pub sources : Sources
  pub unmarshal : Bytes → Option Bytes
  pub ssh : Ssh
  -- the lines of the standard input, and the password that is typed
  pub lines : List Bytes
  pub typed : Option Bytes
  -- the temporary file of `Save`, and what fails of it
  pub temporary : Option Bytes
  pub faults : Faults

pub data ArtifactError : Type 0 where
  not_rendered : Missing → ArtifactError
  not_written : Bytes → ArtifactError

pub data RunError : Type 0 where
  bad_config : ConfigError → RunError
  no_tools : Checker.Missing → RunError
  no_dir : Bytes → RunError
  no_keys : KeygenError → RunError
  no_setup : ConfigureError → RunError
  no_client : RunConnectError → RunError
  no_artifacts : ArtifactError → RunError

unfoldable pub prepared_with : Environment → Config → Result RunError Config
unfolding check_tools
prepared_with env c = do
  map_err (λ e. bad_config (invalid e)) (validate c)
  map_err no_tools (check_tools env.on_path (codes "run"))
  fail_if (if env.makes_dir then false else true) (no_dir (output_dir c))
  ok c

-- The configuration; its output directory is then there.
unfoldable pub prepare_run : Environment → Bytes → Disk → Result RunError Config
unfolding prepared_with
prepare_run env path d =
    map_err bad_config (load_or_bootstrap path env.lines d) >>= prepared_with env

abbrev pub client_config : Config → Keys → WireGuardClientConfig
client_config c keys = record {
  private_key = keys.client_wg_private;
  address = c.wireguard.client_ip;
  server_public_key = keys.server_wg_public;
  server_endpoint = wg_endpoint c.host c.wireguard.port;
  allowed_ips = wg_server_tunnel_ip c ++ codes "/32";
}

-- The README behind the file for WireGuard.
unfoldable pub write_readme : Bytes → Bytes → Disk × Bool → Disk × Result ArtifactError Bytes
write_readme out_dir readme (d, false) =
    (d, err (not_written (join out_dir (codes "client_wg.conf"))))
write_readme out_dir readme (d, true) =
    let (d', went) = write_file d (join out_dir (codes "README.txt")) readme 0o644 in
    let readme_path = join out_dir (codes "README.txt") in
    (d', (if went then ok readme_path else err (not_written readme_path)))

unfoldable pub write_rendered :
    Bytes → Bytes → Result Missing Bytes → Disk → Disk × Result ArtifactError Bytes
unfolding write_readme
write_rendered out_dir readme (err e) d = (d, err (not_rendered e))
write_rendered out_dir readme (ok text) d =
    write_readme out_dir readme (write_file d (join out_dir (codes "client_wg.conf")) text 0o600)

-- The path of the README.
unfoldable pub write_run_artifacts :
    Config → Keys → Bytes → Bytes → Disk → Disk × Result ArtifactError Bytes
unfolding write_rendered
write_run_artifacts c keys out_dir path d =
    write_rendered out_dir
      (render_readme (record {
        server_tunnel_ip = wg_server_tunnel_ip c;
        dropbear_port = c.dropbear.port;
        config_path = path;
      }))
      (marshal_client (client_config c keys)) d

module _ (env : Environment) (c : Config) where
  abbrev pub target_dir : Bytes
  target_dir = output_dir c

  -- Behind the set-up. That the copy of the configuration is not saved is a warning only.
  unfoldable pub after_setup : Keys → Disk → Disk × Result RunError Bytes
  after_setup keys d =
      let (d', saved) = save env.temporary env.faults c (join target_dir (codes "ubo.toml")) d in
      let (d'', r) =
        write_run_artifacts c keys target_dir (join target_dir (codes "ubo.toml")) d' in
      (d'', map_err no_artifacts r)

  -- The client is closed at the end, whatever the end is.
  unfoldable pub closed_behind :
      Client → Disk × Result RunError Bytes → Disk × Result RunError Bytes
  closed_behind client (d, r) = ((close client d).0.1, r)

  unfoldable pub with_setup :
      Keys → Disk × Result ConfigureError (Unit {0}) → Disk × Result RunError Bytes
  unfolding after_setup
  with_setup keys (d, err e) = (d, err (no_setup e))
  with_setup keys (d, ok _) = after_setup keys d

  unfoldable pub with_client :
      Keys → Disk × Result RunConnectError Client → Disk × Result RunError Bytes
  unfolding with_setup closed_behind
  with_client keys (d, err e) = (d, err (no_client e))
  with_client keys (d, ok client) =
      closed_behind client
        (with_setup keys (configure env.unmarshal env.ssh client c keys target_dir d))

  unfoldable pub with_keys : Disk × Result KeygenError Keys → Disk × Result RunError Bytes
  unfolding with_client
  with_keys (d, err e) = (d, err (no_keys e))
  with_keys (d, ok keys) = with_client keys (connect_for_run env.ssh c target_dir env.typed d)

unfoldable pub run_prepared :
    Environment → Result RunError Config → Disk → Disk × Result RunError Bytes
unfolding with_keys
run_prepared env (err e) d = (d, err e)
run_prepared env (ok c) d = with_keys env c (generate_all env.sources (output_dir c) d)

-- The path of the README that the last message names.
unfoldable pub cmd_run : Environment → Bytes → Disk → Disk × Result RunError Bytes
unfolding run_prepared prepare_run
cmd_run env path d = run_prepared env (prepare_run env path d) d
