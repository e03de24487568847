-- ===== src/Remote/Connect.antt =====
-- `Connect`, `validateConnectOptions`, `applyHostKeyMode` and `Close` of internal/remote/remote.go.
use tool_public_ubo.Base.{◌&&◌, not, [], if◌then◌else◌, Option, none, some}
use tool_public_ubo.Base.Int.{ℤ, le_ℕ}
use tool_public_ubo.Base.Result.{Result, ok, err, ◌>>◌, fail_if}
use tool_public_ubo.Remote.Client.{ConnectOptions, Client}
use tool_public_ubo.Remote.Pinned.{PinError, materialize_pinned_known_hosts}
use tool_public_ubo.System.Disk.{Disk, IoError, not_exist, denied, remove}
use tool_public_ubo.Text.Compare.{Bytes, codes, is_empty}

pub data ConnectError : Type 0 where
  nil_options host_required user_required : ConnectError
  invalid_port : ℤ → ConnectError
  both_modes no_mode : ConnectError
  pinned : PinError → ConnectError

unfoldable pub validate_host_key_mode_exclusive : ConnectOptions → Result ConnectError (Unit {0})
validate_host_key_mode_exclusive o =
    fail_if (not (is_empty o.known_hosts_path) && not (is_empty o.pinned_key_path)) both_modes

unfoldable pub validate_connect_options : Option ConnectOptions → Result ConnectError (Unit {0})
unfolding validate_host_key_mode_exclusive
validate_connect_options none = err nil_options
validate_connect_options (some o) = do
  fail_if (is_empty o.host) host_required
  fail_if (is_empty o.user) user_required
  fail_if (le_ℕ o.port 0) (invalid_port o.port)
  validate_host_key_mode_exclusive o

-- The client with the materialized file.
unfoldable pub pin_client :
    Client → Result PinError Bytes × Disk → Result ConnectError Client × Disk
pin_client c (err e, d) = (err (pinned e), d)
pin_client c (ok file, d) = (
  ok (record c { known_hosts_file = file; temp_known_hosts = file; strict_mode = codes "yes" }),
  d,
)

unfoldable pub apply_host_key_mode :
    Client → ConnectOptions → Disk → Result ConnectError Client × Disk
unfolding pin_client
apply_host_key_mode c o d =
    if not (is_empty o.pinned_key_path)
    then pin_client c (materialize_pinned_known_hosts o.host o.port o.pinned_key_path d)
    else if not (is_empty o.known_hosts_path)
    then (
      ok (record c { known_hosts_file = o.known_hosts_path; strict_mode = codes "accept-new" }),
      d,
    )
    else (err no_mode, d)

-- The client before its host-key mode is set.
abbrev pub new_client : ConnectOptions → Client
new_client o = record {
  host = o.host;
  port = o.port;
  user = o.user;
  key_path = o.key_path;
  sudo = o.sudo;
  sudo_password = [];
  proxy_jump = o.proxy_jump;
  known_hosts_file = [];
  strict_mode = [];
  temp_known_hosts = [];
}

unfoldable pub connect_valid :
    Option ConnectOptions
    → Result ConnectError (Unit {0})
    → Disk
    → Result ConnectError Client × Disk
connect_valid o (err e) d = (err e, d)
connect_valid none (ok _) d = (err nil_options, d)
connect_valid (some o) (ok _) d = apply_host_key_mode (new_client o) o d

unfoldable pub connect : Option ConnectOptions → Disk → Result ConnectError Client × Disk
unfolding connect_valid
connect o d = connect_valid o (validate_connect_options o) d

-- What `Close` returns for the result of `os.Remove`.
unfoldable pub close_result : Result IoError (Unit {0}) → Result IoError (Unit {0})
close_result (ok u) = ok u
close_result (err not_exist) = ok tt
close_result (err denied) = err denied

unfoldable pub close : Client → Disk → (Client × Disk) × Result IoError (Unit {0})
unfolding close_result
close c d =
    if is_empty c.temp_known_hosts
    then ((c, d), ok tt)
    else let removed = remove d c.temp_known_hosts in
      ((record c { temp_known_hosts = [] }, removed.0), close_result removed.1)
