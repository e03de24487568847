-- ===== src/Config/Files.antt =====
-- `Load`, `OutputDir`, `WGServerTunnelIP` and `WGClientTunnelIP` of internal/config/config.go, and
-- `Save` of internal/config/toml.go.
use tool_public_ubo.Base.{
  ℕ, Bool, true, false, ◌||◌, not, [], ◌∷◌, ◌++◌, ◌==◌, if◌then◌else◌, Option, none, some,
}
use tool_public_ubo.Base.Result.{Result, ok, err, map_err}
use tool_public_ubo.Config.Parse.{parse_toml}
use tool_public_ubo.Config.Print.{marshal}
use tool_public_ubo.Config.Value.{Error}
use tool_public_ubo.Config.{Config, default}
use tool_public_ubo.Net.Cidr.{parse_cidr}
use tool_public_ubo.Net.Show.{show_ip}
use tool_public_ubo.System.Disk.{Disk, File, IoError, read_file, write_file, remove, update}
use tool_public_ubo.Text.Compare.{Bytes, codes, is_empty}

pub data LoadError : Type 0 where
  unread : IoError → LoadError
  unparsed : Error → LoadError

unfoldable pub load_text : Result IoError Bytes → Result LoadError Config
load_text (err e) = err (unread e)
load_text (ok text) = map_err unparsed (parse_toml text default)

unfoldable pub load : Bytes → Disk → Result LoadError Config
unfolding load_text
load path d = load_text (read_file d path)

-- The replacer of `OutputDir`.
unfoldable pub strip_host : Bytes → Bytes
strip_host [] = []
strip_host (c ∷ s) =
    let rest = strip_host s in
    if c == b':' then b'-' ∷ rest else if c == b'[' || c == b']' then rest else c ∷ rest

unfoldable pub output_dir : Config → Bytes
unfolding strip_host
output_dir c =
    if not (is_empty c.output.dir) then c.output.dir else codes "ubo-" ++ strip_host c.host

unfoldable pub tunnel_ip : Bytes → Bytes
tunnel_ip s = elim (parse_cidr s) [ none ↦ [] | some x ↦ show_ip x.ip ]

unfoldable pub wg_server_tunnel_ip : Config → Bytes
unfolding tunnel_ip
wg_server_tunnel_ip c = tunnel_ip c.wireguard.server_ip

unfoldable pub wg_client_tunnel_ip : Config → Bytes
unfolding tunnel_ip
wg_client_tunnel_ip c = tunnel_ip c.wireguard.client_ip

pub data SaveError : Type 0 where
  not_created not_written not_chmod not_closed not_renamed : SaveError

-- Which of the later calls on the temporary file fail.
pub record Faults : Type 0 where
  pub chmod : Bool
  pub close : Bool
  pub rename : Bool

-- `os.CreateTemp`: an empty file with mode 0600.
abbrev pub created : Disk → Bytes → Disk
created d tmp = record d {
  files = update d.files tmp (some (record { content = []; mode = 0o600 }));
}

-- `tmp.Chmod`
abbrev pub with_mode : ℕ → Option File → Option File
with_mode m none = none
with_mode m (some f) = some (record f { mode = m })

abbrev pub chmod : Disk → Bytes → ℕ → Disk
chmod d path m = record d { files = update d.files path (with_mode m (d.files path)) }

-- `os.Rename`, when it goes well.
abbrev pub rename : Disk → Bytes → Bytes → Disk
rename d old new = record d { files = update (update d.files new (d.files old)) old none }

-- The calls between the creation and the deferred removal.
unfoldable pub fill_temp :
    Faults → Bytes → Bytes → Bytes → Disk × Bool → Disk × Result SaveError (Unit {0})
fill_temp faults text tmp path (d, false) = (d, err not_written)
fill_temp faults text tmp path (d, true) =
    if faults.chmod
    then (d, err not_chmod)
    else if faults.close
    then (chmod d tmp 0o644, err not_closed)
    else if faults.rename
    then (chmod d tmp 0o644, err not_renamed)
    else (rename (chmod d tmp 0o644) tmp path, ok tt)

-- `tmp` is the name that `os.CreateTemp` chose, `none` if it failed.
unfoldable pub save :
    Option Bytes → Faults → Config → Bytes → Disk → Disk × Result SaveError (Unit {0})
save none faults c path d = (d, err not_created)
save (some tmp) faults c path d =
    let (d', r) =
      fill_temp faults (marshal c) tmp path (write_file (created d tmp) tmp (marshal c) 0o600) in
    ((remove d' tmp).0, r)
