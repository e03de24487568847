-- ===== src/Main/Load.antt =====
-- `loadConfig`, `loadOrBootstrap` and `loadUnlockConfig` of main.go, and the prompts for a configuration:
-- `bootstrapConfig`, `promptRequired` and `promptLine`. The standard input is the list of its complete
-- lines; a read behind the last one fails, as `ReadString` does on an incomplete line.
use tool_public_ubo.Base.{List, [], ◌∷◌, if◌then◌else◌, Option, none, some}
use tool_public_ubo.Base.Int.{ℤ}
use tool_public_ubo.Base.Result.{Result, ok, err, ◌>>=◌, ◌>>◌, map_err}
use tool_public_ubo.Config.Files.{LoadError, unread, load}
use tool_public_ubo.Config.Validate.{Invalid, validate}
use tool_public_ubo.Config.{Config, default}
use tool_public_ubo.Main.Select.{scan_int}
use tool_public_ubo.System.Disk.{Disk, not_exist}
use tool_public_ubo.Text.Compare.{Bytes, codes, is_empty}
use tool_public_ubo.Text.Decimal.{itoa}
use tool_public_ubo.Text.Space.{trim_space}

pub data ConfigError : Type 0 where
  not_found : Bytes → ConfigError
  load_failed : LoadError → ConfigError
  invalid : Invalid → ConfigError
  read_failed : ConfigError
  bad_port : Bytes → ConfigError

load_error : Bytes → LoadError → ConfigError
load_error path (unread not_exist) = not_found path
load_error path e = load_failed e

unfoldable pub load_config : Bytes → Disk → Result ConfigError Config
unfolding load_error
load_config path d = map_err (load_error path) (load path d)

unfoldable pub load_unlock_config : Bytes → Disk → Result ConfigError Config
unfolding load_config
load_unlock_config path d = do c ← load_config path d; map_err invalid (validate c); ok c

-- The value and the lines that are left.
unfoldable pub prompt_required : List Bytes → Result ConfigError (Bytes × List Bytes)
prompt_required [] = err read_failed
prompt_required (line ∷ lines) =
    let again = prompt_required lines in
    if is_empty (trim_space line) then again else ok (trim_space line, lines)

unfoldable pub prompt_line : Bytes → List Bytes → Result ConfigError (Bytes × List Bytes)
prompt_line def [] = err read_failed
prompt_line def (line ∷ lines) =
    if is_empty (trim_space line) then ok (def, lines) else ok (trim_space line, lines)

unfoldable pub read_port : Bytes → Option ℤ → Result ConfigError ℤ
read_port s none = err (bad_port s)
read_port s (some n) = ok n

-- The default configuration with the four answers.
abbrev pub answered : Bytes → Bytes → ℤ → Bytes → Config
answered host user port key = record default {
  host = host;
  ssh = record (default.ssh) { user = user; port = port; key = key };
}

unfoldable pub ask_key : Bytes → Bytes → ℤ → List Bytes → Result ConfigError Config
unfolding prompt_line
ask_key host user port lines = prompt_line [] lines >>= λ a. ok (answered host user port a.0)

unfoldable pub ask_port : Bytes → Bytes → List Bytes → Result ConfigError Config
unfolding prompt_line read_port ask_key
ask_port host user lines = prompt_line (itoa default.ssh.port) lines >>= λ a.
    read_port a.0 (scan_int a.0) >>= λ port. ask_key host user port a.1

unfoldable pub ask_user : Bytes → List Bytes → Result ConfigError Config
unfolding prompt_line ask_port
ask_user host lines = prompt_line default.ssh.user lines >>= λ a. ask_port host a.0 a.1

unfoldable pub bootstrap_config : List Bytes → Result ConfigError Config
unfolding prompt_required ask_user
bootstrap_config lines = prompt_required lines >>= λ a. ask_user a.0 a.1

bootstrap_or : List Bytes → Result LoadError Config → Result ConfigError Config
unfolding bootstrap_config
bootstrap_or lines (ok c) = ok c
bootstrap_or lines (err (unread not_exist)) = bootstrap_config lines
bootstrap_or lines (err e) = err (load_failed e)

unfoldable pub load_or_bootstrap : Bytes → List Bytes → Disk → Result ConfigError Config
unfolding load_config bootstrap_or
load_or_bootstrap path lines d =
    if is_empty path then bootstrap_or lines (load (codes "ubo.toml") d) else load_config path d
