-- ===== src/Setup/Configure.antt =====
-- `Configure`, `runSetupScript`, `parseSetupResult` and `savePinnedKey` of internal/setup/setup.go.
-- `unmarshal` is `json.Unmarshal` into a `setupResult`: the field dropbear_pub_key, which is empty when
-- the text has none, and `none` for an error.
use tool_public_ubo.Base.{true, false, List, [], ◌∷◌, ◌++◌, if◌then◌else◌, Option, none, some}
use tool_public_ubo.Base.Result.{Result, ok, err, ◌>>=◌, map_err}
use tool_public_ubo.Config.{Config}
use tool_public_ubo.Keygen.{Keys}
use tool_public_ubo.Remote.Client.{Client}
use tool_public_ubo.Remote.Process.{Ssh, run_command, write_file, keep_host_key}
use tool_public_ubo.Setup.{NetworkInfo, Run}
use tool_public_ubo.Setup.Detect.{DetectError, detect_network}
use tool_public_ubo.Setup.Script.{ScriptError, build_setup_script_data}
use tool_public_ubo.System.Disk.{Disk}
use tool_public_ubo.System.Disk
use tool_public_ubo.Templates.Checks.{SetupScriptData, FieldError}
use tool_public_ubo.Templates.Hook.{initramfs_hook_tmpl, initramfs_umask_conf}
use tool_public_ubo.Templates.Initramfs.{script_text}
use tool_public_ubo.Templates.SetupScript.{render_setup_script}
use tool_public_ubo.Text.Compare.{Bytes, codes, has_prefix, is_empty}
use tool_public_ubo.Text.FilePath.{join}
use tool_public_ubo.Text.Lines.{split}
use tool_public_ubo.Text.Space.{trim_space}

pub data ConfigureError : Type 0 where
  detection : DetectError → ConfigureError
  script_data : ScriptError → ConfigureError
  not_rendered : FieldError → ConfigureError
  not_uploaded script_failed : Bytes → ConfigureError
  no_json bad_json no_key not_saved : ConfigureError

-- The remote host behind a client, for the detection.
abbrev pub replies : Ssh → Client → Run
replies ssh client command =
    let (out, r) = run_command ssh client command in
    record { out = out; failed = elim r [ ok _ ↦ false | err _ ↦ true ] }

abbrev script_path : Bytes
script_path = codes "/tmp/ubo-setup.sh"

-- What came of the upload, then what came of the run.
unfoldable pub ran_script :
    Result Bytes (Unit {0}) → Bytes × Result Bytes (Unit {0}) → Result ConfigureError Bytes
ran_script (err e) reply = err (not_uploaded e)
ran_script (ok _) (out, ok _) = ok out
ran_script (ok _) (out, err e) = err (script_failed e)

unfoldable pub run_setup_script : Ssh → Client → Bytes → Result ConfigureError Bytes
unfolding ran_script
run_setup_script ssh client script =
    ran_script (write_file ssh client script_path script 0o700)
      (run_command ssh client (codes "sh /tmp/ubo-setup.sh"))

-- The last line that starts with a brace, or the one that is given.
unfoldable pub json_line : Bytes → List Bytes → Bytes
json_line found [] = found
json_line found (line ∷ lines) =
    json_line (if has_prefix (trim_space line) (codes "{") then trim_space line else found) lines

unfoldable pub key_of : Option Bytes → Result ConfigureError Bytes
key_of none = err bad_json
key_of (some key) = if is_empty key then err no_key else ok key

unfoldable pub parse_setup_result : (Bytes → Option Bytes) → Bytes → Result ConfigureError Bytes
unfolding json_line key_of
parse_setup_result unmarshal out =
    let line = json_line [] (split b'\n' out) in
    if is_empty line then err no_json else key_of (unmarshal line)

abbrev pub pinned_path : Bytes → Bytes
pinned_path out_dir = join out_dir (codes "dropbear_host_key.pub")

unfoldable pub save_pinned_key : Bytes → Bytes → Disk → Disk × Result ConfigureError (Unit {0})
save_pinned_key out_dir key d =
    let (d', went) =
      tool_public_ubo.System.Disk.write_file d (pinned_path out_dir) (key ++ codes "\n") 0o644 in
    (d', (if went then ok tt else err not_saved))

unfoldable pub build_data : Config → Keys → NetworkInfo → Result ScriptError SetupScriptData
unfolding build_setup_script_data
build_data = build_setup_script_data initramfs_hook_tmpl initramfs_umask_conf script_text

-- The steps in front of the saving: the public key of Dropbear.
unfoldable pub remote_steps :
    (Bytes → Option Bytes) → Ssh → Client → Config → Keys → Result ConfigureError Bytes
unfolding build_data run_setup_script parse_setup_result
remote_steps unmarshal ssh client c keys = do
  info ← map_err detection (detect_network (replies ssh client) c)
  data' ← map_err script_data (build_data c keys info)
  script ← map_err not_rendered (render_setup_script data')
  out ← run_setup_script ssh client script
  parse_setup_result unmarshal out

unfoldable pub saved :
    Bytes → Result ConfigureError Bytes → Disk → Disk × Result ConfigureError (Unit {0})
unfolding save_pinned_key
saved out_dir (err e) d = (d, err e)
saved out_dir (ok key) d = save_pinned_key out_dir key d

unfoldable pub configure :
    (Bytes → Option Bytes)
    → Ssh
    → Client
    → Config
    → Keys
    → Bytes
    → Disk
    → Disk × Result ConfigureError (Unit {0})
unfolding saved remote_steps keep_host_key
configure unmarshal ssh client c keys out_dir d =
    saved out_dir (remote_steps unmarshal ssh client c keys) (keep_host_key ssh client d)
