-- ===== src/Main/Unlock.antt =====
-- `cmdUnlock` and `cmdStatus` of main.go: the loading, the checks and the unlocking put together.
use mathlib.Core.Path.{subst}
use tool_public_ubo.Base.{
  ℕ, ◌≡◌, ◌⊎◌, inl, inr, refl, Bool, List, [], if◌then◌else◌, Option, none, some,
}
use tool_public_ubo.Base.Result.{
  Result, ok, err, ◌>>=◌, ◌>>◌, map_err, >>=-eq-ok, ok-injective, err-ne-ok,
}
use tool_public_ubo.Config.Checked.{IsChecked, validate_iff}
use tool_public_ubo.Config.Files.{output_dir}
use tool_public_ubo.Config.Validate.{Invalid, validate}
use tool_public_ubo.Config.{Config}
use tool_public_ubo.Main.Artifacts.{require_unlock_files, unlock_files, status_report}
use tool_public_ubo.Main.Load.{ConfigError, load_config, load_unlock_config, invalid}
use tool_public_ubo.Remote.Process.{Ssh}
use tool_public_ubo.Rootless.Session.{Event, SshLibrary, Server}
use tool_public_ubo.Rootless.Tunnel.{Round, wait_tunnel}
use tool_public_ubo.Rootless.Unlock.{Device, Failure, Outcome, unlock}
use tool_public_ubo.Rootless.Whole.{Clean, IsKept, IsTidy, unlock-Clean}
use tool_public_ubo.System.Disk.{Disk}
use tool_public_ubo.Text.Compare.{Bytes}

pub data UnlockError : Type 0 where
  bad_config : ConfigError → UnlockError
  missing : Bytes → UnlockError
  failed : Failure → UnlockError

pub record Unlocked : Type 0 where
  pub disk : Disk
  pub events : List Event
  pub result : Result UnlockError (Unit {0})

abbrev pub finished : Outcome → Unlocked
finished o = record { disk = o.disk; events = o.events; result = map_err failed o.result }

-- A refusal in front of the unlocking.
abbrev pub refused : Disk → UnlockError → Unlocked
refused d e = record { disk = d; events = []; result = err e }

-- What `ubo status` reports; `is_dir` tells which directories are there.
pub data Report : Type 0 where
  not_configured : Report
  artifacts : Bool → List (Bytes × Bool) → Report

unfoldable pub cmd_status : (Bytes → Bool) → Bytes → Disk → Result ConfigError Report
cmd_status is_dir path d = do
  c ← load_config path d
  (if is_dir (output_dir c)
      then ok (artifacts (status_report d (output_dir c)).0 (status_report d (output_dir c)).1)
      else ok not_configured)

validated :
    (r : Result Invalid (Unit {0})) (c : Config) {c' : Config}
    → (map_err invalid r >> ok c) ≡ ok c'
    → (r ≡ ok tt) × (c ≡ c')
validated (ok tt) c h = (refl, ok-injective h)
validated (err e) c h = err-ne-ok h

loaded-IsChecked :
    (path : Bytes) (d : Disk) {c : Config} → load_unlock_config path d ≡ ok c → IsChecked c
unfolding load_unlock_config
loaded-IsChecked path d h =
    let (c', h1, k1) =
      >>=-eq-ok (load_config path d) (λ c. map_err invalid (validate c) >> ok c) h in
    let (valid, same) = validated (validate c') c' k1 in
    subst IsChecked same ((validate_iff c').0 valid)

module _ (quote_go : Bytes → Bytes) (ssh : Ssh) (dev : Device) (rounds : ℕ → Round)
    (lib : SshLibrary) (server : Server lib) (line : Bytes) (change_key : Bool) where
  unfoldable pub with_files : Config → Disk → Option Bytes → Unlocked
  with_files c d (some path) = refused d (missing path)
  with_files c d none =
      finished (unlock quote_go ssh dev rounds lib server line c (output_dir c) change_key d)

  unfoldable pub with_config : Disk → Result ConfigError Config → Unlocked
  unfolding with_files require_unlock_files
  with_config d (err e) = refused d (bad_config e)
  with_config d (ok c) = with_files c d (require_unlock_files d (unlock_files (output_dir c)))

  unfoldable pub cmd_unlock : Bytes → Disk → Unlocked
  unfolding with_config load_unlock_config
  cmd_unlock path d = with_config d (load_unlock_config path d)

  -- The disk is as it was, or known_hosts of the output directory may differ for a change of key. Nothing
  -- happened, or the configuration is valid, all of the files are there, the WireGuard device is taken down
  -- and closed, and every connection is closed; there was one only over a tunnel that came up.
  pub Safe : Bytes → Disk → Unlocked → Type 0
  Safe path d o =
      ((o.disk ≡ d) × (o.events ≡ []))
      ⊎ ((c : Config) × (load_unlock_config path d ≡ ok c)
          × IsChecked c
          × (require_unlock_files d (unlock_files (output_dir c)) ≡ none)
          × IsKept change_key (output_dir c) d o.disk
          × IsTidy (wait_tunnel rounds).result o.events)

  refused-Safe : (path : Bytes) (d : Disk) (e : UnlockError) → Safe path d (refused d e)
  unfolding Safe
  refused-Safe path d e = inl (refl, refl)

  finished-Safe :
      (path : Bytes) (c : Config) (d : Disk) (o : Outcome)
      → load_unlock_config path d ≡ ok c
      → IsChecked c
      → require_unlock_files d (unlock_files (output_dir c)) ≡ none
      → Clean change_key (output_dir c) d (wait_tunnel rounds).result o
      → Safe path d (finished o)
  unfolding Safe Clean
  finished-Safe path c d o loaded valid there (kept, tidy) =
      inr (c, loaded, valid, there, kept, tidy)

  with_files-Safe :
      (path : Bytes) (c : Config) (d : Disk) (r : Option Bytes)
      → load_unlock_config path d ≡ ok c
      → IsChecked c
      → require_unlock_files d (unlock_files (output_dir c)) ≡ r
      → Safe path d (with_files c d r)
  unfolding with_files
  with_files-Safe path c d (some p) loaded valid is = refused-Safe path d (missing p)
  with_files-Safe path c d none loaded valid is =
      finished-Safe path c d _ loaded valid is
        (unlock-Clean quote_go ssh dev rounds lib server line c (output_dir c) change_key d)

  with_config-Safe :
      (path : Bytes) (d : Disk) (r : Result ConfigError Config)
      → load_unlock_config path d ≡ r
      → Safe path d (with_config d r)
  unfolding with_config
  with_config-Safe path d (err e) is = refused-Safe path d (bad_config e)
  with_config-Safe path d (ok c) is =
      with_files-Safe path c d _ is (loaded-IsChecked path d is) refl

  -- Whatever the file at the path holds and whatever WireGuard, the network, Dropbear and ssh do,
  -- `ubo unlock` leaves every file as it was and touches neither a device nor a connection, or the
  -- configuration is valid and the three files are there. Then no file changes but known_hosts of the
  -- output directory, and this one only for a change of key; a WireGuard device that was brought up is
  -- taken down and closed, and every connection to Dropbear is closed, of which there is one only if the
  -- tunnel came up.
  pub cmd_unlock-Safe : (path : Bytes) (d : Disk) → Safe path d (cmd_unlock path d)
  unfolding cmd_unlock
  cmd_unlock-Safe path d = with_config-Safe path d _ refl
