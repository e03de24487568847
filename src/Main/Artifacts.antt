-- ===== src/Main/Artifacts.antt =====
-- `statusArtifacts`, `statusReport`, `requireUnlockFiles` and the list of files of `cmdUnlock` in
-- main.go.
use tool_public_ubo.Base.{
  Bool, true, false, ◌&&◌, not, List, [], ◌∷◌, if◌then◌else◌, Option, none, some, ◌≡◌, ◌↔◌, arith,
}
use tool_public_ubo.System.Disk.{Disk, exists}
use tool_public_ubo.Text.Compare.{Bytes, codes}
use tool_public_ubo.Text.FilePath.{join}

pub record StatusFile : Type 0 where
  pub name : Bytes
  pub required_for_unlock : Bool

abbrev file : Bytes → Bool → StatusFile
file name required = record { name = name; required_for_unlock = required }

abbrev pub status_artifacts : List StatusFile
status_artifacts =
    file (codes "server_wg_private.key") false
    ∷ file (codes "server_wg_public.key") false
    ∷ file (codes "client_wg_private.key") false
    ∷ file (codes "client_wg_public.key") false
    ∷ file (codes "client_auth_ed25519") true
    ∷ file (codes "client_auth_ed25519.pub") false
    ∷ file (codes "dropbear_host_key.pub") true
    ∷ file (codes "client_wg.conf") true
    ∷ file (codes "README.txt") false
    ∷ []

-- The loop: the flag so far, and the presence of each name.
unfoldable pub report : Disk → Bytes → Bool → List StatusFile → Bool × List (Bytes × Bool)
report d out_dir ready [] = (ready, [])
report d out_dir ready (a ∷ more) =
    let found = exists d (join out_dir a.name) in
    let rest =
      report d out_dir (if a.required_for_unlock && not found then false else ready) more in
    (rest.0, (a.name, found) ∷ rest.1)

unfoldable pub status_report : Disk → Bytes → Bool × List (Bytes × Bool)
unfolding report
status_report d out_dir = report d out_dir true status_artifacts

-- The first path that is missing, `none` if all are there.
unfoldable pub require_unlock_files : Disk → List Bytes → Option Bytes
require_unlock_files d [] = none
require_unlock_files d (p ∷ ps) =
    let rest = require_unlock_files d ps in if exists d p then rest else some p

-- The files that `cmdUnlock` asks for.
abbrev pub unlock_files : Bytes → List Bytes
unlock_files out_dir =
    join out_dir (codes "client_wg.conf")
    ∷ join out_dir (codes "client_auth_ed25519")
    ∷ join out_dir (codes "dropbear_host_key.pub")
    ∷ []

-- `ubo status` says that a directory is ready exactly when `ubo unlock` finds all of the files
-- that it asks for there.
pub status_report-require_unlock_files :
    (d : Disk) (out_dir : Bytes)
    → ((status_report d out_dir).0 ≡ true) ↔ (require_unlock_files d (unlock_files out_dir) ≡ none)
unfolding status_report require_unlock_files
status_report-require_unlock_files d out_dir = ground arith
