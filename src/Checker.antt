-- ===== src/Checker.antt =====
-- internal/checker/checker.go. `on_path` tells which programs `exec.LookPath` finds.
use tool_public_ubo.Base.{Bool, false, ◌||◌, List, [], ◌∷◌, ◌≡◌, refl, if◌then◌else◌}
use tool_public_ubo.Base.Result.{Result, ok, err}
use tool_public_ubo.Text.Compare.{Bytes, codes, equal}

pub record ToolDef : Type 0 where
  pub name : Bytes
  pub pkg : Bytes

abbrev pub run_tools : List ToolDef
run_tools = record { name = codes "ssh"; pkg = codes "openssh-client" } ∷ []

is_member : Bytes → List Bytes → Bool
is_member s [] = false
is_member s (x ∷ xs) = equal s x || is_member s xs

-- The set of the packages has no order in the source; here it is a list without duplicates.
unfoldable pub find_missing_tools : (Bytes → Bool) → List ToolDef → List Bytes × List Bytes
unfolding is_member
find_missing_tools on_path [] = ([], [])
find_missing_tools on_path (t ∷ tools) =
    let rest = find_missing_tools on_path tools in
    if on_path t.name
    then rest
    else (t.name ∷ rest.0, (if is_member t.pkg rest.1 then rest.1 else t.pkg ∷ rest.1))

-- The tools and the packages that the message names.
pub record Missing : Type 0 where
  pub tools : List Bytes
  pub packages : List Bytes

report_missing : List Bytes × List Bytes → Result Missing (Unit {0})
report_missing ([], packages) = ok tt
report_missing (t ∷ tools, packages) = err (record { tools = t ∷ tools; packages = packages })

unfoldable pub check_tools : (Bytes → Bool) → Bytes → Result Missing (Unit {0})
unfolding find_missing_tools report_missing
check_tools on_path subcommand =
    if equal subcommand (codes "run")
    then report_missing (find_missing_tools on_path run_tools)
    else ok tt

no_ssh_test :
    check_tools (λ _. false) (codes "run")
    ≡ err (record { tools = codes "ssh" ∷ []; packages = codes "openssh-client" ∷ [] })
unfolding check_tools equal
no_ssh_test = refl

status_test : check_tools (λ _. false) (codes "status") ≡ ok tt
unfolding check_tools equal
status_test = refl
