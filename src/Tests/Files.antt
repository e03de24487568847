-- ===== src/Tests/Files.antt =====
-- The theorems on files at concrete inputs.
use tool_public_ubo.Base.{
  ◌≡◌, ◌↔◌, refl, true, false, none, some, [], ◌∷◌, ◌++◌, arith, if◌then◌else◌,
}
use tool_public_ubo.Base.Result.{ok}
use tool_public_ubo.Config.Atomic.{save-Outcome, load-save, Outcome}
use tool_public_ubo.Config.Files.{load, save, fill_temp, Faults}
use tool_public_ubo.Config.Print.{quote}
use tool_public_ubo.Config.RoundTrip.Quoted.{parse_quoted-quote}
use tool_public_ubo.Config.Value.{parse_quoted}
use tool_public_ubo.Config.{Config, default}
use tool_public_ubo.Main.Artifacts.{
  status_report, require_unlock_files, unlock_files, status_report-require_unlock_files,
}
use tool_public_ubo.Main.Locate.{find_config_by_host, run_config, find_config_by_host-run_config}
use tool_public_ubo.Config.Files.{output_dir}
use tool_public_ubo.System.Disk.{Disk, write_file, exists}
use tool_public_ubo.Text.FilePath.{join}
use tool_public_ubo.Tui.{Input, edit, edit_fields, edit_field, field_defs, apply_answer, run}
use tool_public_ubo.Tui.Saved.{RunOutcome, run-RunOutcome}
use tool_public_ubo.Base.Int.{pos}
use tool_public_ubo.Text.Decimal.{atoi}
use tool_public_ubo.Text.Space.{trim_space}
use tool_public_ubo.Text.Compare.{codes, equal, is_empty}

abbrev disk : Disk
disk = record {
  files = λ p.
      if equal p (codes "ubo.toml")
      then some (record { content = codes "x"; mode = 0o600 })
      else none;
  unreadable = λ _. false;
  unwritable = λ _. false;
  leftover = λ _. none;
  fixed = λ _. false;
}

abbrev no_faults : Faults
no_faults = record { chmod = false; close = false; rename = false }

abbrev host_only : Config
host_only = record default { host = codes "h" }

fresh : disk.files (codes "t") ≡ none
unfolding equal
fresh = refl

apart : equal (codes "t") (codes "ubo.toml") ≡ false
unfolding equal
apart = refl

save-Outcome_example :
    Outcome host_only
      (codes "ubo.toml")
      (save (some (codes "t")) no_faults host_only (codes "ubo.toml") disk).1
      (codes "ubo.toml")
      (disk.files (codes "ubo.toml"))
      ((save (some (codes "t")) no_faults host_only (codes "ubo.toml") disk).0.files
        (codes "ubo.toml"))
save-Outcome_example =
    save-Outcome (some (codes "t")) no_faults host_only (codes "ubo.toml") disk (codes "ubo.toml")
      (fresh, apart, refl)

went_well : (save (some (codes "t")) no_faults host_only (codes "ubo.toml") disk).1 ≡ ok tt
unfolding save fill_temp write_file
went_well = refl

load-save_example :
    load (codes "ubo.toml") (save (some (codes "t")) no_faults host_only (codes "ubo.toml") disk).0
    ≡ ok host_only
load-save_example =
    load-save (some (codes "t")) no_faults host_only (codes "ubo.toml") disk (fresh, apart, refl)
      (omega arith) refl went_well

parse_quoted-quote_example :
    parse_quoted (quote (codes "a\"\\b") ++ codes " # c") ≡ ok (codes "a\"\\b", codes " # c")
parse_quoted-quote_example = parse_quoted-quote (codes "a\"\\b") (codes " # c")

status_report_example :
    ((status_report disk (codes "o")).0 ≡ true)
    ↔ (require_unlock_files disk (unlock_files (codes "o")) ≡ none)
status_report_example = status_report-require_unlock_files disk (codes "o")

abbrev run_disk : Disk
run_disk = record disk {
  files = λ p.
      if equal p (codes "ubo-h/ubo.toml")
      then some (record { content = []; mode = 0o644 })
      else none;
}

saved_there : exists run_disk (run_config host_only) ≡ true
unfolding exists join output_dir equal is_empty
saved_there = refl

find_config_by_host_example : find_config_by_host run_disk (codes "h") ≡ some (run_config host_only)
unfolding is_empty
find_config_by_host_example =
    find_config_by_host-run_config run_disk host_only refl (omega arith) (omega arith) (omega arith)
      saved_there

abbrev typed : Input
typed = record { lines = codes "h2" ∷ [] ∷ codes "x" ∷ codes "2200" ∷ []; tail = []; fails = false }

run_example :
    RunOutcome disk
      (codes "new.toml")
      (run (some (codes "t")) no_faults typed (codes "new.toml") disk).1
      (run (some (codes "t")) no_faults typed (codes "new.toml") disk).0
unfolding equal
run_example =
    run-RunOutcome (some (codes "t")) no_faults typed (codes "new.toml") disk (refl, refl, refl)

-- A blank line keeps the user, and a port that is no number is asked for again.
edited_test :
    edit typed default
    ≡ ok (record default { host = codes "h2"; ssh = record default.ssh { port = pos 2200 } })
unfolding edit edit_fields edit_field field_defs apply_answer atoi is_empty trim_space
edited_test = refl
