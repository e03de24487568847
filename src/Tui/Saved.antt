-- ===== src/Tui/Saved.antt =====
-- What `Run` of internal/tui/tui.go does to the disk.
use mathlib.Core.Path.{subst}
use tool_public_ubo.Base.{◌≡◌, refl, sym, Option, some, inl, inr, if◌then◌else◌}
use tool_public_ubo.Base.Result.{
  Result, ok, err, map_err, Result-cases, >>=-eq-ok, >>-eq-ok, ok-injective, err-ne-ok,
}
use tool_public_ubo.Config.Atomic.{saved, IsFresh, save-Outcome, Outcome}
use tool_public_ubo.Config.Files.{Faults, SaveError, save, load}
use tool_public_ubo.Config.Validate.{validate}
use tool_public_ubo.Config.{Config, default}
use tool_public_ubo.System.Disk.{Disk, exists}
use tool_public_ubo.Text.Compare.{Bytes, equal}
use tool_public_ubo.Tui.{
  Input, TuiError, edit, edited_config, run, invalid, load_failed, save_failed,
}

-- On success the path holds a configuration that passes `Validate`, and all else is as before; on
-- an error all is as before.
pub RunOutcome : Disk → Bytes → Result TuiError (Unit {0}) → Disk → Type 0
RunOutcome d path (ok _) d' =
    (c : Config) × (validate c ≡ ok tt)
    × ((q : Bytes) → d'.files q ≡ (if equal path q then some (saved c) else d.files q))
RunOutcome d path (err _) d' = (q : Bytes) → d'.files q ≡ d.files q

validated :
    {E F : Type 0} (f : E → F) (m : Result E (Unit {0})) {u : Unit {0}}
    → map_err f m ≡ ok u
    → m ≡ ok tt
validated f (ok tt) h = refl
validated f (err e) h = err-ne-ok h

edited_config-validate :
    (input : Input) (path : Bytes) (d : Disk) {c : Config}
    → edited_config input path d ≡ ok c
    → validate c ≡ ok tt
unfolding edited_config
edited_config-validate input path d h =
    let (start, _, h1) =
      >>=-eq-ok (if exists d path then map_err load_failed (load path d) else ok default) _ h in
    let (c, _, h2) = >>=-eq-ok (edit input start) _ h1 in
    let (v, h3) = >>-eq-ok (map_err invalid (validate c)) _ h2 in
    rw (sym (ok-injective h3)) (validated invalid (validate c) v)

outcome :
    (path : Bytes) (c : Config) (d d' : Disk) (m : Result SaveError (Unit {0}))
    → validate c ≡ ok tt
    → ((q : Bytes) → Outcome c path m q (d.files q) (d'.files q))
    → RunOutcome d path (map_err save_failed m) d'
unfolding RunOutcome
outcome path c d d' (ok tt) v h = (c, v, h)
outcome path c d d' (err e) v h = h

run-err :
    (tmp : Option Bytes) (faults : Faults) (input : Input) (path : Bytes) (d : Disk) {e : TuiError}
    → edited_config input path d ≡ err e
    → run tmp faults input path d ≡ (d, err e)
unfolding run
run-err tmp faults input path d h = rw (h, run) refl

run-ok :
    (tmp : Option Bytes) (faults : Faults) (input : Input) (path : Bytes) (d : Disk) {c : Config}
    → edited_config input path d ≡ ok c
    → run tmp faults input path d
      ≡ ((save tmp faults c path d).0, map_err save_failed (save tmp faults c path d).1)
unfolding run
run-ok tmp faults input path d h = rw (h, run) refl

-- `Run` of the editor saves a configuration only if it passes `Validate`, then as a whole, and
-- touches no other file; when it returns an error, every file is as it was. The name of the
-- temporary file is new, other than the path, and open to removal.
pub run-RunOutcome :
    (tmp : Option Bytes) (faults : Faults) (input : Input) (path : Bytes) (d : Disk)
    → IsFresh d path tmp
    → RunOutcome d path (run tmp faults input path d).1 (run tmp faults input path d).0
unfolding RunOutcome
run-RunOutcome tmp faults input path d fresh = elim (Result-cases (edited_config input path d)) [
  | inl (e, h) ↦
      subst (λ r. RunOutcome d path r.1 r.0) (sym (run-err tmp faults input path d h)) (λ q. refl)
  | inr (c, h) ↦
      subst (λ r. RunOutcome d path r.1 r.0) (sym (run-ok tmp faults input path d h))
        (outcome path c d (save tmp faults c path d).0 (save tmp faults c path d).1
          (edited_config-validate input path d h) (λ q. save-Outcome tmp faults c path d q fresh))
]
