-- ===== src/Main/Usage.antt =====
-- How the command line of main.go is read.
use tool_public_ubo.Base.{◌≡◌, refl, true, false, List, [], ◌∷◌, ◌++◌}
use tool_public_ubo.Main.Command.{is_flag, fold_change, parse_subcommand}
use tool_public_ubo.Main.Dispatch.{
  Action, configure, init, status, unlock, parse_flags, classify, flag_named, dispatch,
}
use tool_public_ubo.Text.Compare.{Bytes, codes, equal, is_empty, cut}

-- The four ways to write the flag with its path.
pub data Spelling : Type 0 where
  dashes dash dashes_equals dash_equals : Spelling

unfoldable pub spelled : Spelling → Bytes → List Bytes
spelled dashes path = codes "--config" ∷ path ∷ []
spelled dash path = codes "-config" ∷ path ∷ []
spelled dashes_equals path = (codes "--config=" ++ path) ∷ []
spelled dash_equals path = (codes "-config=" ++ path) ∷ []

-- What each subcommand does with the path of the flag.
pub TakesPath : (List Bytes → List Bytes → Action) → Bytes → List Bytes → Type 0
TakesPath act path flag =
    (act (codes "configure" ∷ []) flag ≡ configure path)
    × (act (codes "init" ∷ []) flag ≡ init path)
    × (act (codes "run" ∷ []) flag ≡ Action.run path)
    × (act (codes "status" ∷ []) flag ≡ status path)
    × (act (codes "unlock" ∷ []) flag ≡ unlock path false)
    × (act (codes "unlock" ∷ codes "change" ∷ []) flag ≡ unlock path true)
    × (act [] flag ≡ Action.run path)

-- In each of the spellings `--config P`, `-config P`, `--config=P` and `-config=P`, a path that is not
-- empty is the one that `ubo configure`, `init`, `run`, `status`, `unlock` and `unlock change` work on, and
-- the one of `ubo run` without a subcommand.
pub dispatch-config :
    (s : Spelling) (path : Bytes)
    → is_empty path ≡ false
    → TakesPath (λ sub flag. dispatch (sub ++ flag)) path (spelled s path)
unfolding TakesPath spelled dispatch parse_subcommand fold_change is_flag equal is_empty parse_flags
    classify flag_named cut
dispatch-config s [] h = absurd cc
dispatch-config dashes (c ∷ p) h = (refl, refl, refl, refl, refl, refl, refl)
dispatch-config dash (c ∷ p) h = (refl, refl, refl, refl, refl, refl, refl)
dispatch-config dashes_equals (c ∷ p) h = (refl, refl, refl, refl, refl, refl, refl)
dispatch-config dash_equals (c ∷ p) h = (refl, refl, refl, refl, refl, refl, refl)

-- Without a subcommand, the flags are those of `ubo run`.
pub dispatch-run :
    (flag : Bytes) (args : List Bytes)
    → is_flag flag ≡ true
    → (dispatch [] ≡ dispatch (codes "run" ∷ []))
      × (dispatch (flag ∷ args) ≡ dispatch (codes "run" ∷ flag ∷ args))
unfolding dispatch parse_subcommand fold_change equal is_flag
dispatch-run flag args starts = (refl, rw starts refl)
