-- ===== src/Main/Command.antt =====
-- `parseSubcommand`, `isFlag`, `isHelpSubcommand`, `orDefault` and `wgEndpoint` of main.go.
use tool_public_ubo.Base.{Bool, false, ◌&&◌, ◌||◌, not, List, [], ◌∷◌, ◌++◌, ◌==◌, if◌then◌else◌}
use tool_public_ubo.Base.Int.{ℤ}
use tool_public_ubo.Text.Compare.{Bytes, codes, equal, is_empty, contains_byte}
use tool_public_ubo.Text.Decimal.{itoa}

unfoldable pub is_flag : Bytes → Bool
is_flag [] = false
is_flag (c ∷ _) = c == b'-'

unfoldable pub is_help_subcommand : Bytes → Bool
is_help_subcommand sub =
    equal sub (codes "help") || (equal sub (codes "--help") || equal sub (codes "-h"))

-- The two words "unlock change" are one subcommand.
unfoldable pub fold_change : Bytes → List Bytes → Bytes × List Bytes
fold_change sub [] = (sub, [])
fold_change sub (a ∷ args) =
    if equal sub (codes "unlock") && equal a (codes "change")
    then (codes "unlock-change", args)
    else (sub, a ∷ args)

unfoldable pub parse_subcommand : List Bytes → Bytes × List Bytes
unfolding fold_change is_flag
parse_subcommand [] = (codes "run", [])
parse_subcommand (a ∷ args) =
    if not (is_flag a) then fold_change a args else (codes "run", a ∷ args)

unfoldable pub or_default : Bytes → Bytes → Bytes
or_default s def = if is_empty s then def else s

unfoldable pub wg_endpoint : Bytes → ℤ → Bytes
wg_endpoint host port =
    if contains_byte b':' host
    then codes "[" ++ (host ++ (codes "]:" ++ itoa port))
    else host ++ (codes ":" ++ itoa port)
