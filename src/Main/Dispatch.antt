-- ===== src/Main/Dispatch.antt =====
-- `dispatch` and `subcommands` of main.go, over the package flag as it treats a set with the one flag
-- `config`. What a subcommand does is named here and modelled in the other files.
use tool_public_ubo.Base.{
  ◌≡◌, refl, Bool, true, false, ◌||◌, not, List, [], ◌∷◌, ◌==◌, if◌then◌else◌, Option, none, some,
}
use tool_public_ubo.Base.Result.{Result, ok, err}
use tool_public_ubo.Main.Command.{is_help_subcommand, parse_subcommand, or_default}
use tool_public_ubo.Text.Compare.{Bytes, codes, equal, is_empty, cut}

-- What an argument is for the package flag; a flag has its name and the value behind an equals sign.
pub data Argument : Type 0 where
  positional terminator malformed : Argument
  named : Bytes → Option Bytes → Argument

pub data FlagError : Type 0 where
  help_asked : FlagError
  bad_syntax not_defined needs_argument : Bytes → FlagError

-- The name in front of the first equals sign, which is not the first character.
unfoldable pub flag_named : Bytes → Argument
unfolding cut
flag_named [] = malformed
flag_named (c ∷ s) =
    if c == b'-' || c == b'='
    then malformed
    else elim (cut b'=' s) [ none ↦ named (c ∷ s) none | some (l, r) ↦ named (c ∷ l) (some r) ]

unfoldable pub classify : Bytes → Argument
unfolding flag_named
classify [] = positional
classify (c ∷ []) = positional
classify (c ∷ d ∷ s) =
    if not (c == b'-')
    then positional
    else if not (d == b'-')
    then flag_named (d ∷ s)
    else if is_empty s
    then terminator
    else flag_named s

unknown_flag : Bytes → FlagError
unknown_flag name =
    if equal name (codes "help") || equal name (codes "h") then help_asked else not_defined name

-- `FlagSet.Parse`: the value of `config`, and the arguments behind the flags.
unfoldable pub parse_flags : Bytes → List Bytes → Result FlagError (Bytes × List Bytes)
unfolding classify unknown_flag
parse_flags v [] = ok (v, [])
parse_flags v (a ∷ []) = elim (classify a) [
  | positional ↦ ok (v, a ∷ [])
  | terminator ↦ ok (v, [])
  | malformed ↦ err (bad_syntax a)
  | named name none ↦
      (if equal name (codes "config") then err (needs_argument name) else err (unknown_flag name))
  | named name (some w) ↦
      (if equal name (codes "config") then ok (w, []) else err (unknown_flag name))
]
parse_flags v (a ∷ b ∷ args) = elim (classify a) [
  | positional ↦ ok (v, a ∷ b ∷ args)
  | terminator ↦ ok (v, b ∷ args)
  | malformed ↦ err (bad_syntax a)
  | named name none ↦
      (let rest = parse_flags b args in
        if equal name (codes "config") then rest else err (unknown_flag name))
  | named name (some w) ↦
      (let rest = parse_flags w (b ∷ args) in
        if equal name (codes "config") then rest else err (unknown_flag name))
]

-- What a command line asks for; `host` is the arguments of an unlocking without a path.
pub data Action : Type 0 where
  show_help : Action
  refused : FlagError → Action
  unknown_subcommand : Bytes → Action
  configure init run status : Bytes → Action
  unlock : Bytes → Bool → Action
  unlock_host : List Bytes → Bool → Action

unlock_action : Bytes → List Bytes → Bool → Action
unlock_action path args change =
    if is_empty path then unlock_host args change else unlock path change

-- `subcommands`
unfoldable pub subcommand : Bytes → Bytes → List Bytes → Action
unfolding or_default unlock_action
subcommand sub path args =
    if equal sub (codes "configure")
    then configure (or_default path (codes "ubo.toml"))
    else if equal sub (codes "init")
    then init (or_default path (codes "ubo.toml"))
    else if equal sub (codes "run")
    then run path
    else if equal sub (codes "status")
    then status (or_default path (codes "ubo.toml"))
    else if equal sub (codes "unlock")
    then unlock_action path args false
    else if equal sub (codes "unlock-change")
    then unlock_action path args true
    else unknown_subcommand sub

unfoldable pub with_flags : Bytes → Result FlagError (Bytes × List Bytes) → Action
unfolding subcommand
with_flags sub (err help_asked) = show_help
with_flags sub (err e) = refused e
with_flags sub (ok (path, args)) = subcommand sub path args

unfoldable pub dispatch : List Bytes → Action
unfolding parse_subcommand is_help_subcommand parse_flags with_flags
dispatch args =
    let (sub, rest) = parse_subcommand args in
    if is_help_subcommand sub then show_help else with_flags sub (parse_flags [] rest)

help_test : dispatch (codes "--help" ∷ []) ≡ show_help
unfolding dispatch equal is_empty
help_test = refl

unlock_test :
    dispatch (codes "unlock" ∷ codes "change" ∷ codes "-config=a=b" ∷ codes "h" ∷ [])
    ≡ unlock (codes "a=b") true
unfolding dispatch equal is_empty
unlock_test = refl
