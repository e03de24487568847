-- ===== src/Main/Select.antt =====
-- `resolveUnlockConfig`, `pickUnlockConfig` and `promptSelectConfig` of main.go. The matches of the
-- pattern and the line that is read are arguments.
use mathlib.Core.Path.{subst}
use tool_public_ubo.Base.{
  ℕ, zero, suc, ◌<◌, Bool, not, leb, true, false, ◌||◌, List, [], ◌∷◌, ◌==◌, if◌then◌else◌, Option,
  none, some, ◌≡◌, ◌≢◌, refl, sym, arith, length, get_elem?, inl, inr, Bool-cases,
}
use tool_public_ubo.Base.Int.{ℤ, pos, negsuc, le_ℕ}
use tool_public_ubo.Base.Result.{Result, ok, err}
use tool_public_ubo.Main.Locate.{find_config_by_host}
use tool_public_ubo.Setup.Inet.{digit_run}
use tool_public_ubo.System.Disk.{Disk}
use tool_public_ubo.Text.Compare.{Bytes, codes}
use tool_public_ubo.Text.Decimal.{in_range, read_ℕ}
use tool_public_ubo.Text.Space.{trim_space}

-- `panics` is an index out of range.
pub data SelectError : Type 0 where
  no_directory : Bytes → SelectError
  none_found read_failed panics : SelectError
  invalid_selection : Bytes → SelectError

-- The digits in front; what follows them is not looked at.
scan_number : Bool → Bytes → Option ℤ
unfolding digit_run in_range read_ℕ
scan_number negative s = in_range negative (read_ℕ ((digit_run s).0))

-- `Sscanf` with `%d` on a text without white space in front.
unfoldable pub scan_int : Bytes → Option ℤ
unfolding scan_number
scan_int [] = none
scan_int (c ∷ s) =
    if c == b'-'
    then scan_number true s
    else if c == b'+'
    then scan_number false s
    else scan_number false (c ∷ s)

abbrev or_one : Bytes → Bytes
or_one [] = codes "1"
or_one (c ∷ s) = c ∷ s

-- `idx - 1` on signed numbers.
abbrev pub pred : ℤ → ℤ
pred (pos zero) = negsuc 0
pred (pos (suc n)) = pos n
pred (negsuc n) = negsuc (suc n)

-- `configs[i]`, which panics at a negative index and behind the end.
unfoldable pub at_index : List Bytes → ℤ → Result SelectError Bytes
at_index configs (negsuc n) = err panics
at_index configs (pos i) = elim (get_elem? configs i) [ none ↦ err panics | some p ↦ ok p ]

-- `configs[idx-1]` behind the check of the range; idx < 1 is idx <= 0.
unfoldable pub choose : List Bytes → Bytes → Option ℤ → Result SelectError Bytes
unfolding at_index
choose configs s none = err (invalid_selection s)
choose configs s (some idx) =
    if le_ℕ idx 0 || not (le_ℕ idx (length configs))
    then err (invalid_selection s)
    else at_index configs (pred idx)

-- `none` is a read that fails.
unfoldable pub prompt_select_config : List Bytes → Option Bytes → Result SelectError Bytes
prompt_select_config configs none = err read_failed
prompt_select_config configs (some line) =
    let s = or_one (trim_space line) in choose configs s (scan_int s)

unfoldable pub pick_unlock_config : List Bytes → Option Bytes → Result SelectError Bytes
pick_unlock_config [] line = err none_found
pick_unlock_config (p ∷ []) line = ok p
pick_unlock_config (p ∷ q ∷ ps) line = prompt_select_config (p ∷ q ∷ ps) line

found_or : Bytes → Option Bytes → Result SelectError Bytes
found_or host none = err (no_directory host)
found_or host (some p) = ok p

unfoldable pub resolve_unlock_config :
    Disk → List Bytes → List Bytes → Option Bytes → Result SelectError Bytes
unfolding found_or
resolve_unlock_config d [] matches line = pick_unlock_config matches line
resolve_unlock_config d (host ∷ args) matches line = found_or host (find_config_by_host d host)

get_elem?-bound :
    (xs : List Bytes) (i : ℕ) → i < length xs → (x : Bytes) × (get_elem? xs i ≡ some x)
get_elem?-bound [] i h = absurd (omega arith)
get_elem?-bound (x ∷ xs) zero h = (x, refl)
get_elem?-bound (x ∷ xs) (suc i) h = get_elem?-bound xs i (omega arith)

-- What comes out of a choice: one of the paths, or an error that is no panic.
pub IsChoice : List Bytes → Result SelectError Bytes → Type 0
IsChoice configs (ok p) = (i : ℕ) × (i < length configs) × (get_elem? configs i ≡ some p)
IsChoice configs (err e) = e ≢ panics

at_index-ok :
    (xs : List Bytes) (i : ℕ) {x : Bytes} → get_elem? xs i ≡ some x → at_index xs (pos i) ≡ ok x
unfolding at_index
at_index-ok xs i h = rw (h, at_index) refl

at_index-IsChoice : (xs : List Bytes) (i : ℕ) → i < length xs → IsChoice xs (at_index xs (pos i))
unfolding IsChoice
at_index-IsChoice xs i lt =
    let (x, h) = get_elem?-bound xs i lt in
    subst (IsChoice xs) (sym (at_index-ok xs i h)) (i, lt, h)

choose-IsChoice :
    (configs : List Bytes) (s : Bytes) (o : Option ℤ) → IsChoice configs (choose configs s o)
unfolding choose IsChoice le_ℕ
choose-IsChoice configs s none = cc
choose-IsChoice configs s (some (negsuc n)) = cc
choose-IsChoice configs s (some (pos zero)) = cc
choose-IsChoice configs s (some (pos (suc n))) =
    elim (Bool-cases (leb (suc n) 0 || not (leb (suc n) (length configs)))) [
      | inl e ↦ rw e cc
      | inr e ↦ rw e (at_index-IsChoice configs n (ground arith))
    ]

-- Whatever is typed, the selection of a configuration never indexes out of range: it ends in an
-- error, or in one of the paths that the pattern matched.
pub pick_unlock_config-IsChoice :
    (configs : List Bytes) (line : Option Bytes)
    → IsChoice configs (pick_unlock_config configs line)
unfolding pick_unlock_config prompt_select_config IsChoice
pick_unlock_config-IsChoice [] line = cc
pick_unlock_config-IsChoice (p ∷ []) line = (0, omega arith, refl)
pick_unlock_config-IsChoice (p ∷ q ∷ ps) none = cc
pick_unlock_config-IsChoice (p ∷ q ∷ ps) (some line) = choose-IsChoice (p ∷ q ∷ ps) _ _
