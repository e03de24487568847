-- ===== src/Tui.antt =====
-- The editor of internal/tui/tui.go: its fields, the prompt loop, and `Run`. The standard input is
-- its complete lines, the rest behind the last newline, and whether reading ends with an error
-- other than the end of the file.
pub mod Saved
use tool_public_ubo.Base.{Bool, true, false, not, List, [], ◌∷◌, none, some, Option, if◌then◌else◌}
use tool_public_ubo.Base.Int.{ℤ, pos}
use tool_public_ubo.Base.Result.{Result, ok, err, ◌>>=◌, ◌>>◌, map_err}
use tool_public_ubo.Config.{Config, default}
use tool_public_ubo.Config.Files.{Faults, SaveError, LoadError, load, save}
use tool_public_ubo.Config.Validate.{Invalid, validate}
use tool_public_ubo.System.Disk.{Disk, exists}
use tool_public_ubo.Text.Compare.{Bytes, codes, is_empty}
use tool_public_ubo.Text.Decimal.{atoi}
use tool_public_ubo.Text.Space.{trim_space}

-- A field with its setter; the getter serves the prompt alone.
pub record FieldDef : Type 0 where
  pub label : Bytes
  pub is_int : Bool
  pub set_value : Config → Bytes → Config

-- The number of an answer, which `applyAnswer` has read before.
abbrev number : Option ℤ → ℤ
number none = pos 0
number (some i) = i

abbrev text_field : Bytes → (Config → Bytes → Config) → FieldDef
text_field label set = record { label = label; is_int = false; set_value = set }

abbrev number_field : Bytes → (Config → ℤ → Config) → FieldDef
number_field label set = record {
  label = label;
  is_int = true;
  set_value = λ c v. set c (number (atoi v));
}

unfoldable pub field_defs : List FieldDef
unfolding atoi
field_defs =
    text_field (codes "Host") (λ c v. record c { host = v })
    ∷ text_field (codes "SSH User") (λ c v. record c { ssh = record c.ssh { user = v } })
    ∷ number_field (codes "SSH Port") (λ c i. record c { ssh = record c.ssh { port = i } })
    ∷ text_field (codes "SSH Key Path") (λ c v. record c { ssh = record c.ssh { key = v } })
    ∷ text_field (codes "SSH ProxyJump") (λ c v. record c { ssh = record c.ssh { proxy_jump = v } })
    ∷ number_field (codes "WireGuard Port")
        (λ c i. record c { wireguard = record c.wireguard { port = i } })
    ∷ text_field (codes "WG Server IP")
        (λ c v. record c { wireguard = record c.wireguard { server_ip = v } })
    ∷ text_field (codes "WG Client IP")
        (λ c v. record c { wireguard = record c.wireguard { client_ip = v } })
    ∷ number_field (codes "Dropbear Port") (λ c i. record c { dropbear = record { port = i } })
    ∷ text_field (codes "Output Dir") (λ c v. record c { output = record { dir = v } })
    ∷ text_field (codes "Network Interface")
        (λ c v. record c { network = record c.network { interface = v } })
    ∷ text_field (codes "Network IP") (λ c v. record c { network = record c.network { ip = v } })
    ∷ text_field (codes "LUKS Device") (λ c v. record c { luks = record { device = v } })
    ∷ []

pub record Input : Type 0 where
  pub lines : List Bytes
  pub tail : Bytes
  pub fails : Bool

abbrev is_number : Option ℤ → Bool
is_number none = false
is_number (some _) = true

-- The configuration behind an answer, `none` for a number that `Atoi` refuses.
unfoldable pub apply_answer : Config → FieldDef → Bytes → Option Config
apply_answer c fd answer =
    if fd.is_int
    then (if is_number (atoi answer) then some (fd.set_value c answer) else none)
    else some (fd.set_value c answer)

-- Whether the end of the input was reached, the configuration, and the lines that are left.
pub record Edited : Type 0 where
  pub eof : Bool
  pub config : Config
  pub lines : List Bytes

abbrev or_kept : Config → Option Config → Config
or_kept c none = c
or_kept c (some c') = c'

pub data TuiError : Type 0 where
  read_failed : TuiError
  load_failed : LoadError → TuiError
  invalid : Invalid → TuiError
  save_failed : SaveError → TuiError

-- At the end of the input a bad number keeps the value; before it the field is asked again.
unfoldable pub edit_field : Config → FieldDef → Bytes → Bool → List Bytes → Result TuiError Edited
edit_field c fd tail fails [] =
    let answered = or_kept c (apply_answer c fd (trim_space tail)) in
    if fails
    then err read_failed
    else ok (record {
      eof = true;
      config = if is_empty (trim_space tail) then c else answered;
      lines = [];
    })
edit_field c fd tail fails (line ∷ lines) =
    let again = edit_field c fd tail fails lines in
    if is_empty (trim_space line)
    then ok (record { eof = false; config = c; lines = lines })
    else elim (apply_answer c fd (trim_space line)) [
      | none ↦ again
      | some c' ↦ ok (record { eof = false; config = c'; lines = lines })
    ]

unfoldable pub edit_fields :
    List FieldDef → Bytes → Bool → List Bytes → Config → Result TuiError Config
edit_fields [] tail fails lines c = ok c
edit_fields (fd ∷ fds) tail fails lines c = do
  e ← edit_field c fd tail fails lines
  (let rest = edit_fields fds tail fails e.lines e.config in if e.eof then ok e.config else rest)

unfoldable pub edit : Input → Config → Result TuiError Config
edit input c = edit_fields field_defs input.tail input.fails input.lines c

-- The configuration that `Run` has validated when it comes to save it.
unfoldable pub edited_config : Input → Bytes → Disk → Result TuiError Config
edited_config input path d = do
  start ← (if exists d path then map_err load_failed (load path d) else ok default)
  c ← edit input start
  map_err invalid (validate c)
  ok c

-- `Run`; `tmp` and `faults` are those of `Save`.
unfoldable pub run :
    Option Bytes → Faults → Input → Bytes → Disk → Disk × Result TuiError (Unit {0})
run tmp faults input path d = elim (edited_config input path d) [
  | err e ↦ (d, err e)
  | ok c ↦ (let out = save tmp faults c path d in (out.0, map_err save_failed out.1))
]
