-- ===== src/Remote/Pinned.antt =====
-- The pinned host key: `knownHostsHostname`, `materializePinnedKnownHosts`, `parseAuthorizedKey`,
-- `parseAuthorizedKeyLine` and `hasKnownKeyTypePrefix` of internal/remote/remote.go.
use tool_public_ubo.Base.{
  Bool, true, false, ◌||◌, not, List, [], ◌∷◌, ◌++◌, if◌then◌else◌, ◌≡◌, refl,
}
use tool_public_ubo.Base.Int.{ℤ, eq_ℕ}
use tool_public_ubo.Base.Result.{Result, ok, err}
use tool_public_ubo.System.Disk.{Disk, IoError, read_file, write_file}
use tool_public_ubo.Text.Compare.{Bytes, codes, is_empty, has_prefix}
use tool_public_ubo.Text.Decimal.{itoa}
use tool_public_ubo.Text.Lines.{scan_lines}
use tool_public_ubo.Text.Space.{trim_space, fields}

pub data KeyError : Type 0 where
  malformed_line unrecognized_type : Bytes → KeyError
  no_key : KeyError

unfoldable pub has_known_key_type_prefix : Bytes → Bool
has_known_key_type_prefix field =
    has_prefix field (codes "ssh-")
    || (has_prefix field (codes "ecdsa-") || has_prefix field (codes "sk-"))

-- The key type and the key data of the fields of a line.
unfoldable pub key_fields : Bytes → List Bytes → Result KeyError (Bytes × Bytes)
key_fields line [] = err (malformed_line line)
key_fields line (_ ∷ []) = err (malformed_line line)
key_fields line (key_type ∷ key_data ∷ _) =
    if not (has_known_key_type_prefix key_type)
    then err (unrecognized_type key_type)
    else ok (key_type, key_data)

unfoldable pub parse_authorized_key_line : Bytes → Result KeyError (Bytes × Bytes)
unfolding key_fields
parse_authorized_key_line line = key_fields line (fields line)

-- The loop over the lines that the scanner gives.
unfoldable pub first_key : List Bytes → Result KeyError (Bytes × Bytes)
first_key [] = err no_key
first_key (l ∷ ls) =
    let line = trim_space l in
    let rest = first_key ls in
    if is_empty line || has_prefix line (codes "#") then rest else parse_authorized_key_line line

unfoldable pub parse_authorized_key : Bytes → Result KeyError (Bytes × Bytes)
parse_authorized_key text = first_key (scan_lines text).0

unfoldable pub known_hosts_hostname : Bytes → ℤ → Bytes
known_hosts_hostname host port =
    if eq_ℕ port 22 then host else codes "[" ++ (host ++ (codes "]:" ++ itoa port))

pub data PinError : Type 0 where
  read_pinned : IoError → PinError
  parse_pinned : KeyError → PinError
  write_known_hosts : PinError

-- The line of the known_hosts file.
unfoldable pub known_hosts_line : Bytes → ℤ → Bytes → Bytes → Bytes
known_hosts_line host port key_type key_data =
    known_hosts_hostname host port
    ++ (codes " " ++ (key_type ++ (codes " " ++ (key_data ++ codes "\n"))))

abbrev pub known_hosts_path : Bytes → Bytes
known_hosts_path pinned = pinned ++ codes ".known_hosts"

-- What `os.WriteFile` makes of the path.
unfoldable pub pin_result : Bytes → Disk × Bool → Result PinError Bytes × Disk
pin_result path (d, true) = (ok path, d)
pin_result path (d, false) = (err write_known_hosts, d)

-- The parsed key is written.
unfoldable pub pin_key :
    Bytes → ℤ → Bytes → Disk → Result KeyError (Bytes × Bytes) → Result PinError Bytes × Disk
unfolding pin_result
pin_key host port pinned d (err e) = (err (parse_pinned e), d)
pin_key host port pinned d (ok (key_type, key_data)) =
    pin_result (known_hosts_path pinned)
      (write_file d (known_hosts_path pinned) (known_hosts_line host port key_type key_data) 0o600)

unfoldable pub pin_text :
    Bytes → ℤ → Bytes → Disk → Result IoError Bytes → Result PinError Bytes × Disk
unfolding pin_key
pin_text host port pinned d (err e) = (err (read_pinned e), d)
pin_text host port pinned d (ok text) = pin_key host port pinned d (parse_authorized_key text)

unfoldable pub materialize_pinned_known_hosts :
    Bytes → ℤ → Bytes → Disk → Result PinError Bytes × Disk
unfolding pin_text
materialize_pinned_known_hosts host port pinned d = pin_text host port pinned d (read_file d pinned)

pinned_test :
    parse_authorized_key (codes "# pinned\n\n ssh-ed25519 AAAA dropbear\n")
    ≡ ok (codes "ssh-ed25519", codes "AAAA")
unfolding parse_authorized_key first_key scan_lines trim_space fields parse_authorized_key_line
    has_prefix is_empty has_known_key_type_prefix
pinned_test = refl
