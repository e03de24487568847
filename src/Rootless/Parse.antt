-- ===== src/Rootless/Parse.antt =====
-- contrib/rootless/parse.go: `parseWGConfig` and all it calls.
use tool_public_ubo.Base.{
  ◌+◌, Bool, true, ◌&&◌, ◌||◌, List, [], ◌∷◌, ◌==◌, within, if◌then◌else◌, none, some,
}
use tool_public_ubo.Base.Result.{Result, ok, err, ◌>>◌, fail_if}
use tool_public_ubo.System.Disk.{Disk, IoError, read_file}
use tool_public_ubo.Text.Compare.{Bytes, codes, is_empty, equal, cut}
use tool_public_ubo.Text.Lines.{scan_lines}
use tool_public_ubo.Text.Space.{trim_space}

pub record WgClientConfig : Type 0 where
  pub private_key : Bytes
  pub address : Bytes
  pub peer_pub_key : Bytes
  pub endpoint : Bytes
  pub allowed_ips : Bytes

abbrev pub empty_config : WgClientConfig
empty_config = record {
  private_key = [];
  address = [];
  peer_pub_key = [];
  endpoint = [];
  allowed_ips = [];
}

-- `strings.ToLower` as far as a comparison with an ASCII word can tell: beside the capitals there
-- are two characters whose lower case is ASCII, U+212A (k) and U+0130 (i).
unfoldable pub to_lower : Bytes → Bytes
to_lower [] = []
to_lower (c ∷ []) = if within b'A' b'Z' c then (c + 32) ∷ [] else c ∷ []
to_lower (c ∷ d ∷ []) =
    let rest = to_lower (d ∷ []) in
    if within b'A' b'Z' c
    then (c + 32) ∷ rest
    else if c == 0xC4 && d == 0xB0
    then b'i' ∷ []
    else c ∷ rest
to_lower (c ∷ d ∷ e ∷ s) =
    let rest = to_lower (d ∷ e ∷ s) in
    let dotted = to_lower (e ∷ s) in
    let kelvin = to_lower s in
    if within b'A' b'Z' c
    then (c + 32) ∷ rest
    else if c == 0xC4 && d == 0xB0
    then b'i' ∷ dotted
    else if c == 0xE2 && d == 0x84 && e == 0xAA
    then b'k' ∷ kelvin
    else c ∷ rest

-- `wgFieldSetters`
unfoldable pub set_field : WgClientConfig → Bytes → Bytes → WgClientConfig
set_field c key v =
    if equal key (codes "privatekey")
    then record c { private_key = v }
    else if equal key (codes "address")
    then record c { address = v }
    else if equal key (codes "publickey")
    then record c { peer_pub_key = v }
    else if equal key (codes "endpoint")
    then record c { endpoint = v }
    else if equal key (codes "allowedips")
    then record c { allowed_ips = v }
    else c

-- A line that is empty, a comment or a section.
abbrev is_skipped : Bytes → Bool
is_skipped [] = true
is_skipped (c ∷ _) = c == b'#' || c == b'['

unfoldable pub apply_wg_line : WgClientConfig → Bytes → WgClientConfig
apply_wg_line c line =
    let applied : WgClientConfig = elim (cut b'=' line) [
      | none ↦ c
      | some (k, v) ↦ set_field c (trim_space (to_lower k)) (trim_space v)
    ] in
    if is_skipped line then c else applied

unfoldable pub apply_lines : WgClientConfig → List Bytes → WgClientConfig
apply_lines c [] = c
apply_lines c (line ∷ lines) = apply_lines (apply_wg_line c (trim_space line)) lines

pub data WgError : Type 0 where
  open_error : IoError → WgError
  too_long : WgError
  missing : Bytes → WgError

unfoldable pub validate_wg_config : WgClientConfig → Result WgError (Unit {0})
validate_wg_config c = do
  fail_if (is_empty c.private_key) (missing (codes "PrivateKey"))
  fail_if (is_empty c.address) (missing (codes "Address"))
  fail_if (is_empty c.peer_pub_key) (missing (codes "PeerPubKey"))
  fail_if (is_empty c.endpoint) (missing (codes "Endpoint"))
  fail_if (is_empty c.allowed_ips) (missing (codes "AllowedIPs"))

unfoldable pub parse_text : Bytes → Result WgError WgClientConfig
parse_text s =
    let (lines, cut_short) = scan_lines s in
    let c = apply_lines empty_config lines in
    if cut_short then err too_long else (validate_wg_config c >> ok c)

unfoldable pub parse_wg_config : Bytes → Disk → Result WgError WgClientConfig
parse_wg_config path d = elim (read_file d path) [
  | err e ↦ err (open_error e)
  | ok s ↦ parse_text s
]
