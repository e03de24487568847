-- ===== src/Main/Init.antt =====
-- `cmdInit` of main.go, and the text that it writes, `DefaultTemplate` of internal/config/config.go.
use tool_public_ubo.Base.{
  ◌∷◌, ◌++◌, if◌then◌else◌, true, false, ◌≡◌, refl, inl, inr, arith, Bool-cases,
}
use tool_public_ubo.Base.Result.{Result, ok, err}
use tool_public_ubo.Config.Files.{load, load_text}
use tool_public_ubo.Base.Int.{le_ℕ}
use tool_public_ubo.Config.Parse.{
  parse_toml, parse_lines, parse_line, parse_key_value, parse_section_header,
}
use tool_public_ubo.Config.Value.{
  parse_value, parse_string_value, parse_quoted, parse_int_value, ensure_comment_only, int_result,
  parse_bool_value, quoted_from, unescape,
}
use tool_public_ubo.Config.Schema.{
  assign, bool_field, find, int_field, schema, string_field, unknown_key_error,
}
use tool_public_ubo.Net.Cidr.{parse_cidr, contains}
use tool_public_ubo.Text.Lines.{split}
use tool_public_ubo.Text.Space.{
  trim_space, is_space, space_width, space_width_back, strip, trim_left, trim_right,
}
use tool_public_ubo.Text.Decimal.{atoi, in_range, read_ℕ}
use tool_public_ubo.Config.Validate.{
  validate, validate_host, validate_ssh, validate_port, validate_wire_guard, need_cidr,
  validate_tunnel_topology, validate_dropbear, validate_luks,
}
use tool_public_ubo.Config.{Config, default}
use tool_public_ubo.System.Disk.{Disk, exists, write_file, read_file-write_file}
use tool_public_ubo.Text.Compare.{
  Bytes, codes, is_empty, has_prefix, cut, contains_any, init, before, contains_byte, equal,
}

-- The dash is the three bytes of U+2014.
abbrev pub default_template : Bytes
default_template =
    codes "# UBO Configuration "
    ++ (0xE2 ∷ 0x80 ∷ 0x94 ∷ codes " Unlock Before Operation\n"
        ++ (codes "# Edit with: ubo configure\n"
            ++ (codes "\n"
                ++ (codes "# Remote host to configure\n"
                    ++ (codes "host = \"192.168.1.100\"\n"
                        ++ (codes "\n"
                            ++ (codes "[ssh]\n"
                                ++ (codes "user = \"root\"\n"
                                    ++ (codes "port = 22\n"
                                        ++ (codes
                                              "key        = \"\"   # path to SSH private key; empty = use agent / default keys\n"
                                            ++ (codes
                                                  "sudo       = false   # true = run remote setup via passwordless sudo (for non-root sudo-group users)\n"
                                                ++ (codes
                                                      "proxy_jump = \"\"   # SSH jump host, e.g. \"user@bastion:22\"; empty = direct connection\n"
                                                    ++ (codes "\n"
                                                        ++ (codes "[wireguard]\n"
                                                            ++ (codes "port      = 51820\n"
                                                            ++ (codes
                                                            "server_ip = \"10.42.0.1/24\"   # server WireGuard tunnel IP (CIDR)\n"
                                                            ++ (codes
                                                            "client_ip = \"10.42.0.2/32\"   # client WireGuard tunnel IP (CIDR)\n"
                                                            ++ (codes "\n"
                                                            ++ (codes "[dropbear]\n"
                                                            ++ (codes "port = 22\n"
                                                            ++ (codes "\n"
                                                            ++ (codes "[output]\n"
                                                            ++ (codes
                                                            "dir = \"\"   # empty = auto: ./ubo-<host>/\n"
                                                            ++ (codes "\n"
                                                            ++ (codes "[network]\n"
                                                            ++ (codes
                                                            "# Leave empty to auto-detect from the remote system's routing table\n"
                                                            ++ (codes "interface = \"\"\n"
                                                            ++ (codes
                                                            "ip        = \"\"   # static IP/CIDR for initramfs (e.g. \"192.168.1.100/24\")\n"
                                                            ++ (codes "\n"
                                                            ++ (codes "[luks]\n"
                                                            ++ (codes
                                                            "device = \"\"   # LUKS block device (e.g. \"/dev/sda3\"); auto-detected from /etc/crypttab if empty\n")))))))))))))))))))))))))))))))

pub data InitError : Type 0 where
  already_exists not_written : InitError

unfoldable pub cmd_init : Bytes → Disk → Disk × Result InitError (Unit {0})
cmd_init path d =
    let (d', went) = write_file d path default_template 0o644 in
    if exists d path
    then (d, err already_exists)
    else (d', (if went then ok tt else err not_written))

-- The configuration of the template: the default one, with an example of a host.
abbrev pub first_config : Config
first_config = record default { host = codes "192.168.1.100" }

template_read : parse_toml default_template default ≡ ok first_config
unfolding parse_toml parse_lines parse_line split is_empty trim_space has_prefix parse_key_value cut
    contains_any parse_value parse_string_value parse_quoted assign parse_section_header init
    parse_int_value before atoi in_range read_ℕ bool_field find int_field schema string_field
    unknown_key_error ensure_comment_only int_result parse_bool_value quoted_from unescape
    contains_byte equal is_space space_width space_width_back strip trim_left trim_right
template_read = refl

first_valid : validate first_config ≡ ok tt
unfolding validate validate_host is_empty validate_ssh validate_port le_ℕ validate_wire_guard
    need_cidr parse_cidr validate_tunnel_topology contains validate_dropbear validate_luks
first_valid = refl

-- What `ubo init` leaves behind: a file that was there stays, and a new one is a configuration that
-- loads and validates.
pub data InitOutcome (path : Bytes) (d : Disk) : Disk × Result InitError (Unit {0}) → Type 0 where
  kept : exists d path ≡ true → InitOutcome path d (d, err already_exists)
  failed : {d' : Disk} → d.unwritable path ≡ true → InitOutcome path d (d', err not_written)
  made :
      {d' : Disk}
      → exists d path ≡ false
      → load path d' ≡ ok first_config
      → validate first_config ≡ ok tt
      → InitOutcome path d (d', ok tt)

written_loads :
    (path : Bytes) (d : Disk)
    → d.unwritable path ≡ false
    → d.unreadable path ≡ false
    → load path (write_file d path default_template 0o644).0 ≡ ok first_config
unfolding load load_text
written_loads path d w r =
    rw (read_file-write_file d path default_template 0o644 w r, template_read) refl

-- For a path that can be read, `ubo init` never changes a file that is there; when it succeeds, the
-- new file loads as the default configuration with an example of a host, which is valid.
pub cmd_init-InitOutcome :
    (path : Bytes) (d : Disk) → d.unreadable path ≡ false → InitOutcome path d (cmd_init path d)
unfolding cmd_init
cmd_init-InitOutcome path d r = elim (Bool-cases (exists d path)) [
  | inl there ↦ rw there (kept there)
  | inr absent ↦ elim (Bool-cases (d.unwritable path)) [
    | inl bad ↦
        (let went : (write_file d path default_template 0o644).1 ≡ false =
            unfold write_file in ground arith in
          rw (absent, went) (failed bad))
    | inr good ↦
        (let went : (write_file d path default_template 0o644).1 ≡ true =
            unfold write_file in ground arith in
          rw (absent, went) (made absent (written_loads path d good r) first_valid))
  ]
]
