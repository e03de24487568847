-- ===== src/Config/Parse.antt =====
-- `parseTOML`, `parseLine`, `parseSectionHeader` and `parseKeyValue` of internal/config/toml.go.
-- The configuration and the current section, which the code changes through pointers, are passed on.
use tool_public_ubo.Base.{ℕ, ◌+◌, ◌||◌, not, List, [], ◌∷◌, ◌==◌, if◌then◌else◌, Option, none, some}
use tool_public_ubo.Base.Result.{Result, ok, err, ◌>>=◌, map_err}
use tool_public_ubo.Config.Schema.{assign}
use tool_public_ubo.Config.Value.{
  Error, malformed_header, expected_pair, invalid_key, at_line, TomlValue, parse_value,
}
use tool_public_ubo.Config.{Config}
use tool_public_ubo.Text.Compare.{
  Bytes, codes, is_empty, contains_any, cut, last_or, init, has_prefix,
}
use tool_public_ubo.Text.Lines.{split}
use tool_public_ubo.Text.Space.{trim_space}

-- The header `[` followed by `s`.
unfoldable pub parse_section_header : Bytes → Result Error Bytes
parse_section_header [] = err (malformed_header [])
parse_section_header (c ∷ s) =
    if not (last_or c s == b']')
    then err (malformed_header (c ∷ s))
    else let name = trim_space (init s) in
      if is_empty name || contains_any name (codes "[]")
      then err (malformed_header (c ∷ s))
      else ok name

-- The key in front of the first `=`, and the text behind it.
pair_parts : Bytes → Option (Bytes × Bytes) → Result Error (Bytes × TomlValue)
pair_parts line none = err (expected_pair line)
pair_parts line (some (left, right)) =
    let key = trim_space left in
    let value = parse_value (trim_space right) >>= λ v. ok (key, v) in
    if is_empty key || contains_any key (codes " \t\"[]#") then err (invalid_key left) else value

unfoldable pub parse_key_value : Bytes → Result Error (Bytes × TomlValue)
unfolding pair_parts
parse_key_value line = pair_parts line (cut b'=' line)

-- The section and the configuration behind one trimmed line.
unfoldable pub parse_line : Bytes → Bytes → Config → Result Error (Bytes × Config)
parse_line line section cfg =
    let header = parse_section_header line >>= λ name. ok (name, cfg) in
    let pair =
      parse_key_value line >>= λ (key, v). assign cfg section key v >>= λ c. ok (section, c) in
    if is_empty line || has_prefix line (codes "#")
    then ok (section, cfg)
    else if has_prefix line (codes "[")
    then header
    else pair

-- The loop over the lines; `i` is the index of the first one.
unfoldable pub parse_lines : ℕ → Bytes → Config → List Bytes → Result Error Config
parse_lines i section cfg [] = ok cfg
parse_lines i section cfg (raw ∷ lines) =
    map_err (at_line (i + 1)) (parse_line (trim_space raw) section cfg) >>= λ (s, c).
    parse_lines (i + 1) s c lines

unfoldable pub parse_toml : Bytes → Config → Result Error Config
unfolding parse_lines
parse_toml src cfg = parse_lines 0 [] cfg (split b'\n' src)
