-- ===== src/Tests/Errors.antt =====
-- The theorem on errors of the configuration at a concrete input.
use tool_public_ubo.Base.{◌≡◌, refl, []}
use tool_public_ubo.Base.Result.{err}
use tool_public_ubo.Config.{default}
use tool_public_ubo.Config.Located.{IsLocated, parse_toml-IsLocated}
use tool_public_ubo.Config.Parse.{parse_toml, parse_lines, parse_line, parse_key_value}
use tool_public_ubo.Config.Value.{at_line, expected_pair}
use tool_public_ubo.Text.Compare.{Bytes, codes, cut, is_empty, has_prefix}
use tool_public_ubo.Text.Lines.{split}
use tool_public_ubo.Text.Space.{trim_space}

abbrev bad : Bytes
bad = codes "# x\n\nhost\n"

bad_refused : parse_toml bad default ≡ err (at_line 3 (expected_pair (codes "host")))
unfolding parse_toml parse_lines parse_line split trim_space is_empty has_prefix parse_key_value cut
bad_refused = refl

parse_toml-IsLocated_example :
    IsLocated 0 [] default (split b'\n' bad) (at_line 3 (expected_pair (codes "host")))
parse_toml-IsLocated_example = parse_toml-IsLocated bad default bad_refused
