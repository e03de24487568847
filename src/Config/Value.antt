-- ===== src/Config/Value.antt =====
-- The values of internal/config/toml.go: `tomlValue`, `parseValue` and what it calls.
use tool_public_ubo.Base.{
  ℕ, Bool, true, false, ◌||◌, [], ◌∷◌, ◌++◌, ◌==◌, if◌then◌else◌, Option, none, some,
}
use tool_public_ubo.Base.Int.{ℤ, pos}
use tool_public_ubo.Base.Result.{Result, ok, err, ◌>>=◌, ◌>>◌}
use tool_public_ubo.Text.Compare.{Bytes, codes, equal, is_empty, has_prefix, before}
use tool_public_ubo.Text.Decimal.{atoi}
use tool_public_ubo.Text.Space.{trim_space}

-- The errors of the package, a constructor for each message.
pub data Error : Type 0 where
  malformed_header : Bytes → Error
  expected_pair : Bytes → Error
  invalid_key : Bytes → Error
  missing_value : Error
  invalid_bool : Bytes → Error
  invalid_int : Bytes → Error
  unterminated_string : Error
  invalid_escape : ℕ → Error
  trailing_text : Bytes → Error
  expects_string expects_integer expects_boolean : Bytes → Bytes → Error
  unknown_section : Bytes → Error
  unknown_key : Bytes → Error
  unknown_key_in : Bytes → Bytes → Error
  at_line : ℕ → Error → Error

pub record TomlValue : Type 0 where
  pub is_int : Bool
  pub is_bool : Bool
  pub str : Bytes
  pub i : ℤ
  pub b : Bool

abbrev pub string_value : Bytes → TomlValue
string_value s = record { is_int = false; is_bool = false; str = s; i = pos 0; b = false }

abbrev pub int_value : ℤ → TomlValue
int_value n = record { is_int = true; is_bool = false; str = []; i = n; b = false }

abbrev pub bool_value : Bool → TomlValue
bool_value x = record { is_int = false; is_bool = true; str = []; i = pos 0; b = x }

-- `unescape(s, i)` on the text behind the backslash.
unfoldable pub unescape : Bytes → Result Error ℕ
unescape [] = err unterminated_string
unescape (d ∷ _) =
    if d == b'"' then ok b'"' else if d == b'\\' then ok b'\\' else err (invalid_escape d)

-- The loop of `parseQuoted`: `out` is the builder, the text is `s[i:]`.
unfoldable pub quoted_from : Bytes → Bytes → Result Error (Bytes × Bytes)
unfolding unescape
quoted_from out [] = err unterminated_string
quoted_from out (c ∷ []) =
    if c == b'\\'
    then (unescape [] >>= λ _. err unterminated_string)
    else if c == b'"'
    then ok (out, [])
    else err unterminated_string
quoted_from out (c ∷ d ∷ s) =
    let escaped = unescape (d ∷ s) >>= λ e. quoted_from (out ++ e ∷ []) s in
    let plain = quoted_from (out ++ c ∷ []) (d ∷ s) in
    if c == b'\\' then escaped else if c == b'"' then ok (out, d ∷ s) else plain

-- `parseQuoted`, for a text that begins with a double quote.
unfoldable pub parse_quoted : Bytes → Result Error (Bytes × Bytes)
unfolding quoted_from
parse_quoted [] = err unterminated_string
parse_quoted (_ ∷ s) = quoted_from [] s

unfoldable pub ensure_comment_only : Bytes → Result Error (Unit {0})
ensure_comment_only rest =
    let trimmed = trim_space rest in
    if is_empty trimmed
    then ok tt
    else if has_prefix trimmed (codes "#")
    then ok tt
    else err (trailing_text trimmed)

unfoldable pub parse_string_value : Bytes → Result Error TomlValue
unfolding ensure_comment_only
parse_string_value s = do
  (str, rest) ← parse_quoted s
  ensure_comment_only rest
  ok (string_value str)

unfoldable pub parse_bool_value : Bytes → Result Error TomlValue
parse_bool_value s =
    let tok = trim_space (before b'#' s) in
    if equal tok (codes "true")
    then ok (bool_value true)
    else if equal tok (codes "false")
    then ok (bool_value false)
    else err (invalid_bool tok)

-- What `parseIntValue` makes of the result of `Atoi`.
unfoldable pub int_result : Bytes → Option ℤ → Result Error TomlValue
int_result tok none = err (invalid_int tok)
int_result tok (some n) = ok (int_value n)

unfoldable pub parse_int_value : Bytes → Result Error TomlValue
unfolding int_result
parse_int_value s =
    let tok = trim_space (before b'#' s) in
    if is_empty tok then err missing_value else int_result tok (atoi tok)

unfoldable pub parse_value : Bytes → Result Error TomlValue
parse_value [] = err missing_value
parse_value (c ∷ s) =
    if c == b'"'
    then parse_string_value (c ∷ s)
    else if c == b't' || c == b'f'
    then parse_bool_value (c ∷ s)
    else parse_int_value (c ∷ s)
