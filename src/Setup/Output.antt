-- ===== src/Setup/Output.antt =====
-- Which line of its output the set-up script answers with, for `parseSetupResult` of internal/setup/setup.go.
use tool_public_ubo.Base.{
  ◌≡◌, refl, ap, ◌∙◌, if◌then◌else◌, Bool, true, false, List, [], ◌∷◌, ◌++◌, Option, All,
}
use tool_public_ubo.Setup.Configure.{json_line, key_of, parse_setup_result}
use tool_public_ubo.Text.Compare.{Bytes, codes, is_empty, has_prefix}
use tool_public_ubo.Text.Lines.{split}
use tool_public_ubo.Text.Space.{trim_space}

abbrev pub starts_json : Bytes → Bool
starts_json line = has_prefix (trim_space line) (codes "{")

json_line-kept :
    (found : Bytes) (lines : List Bytes)
    → All (λ l. starts_json l ≡ false) lines
    → json_line found lines ≡ found
unfolding json_line
json_line-kept found [] h = refl
json_line-kept found (l ∷ lines) (no', h) = rw no' (json_line-kept found lines h)

json_line-last :
    (before : List Bytes) (found line : Bytes) (after : List Bytes)
    → starts_json line ≡ true
    → All (λ l. starts_json l ≡ false) after
    → json_line found (before ++ line ∷ after) ≡ trim_space line
unfolding json_line
json_line-last [] found line after yes' h =
    let taken : (if starts_json line then trim_space line else found) ≡ trim_space line =
      rw yes' refl in
    ap (λ f. json_line f after) taken ∙ json_line-kept (trim_space line) after h
json_line-last (l ∷ before) found line after yes' h =
    json_line-last before (if starts_json l then trim_space l else found) line after yes' h

starts-is_empty : (s : Bytes) → has_prefix s (codes "{") ≡ true → is_empty s ≡ false
unfolding has_prefix is_empty
starts-is_empty [] h = cc
starts-is_empty (c ∷ s) h = refl

-- `parseSetupResult` decodes the last line of the output that begins with a brace, whatever lines of
-- progress are in front of it and behind it.
pub parse_setup_result-last :
    (unmarshal : Bytes → Option Bytes) (out line : Bytes) (before after : List Bytes)
    → split b'\n' out ≡ before ++ line ∷ after
    → starts_json line ≡ true
    → All (λ l. starts_json l ≡ false) after
    → parse_setup_result unmarshal out ≡ key_of (unmarshal (trim_space line))
unfolding parse_setup_result
parse_setup_result-last unmarshal out line before after lines starts rest =
    rw
      (
        lines,
        json_line-last before [] line after starts rest,
        starts-is_empty (trim_space line) starts,
      )
      refl
