-- ===== src/Config/Located.antt =====
-- Which line an error of `parseTOML` of internal/config/toml.go names.
use tool_public_ubo.Base.{ℕ, ◌+◌, ◌≡◌, refl, ap, ◌∙◌, List, [], ◌∷◌, ◌++◌, length, inl, inr, arith}
use tool_public_ubo.Base.Result.{ok, err, Result-cases}
use tool_public_ubo.Config.{Config}
use tool_public_ubo.Config.Parse.{parse_line, parse_lines, parse_toml}
use tool_public_ubo.Config.Value.{Error, at_line}
use tool_public_ubo.Text.Compare.{Bytes}
use tool_public_ubo.Text.Lines.{split}
use tool_public_ubo.Text.Space.{trim_space}

-- The lines up to one are read without an error, with that one they are refused, and the error names its
-- number: it is the first line that is refused.
pub record IsLocated (i : ℕ) (section : Bytes) (c : Config) (lines : List Bytes) (e : Error)
    : Type 0 where
  pub before : List Bytes
  pub line : Bytes
  pub after : List Bytes
  pub reason : Error
  pub so_far : Config
  pub here : lines ≡ before ++ line ∷ after
  pub read : parse_lines i section c before ≡ ok so_far
  pub refused : parse_lines i section c (before ++ line ∷ []) ≡ err e
  pub named : e ≡ at_line (i + length before + 1) reason

refused_here :
    (i : ℕ) (section : Bytes) (c : Config) (raw : Bytes) (lines : List Bytes) (reason e : Error)
    → parse_line (trim_space raw) section c ≡ err reason
    → parse_lines i section c (raw ∷ lines) ≡ err e
    → IsLocated i section c (raw ∷ lines) e
unfolding parse_lines
refused_here i section c raw lines reason e h went =
    let same : err (at_line (i + 1) reason) ≡ err e = rw h at went in
    let same' : at_line (i + 1) reason ≡ e = cc in
    let number : i + 1 ≡ i + 0 + 1 = omega arith in
    let named' : e ≡ at_line (i + 0 + 1) reason = cc in
    record {
      before = [];
      line = raw;
      after = lines;
      reason = reason;
      so_far = c;
      here = refl;
      read = refl;
      refused = rw h (ap err same');
      named = named';
    }

parse_lines-IsLocated :
    (i : ℕ) (section : Bytes) (c : Config) (lines : List Bytes) {e : Error}
    → parse_lines i section c lines ≡ err e
    → IsLocated i section c lines e
unfolding parse_lines
parse_lines-IsLocated i section c [] h = absurd cc
parse_lines-IsLocated i section c (raw ∷ lines) {e = e} h =
    elim (Result-cases (parse_line (trim_space raw) section c)) [
      | inl (reason, bad) ↦ refused_here i section c raw lines reason e bad h
      | inr ((section', c'), good) ↦
          (let rest = parse_lines-IsLocated (i + 1) section' c' lines (rw good at h) in
            record {
              before = raw ∷ rest.before;
              line = rest.line;
              after = rest.after;
              reason = rest.reason;
              so_far = rest.so_far;
              here = ap (◌∷◌ raw) rest.here;
              read = rw good rest.read;
              refused = rw good rest.refused;
              named = rest.named ∙ ap (λ n. at_line n rest.reason) (omega arith);
            })
    ]

-- Every error of `parseTOML` names the first line that is refused: the lines in front of it are read
-- without an error, with that line they give this very error, and the number in the error is that of the
-- line, counted from 1.
pub parse_toml-IsLocated :
    (src : Bytes) (c : Config) {e : Error}
    → parse_toml src c ≡ err e
    → IsLocated 0 [] c (split b'\n' src) e
unfolding parse_toml
parse_toml-IsLocated src c h = parse_lines-IsLocated 0 [] c (split b'\n' src) h
