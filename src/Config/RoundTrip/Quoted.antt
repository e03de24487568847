-- ===== src/Config/RoundTrip/Quoted.antt =====
-- Values: a quoted string, an integer and a Boolean are read back by `parseValue`.
use tool_public_ubo.Base.{
  ℕ, ◌≤◌, ◌≡◌, ◌≢◌, refl, ap, ◌∙◌, Bool, true, false, [], ◌∷◌, ◌++◌, append-nil, append_assoc, ◌==◌,
  arith, Bool-cases, inl, inr, All, All-map, All-append, Lacks, ==_iff, suc,
}
use tool_public_ubo.Base.Int.{ℤ, pos, negsuc, IsInt}
use tool_public_ubo.Base.Result.{ok}
use tool_public_ubo.Config.Print.{escape, quote, show_bool}
use tool_public_ubo.Config.Value.{
  TomlValue, quoted_from, parse_quoted, parse_value, parse_string_value, parse_int_value,
  parse_bool_value, string_value, int_value, bool_value, ensure_comment_only,
}
use tool_public_ubo.Text.Compare.{
  Bytes, is_empty, not-is_empty, equal, before, before-Lacks, last_or, last_or-append,
}
use tool_public_ubo.Text.Decimal.{itoa, atoi-itoa, show_ℕ, show_ℕ-IsDigit, show_ℕ-ne-nil}
use tool_public_ubo.Text.Space.{trim_space, trim_space-All, All-last, IsGraphic}

plain_step :
    (out : Bytes) (c : ℕ) (s : Bytes)
    → (c == b'\\') ≡ false
    → (c == b'"') ≡ false
    → quoted_from out (c ∷ s) ≡ quoted_from (out ++ c ∷ []) s
unfolding quoted_from
plain_step out c [] p q = rw (p, q)
plain_step out c (d ∷ s) p q = rw (p, q)

backslash_step :
    (out s : Bytes) → quoted_from out (b'\\' ∷ b'\\' ∷ s) ≡ quoted_from (out ++ b'\\' ∷ []) s
unfolding quoted_from
backslash_step out s = refl

quote_step : (out s : Bytes) → quoted_from out (b'\\' ∷ b'"' ∷ s) ≡ quoted_from (out ++ b'"' ∷ []) s
unfolding quoted_from
quote_step out s = refl

close_step : (out s : Bytes) → quoted_from out (b'"' ∷ s) ≡ ok (out, s)
unfolding quoted_from
close_step out [] = refl
close_step out (d ∷ s) = refl

quoted_from-byte :
    (c : ℕ) (s out rest : Bytes)
    → quoted_from out (escape (c ∷ s) ++ rest) ≡ quoted_from (out ++ c ∷ []) (escape s ++ rest)
unfolding escape
quoted_from-byte c s out rest = elim (Bool-cases (c == b'\\')) [
  | inl p ↦ rw ((==_iff c b'\\').0 p) (backslash_step out _)
  | inr p ↦ elim (Bool-cases (c == b'"')) [
    | inl q ↦ rw ((==_iff c b'"').0 q) (quote_step out _)
    | inr q ↦ rw (p, q) (plain_step out c _ p q)
  ]
]

quoted_from-escape :
    (s out rest : Bytes) → quoted_from out (escape s ++ b'"' ∷ rest) ≡ ok (out ++ s, rest)
quoted_from-escape [] out rest = unfold escape in (close_step out rest ∙ rw append-nil)
quoted_from-escape (c ∷ s) out rest =
    quoted_from-byte c s out (b'"' ∷ rest)
    ∙ quoted_from-escape s (out ++ c ∷ []) rest
    ∙ rw append_assoc

-- Any text is read back from its quoted form, whatever follows the closing quote.
pub parse_quoted-quote : (s rest : Bytes) → parse_quoted (quote s ++ rest) ≡ ok (s, rest)
unfolding parse_quoted quote
parse_quoted-quote s rest =
    ap (quoted_from []) (append_assoc (escape s) (b'"' ∷ []) rest) ∙ quoted_from-escape s [] rest

parse_string_value-quote : (s : Bytes) → parse_string_value (quote s) ≡ ok (string_value s)
unfolding parse_string_value
parse_string_value-quote s =
    rw (← append-nil (quote s))
      (rw (parse_quoted-quote s []) (unfold ensure_comment_only trim_space is_empty in refl))

pub parse_value-quote : (s : Bytes) → parse_value (quote s) ≡ ok (string_value s)
parse_value-quote s = unfold parse_value quote in parse_string_value-quote s

-- '-' and the digits
abbrev IsNumeral : ℕ → Type 0
IsNumeral c = (b'-' ≤ c) × (c ≤ b'9')

itoa-IsNumeral : (i : ℤ) → All IsNumeral (itoa i)
unfolding itoa
itoa-IsNumeral (pos n) = All-map (λ c h. omega arith) (show_ℕ n) (show_ℕ-IsDigit n)
itoa-IsNumeral (negsuc n) =
    (omega arith, All-map (λ c h. omega arith) (show_ℕ (suc n)) (show_ℕ-IsDigit (suc n)))

itoa-ne-nil : (i : ℤ) → itoa i ≢ []
unfolding itoa
itoa-ne-nil (pos n) = show_ℕ-ne-nil n
itoa-ne-nil (negsuc n) = cc

pub itoa-IsGraphic : (i : ℤ) → All IsGraphic (itoa i)
itoa-IsGraphic i = All-map (λ c h. omega arith) (itoa i) (itoa-IsNumeral i)

numeral_value : (s : Bytes) → All IsNumeral s → s ≢ [] → parse_value s ≡ parse_int_value s
unfolding parse_value
numeral_value [] h ne = absurd (ne refl)
numeral_value (c ∷ s) h ne = let low = h.0.1 in ground arith

token : (s : Bytes) → All IsNumeral s → trim_space (before b'#' s) ≡ s
token s h =
    rw (before-Lacks b'#' s (All-map (λ c k. omega arith) s h))
      (trim_space-All s (All-map (λ c k. omega arith) s h))

pub parse_value-itoa : (i : ℤ) → IsInt i → parse_value (itoa i) ≡ ok (int_value i)
parse_value-itoa i h =
    numeral_value (itoa i) (itoa-IsNumeral i) (itoa-ne-nil i)
    ∙ unfold parse_int_value in
      rw (token (itoa i) (itoa-IsNumeral i), not-is_empty _ (itoa-ne-nil i), atoi-itoa i h)

pub parse_value-bool : (b : Bool) → parse_value (show_bool b) ≡ ok (bool_value b)
unfolding parse_value parse_bool_value before trim_space equal
parse_value-bool true = refl
parse_value-bool false = refl

-- A graphic character at both ends.
abbrev pub HasEnds : Bytes → Type 0
HasEnds [] = ⊥
HasEnds (a ∷ s) = IsGraphic a × IsGraphic (last_or a s)

-- The text is printed on one line, and is read back as the value.
pub record Prints (text : Bytes) (v : TomlValue) : Type 0 where
  pub ends : HasEnds text
  pub one_line : Lacks b'\n' text
  pub reads : parse_value text ≡ ok v

escape-Lacks : (s : Bytes) → Lacks b'\n' s → Lacks b'\n' (escape s)
unfolding escape
escape-Lacks [] h = tt
escape-Lacks (c ∷ s) h = ground (arith, escape-Lacks s h.1)

pub quote-Prints : (s : Bytes) → Lacks b'\n' s → Prints (quote s) (string_value s)
quote-Prints s h = record {
  ends = unfold quote in (omega arith, rw last_or-append (omega arith));
  one_line =
      unfold quote in
      (omega arith, All-append _ (escape s) (b'"' ∷ []) (escape-Lacks s h) (omega arith, tt));
  reads = parse_value-quote s;
}

All-HasEnds : (s : Bytes) → All IsGraphic s → s ≢ [] → HasEnds s
All-HasEnds [] h ne = absurd (ne refl)
All-HasEnds (c ∷ s) h ne = (h.0, All-last c s h.0 h.1)

pub itoa-Prints : (i : ℤ) → IsInt i → Prints (itoa i) (int_value i)
itoa-Prints i h = record {
  ends = All-HasEnds (itoa i) (itoa-IsGraphic i) (itoa-ne-nil i);
  one_line = All-map (λ c k. omega arith) (itoa i) (itoa-IsGraphic i);
  reads = parse_value-itoa i h;
}

pub bool-Prints : (b : Bool) → Prints (show_bool b) (bool_value b)
bool-Prints true = record {
  ends = omega arith;
  one_line = omega arith;
  reads = parse_value-bool true;
}
bool-Prints false = record {
  ends = omega arith;
  one_line = omega arith;
  reads = parse_value-bool false;
}
