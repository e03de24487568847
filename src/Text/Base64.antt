-- ===== src/Text/Base64.antt =====
-- `base64.StdEncoding` and `hex.EncodeToString`.
use tool_public_ubo.Base.{
  ℕ, ◌+◌, ◌-◌, ◌*◌, ◌/◌, ◌%◌, ◌<◌, true, false, ◌||◌, [], ◌∷◌, ltb, ◌==◌, within, if◌then◌else◌,
  Option, none, some, ◌≡◌, refl, ap, arith, All,
}
use tool_public_ubo.Net.Address.{◌>>=◌}
use tool_public_ubo.Text.Compare.{Bytes, is_empty}

-- The character for six bits, and the six bits of a character.
unfoldable pub b64_char : ℕ → ℕ
b64_char n =
    if ltb n 26
    then n + 65
    else if ltb n 52
    then n + 71
    else if ltb n 62
    then n - 4
    else if n == 62
    then b'+'
    else b'/'

unfoldable pub b64_value : ℕ → Option ℕ
b64_value c =
    if within b'A' b'Z' c
    then some (c - 65)
    else if within b'a' b'z' c
    then some (c - 71)
    else if within b'0' b'9' c
    then some (c + 4)
    else if c == b'+'
    then some 62
    else if c == b'/'
    then some 63
    else none

-- `EncodeToString`
unfoldable pub encode : Bytes → Bytes
unfolding b64_char
encode [] = []
encode (a ∷ []) = b64_char (a / 4) ∷ b64_char (a % 4 * 16) ∷ b'=' ∷ b'=' ∷ []
encode (a ∷ b ∷ []) =
    b64_char (a / 4) ∷ b64_char (a % 4 * 16 + b / 16) ∷ b64_char (b % 16 * 4) ∷ b'=' ∷ []
encode (a ∷ b ∷ c ∷ s) =
    b64_char (a / 4)
    ∷ b64_char (a % 4 * 16 + b / 16)
    ∷ b64_char (b % 16 * 4 + c / 64)
    ∷ b64_char (c % 64)
    ∷ encode s

-- The last four characters, of which one or two are the padding.
unfoldable pub padded : ℕ → ℕ → ℕ → Option Bytes
padded a b c = do
  v ← b64_value a
  w ← b64_value b
  (if c == b'='
      then some ((v * 4 + w / 16) ∷ [])
      else (b64_value c >>= λ x. some ((v * 4 + w / 16) ∷ (w % 16 * 16 + x / 4) ∷ [])))

unfoldable pub quad : ℕ → ℕ → ℕ → ℕ → Option Bytes → Option Bytes
quad a b c d rest = do
  v ← b64_value a
  w ← b64_value b
  x ← b64_value c
  y ← b64_value d
  more ← rest
  some ((v * 4 + w / 16) ∷ (w % 16 * 16 + x / 4) ∷ (x % 4 * 64 + y) ∷ more)

-- Nothing may follow the padding.
unfoldable pub decode_quads : Bytes → Option Bytes
decode_quads [] = some []
decode_quads (a ∷ b ∷ c ∷ d ∷ s) =
    let rest = decode_quads s in
    if d == b'=' then (if is_empty s then padded a b c else none) else quad a b c d rest
decode_quads _ = none

drop_newlines : Bytes → Bytes
drop_newlines [] = []
drop_newlines (c ∷ s) =
    let rest = drop_newlines s in if c == b'\n' || c == b'\r' then rest else c ∷ rest

-- `DecodeString`: newlines are passed over.
unfoldable pub decode : Bytes → Option Bytes
unfolding drop_newlines
decode s = decode_quads (drop_newlines s)

unfoldable pub hex_char : ℕ → ℕ
hex_char d = if ltb d 10 then b'0' + d else b'a' + d - 10

-- `hex.EncodeToString`
unfoldable pub hex : Bytes → Bytes
unfolding hex_char
hex [] = []
hex (c ∷ s) = hex_char (c / 16) ∷ hex_char (c % 16) ∷ hex s

abbrev pub IsByte : ℕ → Type 0
IsByte c = c < 256

-- A letter, a digit, or one of `+ / =`.
abbrev pub IsBase64 : ℕ → Type 0
IsBase64 c =
    (within b'A' b'Z' c || (within b'a' b'z' c || (within b'/' b'9' c || (c == b'+' || c == b'='))))
    ≡ true

value-char : (n : ℕ) → n < 64 → b64_value (b64_char n) ≡ some n
unfolding b64_char b64_value
value-char n h = ground arith

char-ne-pad : (n : ℕ) → n < 64 → (b64_char n == b'=') ≡ false
unfolding b64_char
char-ne-pad n h = ground arith

char-IsBase64 : (n : ℕ) → n < 64 → IsBase64 (b64_char n)
unfolding b64_char
char-IsBase64 n h = ground arith

-- Encoded text has no character that a shell, a quoted string or a line reader would take for its own.
pub encode-All : (s : Bytes) → All IsByte s → All IsBase64 (encode s)
unfolding encode
encode-All [] h = tt
encode-All (a ∷ []) h = (
  char-IsBase64 (a / 4) (omega arith),
  (char-IsBase64 (a % 4 * 16) (omega arith), (refl, (refl, tt))),
)
encode-All (a ∷ b ∷ []) (ha, (hb, _)) = (
  char-IsBase64 (a / 4) (omega arith),
  (
    char-IsBase64 (a % 4 * 16 + b / 16) (omega arith),
    (char-IsBase64 (b % 16 * 4) (omega arith), (refl, tt)),
  ),
)
encode-All (a ∷ b ∷ c ∷ s) (ha, (hb, (hc, h))) = (
  char-IsBase64 (a / 4) (omega arith),
  (
    char-IsBase64 (a % 4 * 16 + b / 16) (omega arith),
    (
      char-IsBase64 (b % 16 * 4 + c / 64) (omega arith),
      (char-IsBase64 (c % 64) (omega arith), encode-All s h),
    ),
  ),
)

drop_newlines-base64 : (s : Bytes) → All IsBase64 s → drop_newlines s ≡ s
unfolding drop_newlines
drop_newlines-base64 [] h = refl
drop_newlines-base64 (c ∷ s) h =
    let rest = drop_newlines-base64 s h.1 in
    let head = h.0 in
    let other : (c == b'\n' || c == b'\r') ≡ false = ground arith in rw (other, rest) refl

one_byte :
    (a : ℕ) → IsByte a → padded (b64_char (a / 4)) (b64_char (a % 4 * 16)) b'=' ≡ some (a ∷ [])
unfolding padded
one_byte a h =
    rw (value-char (a / 4) (omega arith), value-char (a % 4 * 16) (omega arith))
      (ap (λ x. some (x ∷ [])) (omega arith))

two_bytes :
    (a b : ℕ)
    → IsByte a
    → IsByte b
    → padded (b64_char (a / 4)) (b64_char (a % 4 * 16 + b / 16)) (b64_char (b % 16 * 4))
      ≡ some (a ∷ b ∷ [])
unfolding padded
two_bytes a b ha hb =
    let first : a / 4 * 4 + (a % 4 * 16 + b / 16) / 16 ≡ a = omega arith in
    let second : (a % 4 * 16 + b / 16) % 16 * 16 + b % 16 * 4 / 4 ≡ b = omega arith in
    rw
      (
        value-char (a / 4) (omega arith),
        value-char (a % 4 * 16 + b / 16) (omega arith),
        value-char (b % 16 * 4) (omega arith),
        char-ne-pad (b % 16 * 4) (omega arith),
      )
      (rw (first, second) refl)

three_bytes :
    (a b c : ℕ) (s : Bytes)
    → IsByte a
    → IsByte b
    → IsByte c
    → quad
        (b64_char (a / 4))
        (b64_char (a % 4 * 16 + b / 16))
        (b64_char (b % 16 * 4 + c / 64))
        (b64_char (c % 64))
        (some s)
      ≡ some (a ∷ b ∷ c ∷ s)
unfolding quad
three_bytes a b c s ha hb hc =
    let first : a / 4 * 4 + (a % 4 * 16 + b / 16) / 16 ≡ a = omega arith in
    let second : (a % 4 * 16 + b / 16) % 16 * 16 + (b % 16 * 4 + c / 64) / 4 ≡ b = omega arith in
    let third : (b % 16 * 4 + c / 64) % 4 * 64 + c % 64 ≡ c = omega arith in
    rw
      (
        value-char (a / 4) (omega arith),
        value-char (a % 4 * 16 + b / 16) (omega arith),
        value-char (b % 16 * 4 + c / 64) (omega arith),
        value-char (c % 64) (omega arith),
      )
      (rw (first, second, third) refl)

decode_quads-encode : (s : Bytes) → All IsByte s → decode_quads (encode s) ≡ some s
unfolding decode_quads encode is_empty
decode_quads-encode [] h = refl
decode_quads-encode (a ∷ []) h = one_byte a h.0
decode_quads-encode (a ∷ b ∷ []) h = two_bytes a b h.0 h.1.0
decode_quads-encode (a ∷ b ∷ c ∷ s) (ha, (hb, (hc, h))) =
    rw (char-ne-pad (c % 64) (omega arith), decode_quads-encode s h) (three_bytes a b c s ha hb hc)

-- What is encoded is decoded to the same bytes.
pub decode-encode : (s : Bytes) → All IsByte s → decode (encode s) ≡ some s
unfolding decode
decode-encode s h = rw (drop_newlines-base64 (encode s) (encode-All s h)) (decode_quads-encode s h)
