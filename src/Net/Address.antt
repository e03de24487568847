-- ===== src/Net/Address.antt =====
-- `netip.ParseAddr`, `net.ParseIP`, `IP.To4` and `IP.String`.
use tool_public_ubo.Base.{
  ℕ, zero, suc, ◌+◌, ◌-◌, ◌*◌, ◌/◌, ◌%◌, Bool, true, false, ◌&&◌, ◌||◌, not, List, [], ◌∷◌, ◌++◌,
  ltb, ◌==◌, if◌then◌else◌, within, Option, none, some, length, ◌≡◌, refl,
}
use tool_public_ubo.Text.Compare.{Bytes, codes, cut, is_empty, equal}
use tool_public_ubo.Text.Decimal.{read_ℕ}
use tool_public_ubo.Text.Lines.{split}

infixl 5 ◌>>=◌
abbrev pub ◌>>=◌ {ℓ κ} : {A : Type ℓ} {B : Type κ} → Option A → (A → Option B) → Option B
none >>= f = none
some a >>= f = f a

abbrev pub take : ℕ → Bytes → Bytes
take zero s = []
take (suc n) [] = []
take (suc n) (c ∷ s) = c ∷ take n s

abbrev pub drop : ℕ → Bytes → Bytes
drop zero s = s
drop (suc n) [] = []
drop (suc n) (c ∷ s) = drop n s

abbrev pub zeros : ℕ → Bytes
zeros zero = []
zeros (suc n) = 0 ∷ zeros n

-- A part has no leading zero unless it is one digit.
leading_zero : Bytes → Bool
leading_zero [] = false
leading_zero (c ∷ []) = false
leading_zero (c ∷ _ ∷ _) = c == b'0'

octet : Bytes → Option ℕ
unfolding leading_zero read_ℕ
octet s = do n ← read_ℕ s; if ltb 255 n || leading_zero s then none else some n

-- `parseIPv4Fields`: four parts between dots.
ipv4_parts : List Bytes → Option Bytes
unfolding octet
ipv4_parts (a ∷ b ∷ c ∷ d ∷ []) = do
  w ← octet a
  x ← octet b
  y ← octet c
  z ← octet d
  some (w ∷ x ∷ y ∷ z ∷ [])
ipv4_parts _ = none

unfoldable pub parse_ipv4 : Bytes → Option Bytes
unfolding ipv4_parts split
parse_ipv4 s = ipv4_parts (split b'.' s)

hex_digit : ℕ → Option ℕ
hex_digit c =
    if within b'0' b'9' c
    then some (c - b'0')
    else if within b'a' b'f' c
    then some (c - b'a' + 10)
    else if within b'A' b'F' c
    then some (c - b'A' + 10)
    else none

-- The hexadecimal digits in front: their number, their value and the rest.
hex_span : ℕ → ℕ → Bytes → ℕ × ℕ × Bytes
unfolding hex_digit
hex_span n acc [] = (n, acc, [])
hex_span n acc (c ∷ s) = elim (hex_digit c) [
  | none ↦ (n, acc, c ∷ s)
  | some d ↦ hex_span (n + 1) (acc * 16 + d) s
]

starts_with : ℕ → Bytes → Bool
starts_with b [] = false
starts_with b (c ∷ _) = c == b

-- The bytes so far, where the ellipsis stands in them, and the unread text.
abbrev V6 : Type 0
V6 = Bytes × Option ℕ × Bytes

-- What follows a group: the end, or a colon and more, or an ellipsis.
pub data Next : Type 0 where
  stop : Option ℕ → Next
  go : Option ℕ → Bytes → Next
  bad : Next

after_group : ℕ → Option ℕ → Bytes → Next
after_group at ellipsis [] = stop ellipsis
after_group at ellipsis (c ∷ []) = bad
after_group at none (c ∷ d ∷ []) =
    if not (c == b':') then bad else if d == b':' then stop (some at) else go none (d ∷ [])
after_group at none (c ∷ d ∷ e ∷ s) =
    if not (c == b':') then bad else if d == b':' then go (some at) (e ∷ s) else go none (d ∷ e ∷ s)
after_group at (some p) (c ∷ d ∷ s) =
    if not (c == b':') || d == b':' then bad else go (some p) (d ∷ s)

embedded : Bytes → Option ℕ → Bytes → Option V6
unfolding parse_ipv4
embedded out ellipsis s =
    let misplaced : Bool = elim ellipsis [ none ↦ not (length out == 12) | some _ ↦ false ] in
    if misplaced || ltb 16 (length out + 4)
    then none
    else (parse_ipv4 s >>= λ fields. some (out ++ fields, ellipsis, []))

-- At most `rounds` groups of sixteen bits.
v6_loop : ℕ → Bytes → Option ℕ → Bytes → Option V6
unfolding hex_span starts_with after_group embedded
v6_loop zero out ellipsis s = some (out, ellipsis, s)
v6_loop (suc rounds) out ellipsis s =
    let (n, acc, rest) = hex_span 0 0 s in
    let out' = out ++ (acc / 256) ∷ (acc % 256) ∷ [] in
    let dotted = embedded out ellipsis s in
    let onward : Option V6 = elim (after_group (length out') ellipsis rest) [
      | stop e ↦ some (out', e, [])
      | go e s' ↦ v6_loop rounds out' e s'
      | bad ↦ none
    ] in
    if n == 0 || ltb 4 n then none else if starts_with b'.' rest then dotted else onward

-- The ellipsis stands for the zeros that are missing, one group at least.
expand : V6 → Option Bytes
expand (out, ellipsis, _ ∷ _) = none
expand (out, none, []) = if length out == 16 then some out else none
expand (out, some p, []) =
    if ltb (length out) 16
    then some (take p out ++ (zeros (16 - length out) ++ drop p out))
    else none

v6_text : Bytes → Option Bytes
unfolding v6_loop expand
v6_text (c ∷ d ∷ s) =
    if c == b':' && d == b':'
    then (if is_empty s then some (zeros 16) else (v6_loop 8 [] (some 0) s >>= expand))
    else (v6_loop 8 [] none (c ∷ d ∷ s) >>= expand)
v6_text s = v6_loop 8 [] none s >>= expand

-- The address and its zone; a zone behind `%` is not empty.
parse_ipv6 : Bytes → Option (Bytes × Bytes)
unfolding v6_text cut is_empty
parse_ipv6 s = elim (cut b'%' s) [
  | none ↦ (v6_text s >>= λ a. some (a, []))
  | some (l, zone) ↦ (if is_empty zone then none else (v6_text l >>= λ a. some (a, zone)))
]

-- The sixteen bytes, whether the address is an IPv4 one, and the zone.
pub record Address : Type 0 where
  pub bytes : Bytes
  pub is_4 : Bool
  pub zone : Bytes

abbrev pub v4_in_v6 : Bytes
v4_in_v6 = 0 ∷ 0 ∷ 0 ∷ 0 ∷ 0 ∷ 0 ∷ 0 ∷ 0 ∷ 0 ∷ 0 ∷ 255 ∷ 255 ∷ []

pub data Notation : Type 0 where
  dots colons neither : Notation

-- The first of '.', ':' and '%' decides.
notation : Bytes → Notation
notation [] = neither
notation (c ∷ s) =
    let rest = notation s in
    if c == b'.' then dots else if c == b':' then colons else if c == b'%' then neither else rest

unfoldable pub parse_addr : Bytes → Option Address
unfolding notation parse_ipv4 parse_ipv6
parse_addr s = elim (notation s) [
  | dots ↦ (parse_ipv4 s >>= λ a. some (record { bytes = v4_in_v6 ++ a; is_4 = true; zone = [] }))
  | colons ↦ (parse_ipv6 s >>= λ (a, zone). some (record { bytes = a; is_4 = false; zone = zone }))
  | neither ↦ none
]

-- `net.ParseIP`, `none` for nil
unfoldable pub parse_ip : Bytes → Option Bytes
unfolding parse_addr
parse_ip s = do a ← parse_addr s; if is_empty a.zone then some a.bytes else none

-- `IP.To4`
unfoldable pub to_4 : Bytes → Option Bytes
unfolding equal
to_4 ip =
    if length ip == 4
    then some ip
    else if length ip == 16 && equal (take 12 ip) v4_in_v6
    then some (drop 12 ip)
    else none

parse_addr_v4 : parse_ip (codes "10.42.0.1") ≡ some (v4_in_v6 ++ 10 ∷ 42 ∷ 0 ∷ 1 ∷ [])
unfolding parse_ip
parse_addr_v4 = refl

parse_addr_v6 :
    parse_ip (codes "fd00::a:1.2.3.4")
    ≡ some (0xfd ∷ 0 ∷ 0 ∷ 0 ∷ 0 ∷ 0 ∷ 0 ∷ 0 ∷ 0 ∷ 0 ∷ 0 ∷ 10 ∷ 1 ∷ 2 ∷ 3 ∷ 4 ∷ [])
unfolding parse_ip
parse_addr_v6 = refl

parse_addr_bad : parse_ip (codes "1.2.3.04") ≡ none
unfolding parse_ip
parse_addr_bad = refl
