-- ===== src/Rootless/Address.antt =====
-- `parseFirstAddr` of contrib/rootless/rootless.go over `netip.ParsePrefix`, and `netip.ParseAddrPort`
-- as `Unlock` calls it.
use tool_public_ubo.Base.{
  ℕ, Bool, true, false, ◌||◌, ◌&&◌, not, [], ◌∷◌, ◌++◌, ltb, leb, within, ◌==◌, if◌then◌else◌,
  Option, none, some,
}
use tool_public_ubo.Base.Int.{ℤ}
use tool_public_ubo.Net.Address.{Address, parse_addr, ◌>>=◌}
use tool_public_ubo.Text.Compare.{Bytes, is_empty}
use tool_public_ubo.Text.Decimal.{read_ℕ, itoa}

-- The parts in front of the last `b` and behind it.
unfoldable pub cut_last : ℕ → Bytes → Option (Bytes × Bytes)
cut_last b [] = none
cut_last b (c ∷ s) =
    let later = cut_last b s in
    elim later [ some (l, r) ↦ some (c ∷ l, r) | none ↦ (if c == b then some ([], s) else none) ]

-- More than one digit begins with 1 to 9.
plain_bits : Bytes → Bool
plain_bits [] = true
plain_bits (c ∷ []) = true
plain_bits (c ∷ _ ∷ _) = within b'1' b'9' c

unfoldable pub parse_prefix : Bytes → Option Address
unfolding plain_bits
parse_prefix s = do
  (addr, bits) ← cut_last b'/' s
  a ← parse_addr addr
  n ← (if is_empty a.zone && plain_bits bits then read_ℕ bits else none)
  (if leb n (if a.is_4 then 32 else 128) then some a else none)

unfoldable pub parse_first_addr : Bytes → Option Address
parse_first_addr s = elim (parse_prefix s) [ some a ↦ some a | none ↦ parse_addr s ]

pub record AddrPort : Type 0 where
  pub address : Address
  pub port : ℕ

-- The address of a text in brackets, and whether there are any.
unfoldable pub unbracket : Bytes → Option (Bytes × Bool)
unbracket [] = none
unbracket (c ∷ s) =
    if c == b'['
    then (cut_last b']' s >>= λ r. if is_empty r.1 then some (r.0, true) else none)
    else some (c ∷ s, false)

-- An IPv6 address stands in brackets, an IPv4 one does not.
unfoldable pub parse_addr_port : Bytes → Option AddrPort
parse_addr_port s = do
  (ip, port) ← cut_last b':' s
  (text, bracketed) ← unbracket ip
  n ← read_ℕ port
  a ← parse_addr text
  (if ltb 65535 n || (bracketed && a.is_4) || (not bracketed && not a.is_4)
      then none
      else some (record { address = a; port = n }))

-- `fmt.Sprintf("%s:%d", serverIP, port)`
unfoldable pub server_addr : Bytes → ℤ → Option AddrPort
server_addr ip port = parse_addr_port (ip ++ b':' ∷ itoa port)
