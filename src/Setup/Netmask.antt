-- ===== src/Setup/Netmask.antt =====
-- `prefixToNetmask` of internal/setup/setup.go.
use tool_public_ubo.Base.{
  ℕ, zero, suc, ◌+◌, ◌-◌, ◌*◌, ◌^◌, ◌<◌, ◌≤◌, Bool, true, false, ◌&&◌, [], ◌∷◌, ◌++◌, ltb, ◌==◌,
  Option, none, some, ◌≡◌, refl, arith, Bool-cases, Option-cases, ==_iff, inl, inr, ◌⊎◌,
}
use tool_public_ubo.Net.Address.{parse_ipv4}
use tool_public_ubo.Net.Cidr.{cidr_mask}
use tool_public_ubo.Text.Compare.{Bytes, codes}
use tool_public_ubo.Text.Decimal.{show_ℕ}

dotted : Bytes → Bytes
unfolding show_ℕ
dotted [] = []
dotted (a ∷ []) = show_ℕ a
dotted (a ∷ b ∷ s) = show_ℕ a ++ (codes "." ++ dotted (b ∷ s))

-- `none` is the panic of `mask[0]` on the nil mask that `net.CIDRMask` gives.
unfoldable pub prefix_to_netmask : ℕ → Option Bytes
unfolding cidr_mask dotted
prefix_to_netmask prefix = elim (cidr_mask prefix 4) [
  | none ↦ none
  | some mask ↦ some (dotted mask)
]

-- The number that four bytes are in the order of the network.
unfoldable pub value_of : Bytes → ℕ
value_of (a ∷ b ∷ c ∷ d ∷ []) = ((a * 256 + b) * 256 + c) * 256 + d
value_of _ = 0

-- The netmask read back as an address is the number with `prefix` ones in front of zeros.
is_netmask : ℕ → Option Bytes → Bool
unfolding value_of parse_ipv4
is_netmask prefix none = false
is_netmask prefix (some text) = elim (parse_ipv4 text) [
  | none ↦ false
  | some bytes ↦ value_of bytes + 2 ^ (32 - prefix) == 2 ^ 32
]

all_below : (ℕ → Bool) → ℕ → Bool
all_below p zero = true
all_below p (suc n) = p n && all_below p n

all_below-at : (p : ℕ → Bool) (n k : ℕ) → all_below p n ≡ true → k < n → p k ≡ true
unfolding all_below
all_below-at p zero k h lt = absurd (omega arith)
all_below-at p (suc n) k h lt = elim (Bool-cases (k == n)) [
  | inl e ↦ rw ((==_iff k n).0 e) (ground arith)
  | inr e ↦ all_below-at p n k (ground arith) (ground arith)
]

netmasks : all_below (λ p. is_netmask p (prefix_to_netmask p)) 33 ≡ true
unfolding all_below is_netmask prefix_to_netmask parse_ipv4
netmasks = refl

is_netmask-reads :
    (prefix : ℕ) (text : Option Bytes)
    → is_netmask prefix text ≡ true
    → (t : Bytes) × (bytes : Bytes) × (text ≡ some t)
      × (parse_ipv4 t ≡ some bytes)
      × (value_of bytes + 2 ^ (32 - prefix) ≡ 2 ^ 32)
unfolding is_netmask
is_netmask-reads prefix none h = absurd cc
is_netmask-reads prefix (some t) h = elim (Option-cases (parse_ipv4 t)) [
  | inl e ↦ absurd cc
  | inr (bytes, e) ↦ (t, bytes, refl, e, (==_iff _ _).0 (rw (e, is_netmask) at h))
]

prefix_to_netmask-panic : (prefix : ℕ) → ltb 32 prefix ≡ true → prefix_to_netmask prefix ≡ none
unfolding prefix_to_netmask cidr_mask
prefix_to_netmask-panic prefix h = rw (h, prefix_to_netmask, cidr_mask) refl

-- For a prefix of 32 at most the netmask is a dotted address that reads back as `prefix` ones in
-- front of zeros; for a longer one `prefixToNetmask` panics.
pub prefix_to_netmask-value :
    (prefix : ℕ)
    → ((prefix ≤ 32)
        × (text : Bytes) × (bytes : Bytes) × (prefix_to_netmask prefix ≡ some text)
        × (parse_ipv4 text ≡ some bytes)
        × (value_of bytes + 2 ^ (32 - prefix) ≡ 2 ^ 32))
      ⊎ ((33 ≤ prefix) × (prefix_to_netmask prefix ≡ none))
prefix_to_netmask-value prefix = elim (Bool-cases (ltb 32 prefix)) [
  | inl long ↦ inr (ground arith, prefix_to_netmask-panic prefix long)
  | inr fits ↦ inl (
      let reads =
        all_below-at (λ p. is_netmask p (prefix_to_netmask p)) 33 prefix netmasks (ground arith) in
      let (text, bytes, e, read, value) = is_netmask-reads prefix _ reads in
      (ground arith, text, bytes, e, read, value))
]
