-- ===== src/Net/Cidr.antt =====
-- `net.ParseCIDR`, `CIDRMask`, `IP.Mask`, `IP.Equal` and `IPNet.Contains`.
use Prim.Native.Nat.{bit_and}
use tool_public_ubo.Base.{
  ℕ, zero, suc, ◌-◌, ◌*◌, ◌/◌, ◌^◌, Bool, true, false, ◌&&◌, [], ◌∷◌, ltb, leb, ◌==◌, if◌then◌else◌,
  Option, none, some, length, ◌≡◌, refl,
}
use tool_public_ubo.Net.Address.{◌>>=◌, take, drop, v4_in_v6, Address, parse_addr, to_4}
use tool_public_ubo.Text.Compare.{Bytes, codes, cut, is_empty, equal}
use tool_public_ubo.Text.Decimal.{read_ℕ}

-- `bytes` bytes of a mask with `ones` leading ones.
mask_bytes : ℕ → ℕ → Bytes
mask_bytes zero ones = []
mask_bytes (suc bytes) ones =
    if leb 8 ones
    then 255 ∷ mask_bytes bytes (ones - 8)
    else (255 - 255 / 2 ^ ones) ∷ mask_bytes bytes 0

-- `CIDRMask(ones, bits)` for 8 * `bytes` bits, `none` for nil.
unfoldable pub cidr_mask : ℕ → ℕ → Option Bytes
unfolding mask_bytes
cidr_mask ones bytes = if ltb (8 * bytes) ones then none else some (mask_bytes bytes ones)

and_bytes : Bytes → Bytes → Bytes
and_bytes (a ∷ s) (m ∷ ms) = bit_and a m ∷ and_bytes s ms
and_bytes _ _ = []

-- `IP.Mask` for an address of sixteen bytes.
mask_ip : Bytes → Bytes → Bytes
unfolding and_bytes equal
mask_ip ip mask =
    if length mask == 4 && equal (take 12 ip) v4_in_v6
    then and_bytes (drop 12 ip) mask
    else if length mask == length ip
    then and_bytes ip mask
    else []

pub record IpNet : Type 0 where
  pub ip : Bytes
  pub mask : Bytes

-- The address, the network, and the length of the prefix.
pub record Cidr : Type 0 where
  pub ip : Bytes
  pub net : IpNet
  pub ones : ℕ

cidr_of : Address → ℕ → Option Cidr
unfolding cidr_mask mask_ip
cidr_of a n = do
  mask ← cidr_mask n (if a.is_4 then 4 else 16)
  some (record { ip = a.bytes; net = record { ip = mask_ip a.bytes mask; mask = mask }; ones = n })

unfoldable pub parse_cidr : Bytes → Option Cidr
unfolding cidr_of cut is_empty parse_addr read_ℕ
parse_cidr s = do
  (addr, bits) ← cut b'/' s
  a ← parse_addr addr
  n ← (if is_empty a.zone then read_ℕ bits else none)
  cidr_of a n

same_masked : Bytes → Bytes → Bytes → Bool
same_masked (a ∷ s) (b ∷ t) (m ∷ ms) = bit_and a m == bit_and b m && same_masked s t ms
same_masked _ _ _ = true

-- `networkNumberAndMask`
network_and_mask : IpNet → Bytes × Bytes
network_and_mask n = elim (to_4 n.ip) [
  | some ip ↦
      (if length n.mask == 4
        then (ip, n.mask)
        else if length n.mask == 16
        then (ip, drop 12 n.mask)
        else ([], []))
  | none ↦ (if length n.ip == 16 && length n.mask == 16 then (n.ip, n.mask) else ([], []))
]

unfoldable pub contains : IpNet → Bytes → Bool
unfolding same_masked network_and_mask to_4
contains n ip =
    let (net, mask) = network_and_mask n in
    let x : Bytes = elim (to_4 ip) [ some y ↦ y | none ↦ ip ] in
    if length x == length net then same_masked net x mask else false

contains_test :
    (parse_cidr (codes "10.42.0.1/24") >>= λ s.
    parse_cidr (codes "10.42.1.2/32") >>= λ c. some (contains s.net c.ip))
    ≡ some false
unfolding parse_cidr contains
contains_test = refl
