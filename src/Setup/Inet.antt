-- ===== src/Setup/Inet.antt =====
-- `firstInetAddr`, `prefixForIP` and `applyConfigIP` of internal/setup/setup.go, with the matches of
-- `inet (\d+\.\d+\.\d+\.\d+/\d+)`.
use tool_public_ubo.Base.{
  ℕ, zero, suc, ◌+◌, List, [], ◌∷◌, ◌++◌, within, length, if◌then◌else◌, Option, none, some, ◌≡◌,
  refl,
}
use tool_public_ubo.Net.Address.{◌>>=◌}
use tool_public_ubo.Net.Cidr.{parse_cidr}
use tool_public_ubo.Net.Show.{show_ip}
use tool_public_ubo.Text.Compare.{Bytes, codes, is_empty, strip_prefix, equal}

-- `\d+`, taken as far as it goes: the digits and the rest.
unfoldable pub digit_run : Bytes → Bytes × Bytes
digit_run [] = ([], [])
digit_run (c ∷ s) =
    let rest = digit_run s in if within b'0' b'9' c then (c ∷ rest.0, rest.1) else ([], c ∷ s)

-- `\d+` and one more byte behind it.
digits_and : Bytes → Bytes → Option (Bytes × Bytes)
unfolding digit_run strip_prefix
digits_and stop s =
    let run = digit_run s in
    if is_empty run.0
    then none
    else (strip_prefix stop run.1 >>= λ rest. some (run.0 ++ stop, rest))

-- The part of a match in parentheses, for a text that begins behind "inet ".
unfoldable pub inet_text : Bytes → Option Bytes
unfolding digits_and digit_run
inet_text s = do
  (a, s1) ← digits_and (codes ".") s
  (b, s2) ← digits_and (codes ".") s1
  (c, s3) ← digits_and (codes ".") s2
  (d, s4) ← digits_and (codes "/") s3
  (if is_empty ((digit_run s4).0) then none else some (a ++ (b ++ (c ++ (d ++ (digit_run s4).0)))))

inet_at : Bytes → Option Bytes
unfolding inet_text strip_prefix
inet_at s = strip_prefix (codes "inet ") s >>= inet_text

-- `FindAllStringSubmatch`: `skip` bytes belong to the match before.
inet_matches : ℕ → Bytes → List Bytes
unfolding inet_at
inet_matches skip [] = []
inet_matches (suc skip) (c ∷ s) = inet_matches skip s
inet_matches zero (c ∷ s) = elim (inet_at (c ∷ s)) [
  | none ↦ inet_matches zero s
  | some m ↦ m ∷ inet_matches (length m + 4) s
]

unfoldable pub first_inet_addr : Bytes → Bytes × ℕ
unfolding inet_matches
first_inet_addr out = elim (inet_matches 0 out) [
  | [] ↦ ([], 0)
  | m ∷ _ ↦ elim (parse_cidr m) [ none ↦ ([], 0) | some x ↦ (show_ip x.ip, x.ones) ]
]

prefix_among : List Bytes → Bytes → ℕ
prefix_among [] ip = 0
prefix_among (m ∷ more) ip =
    let rest = prefix_among more ip in
    elim (parse_cidr m) [
      | none ↦ rest
      | some x ↦ (if equal (show_ip x.ip) ip then x.ones else rest)
    ]

unfoldable pub prefix_for_ip : Bytes → Bytes → ℕ
unfolding inet_matches prefix_among
prefix_for_ip addr_out ip = prefix_among (inet_matches 0 addr_out) ip

inet_test :
    first_inet_addr (codes "2: eth0\n    inet 10.0.0.7/24 brd 10.0.0.255 scope")
    ≡ (codes "10.0.0.7", 24)
unfolding first_inet_addr parse_cidr show_ip
inet_test = refl

prefix_test : prefix_for_ip (codes "inet 10.0.0.7/24 inet 10.0.0.8/25 x") (codes "10.0.0.8") ≡ 25
unfolding prefix_for_ip parse_cidr show_ip
prefix_test = refl
