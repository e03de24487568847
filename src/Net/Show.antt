-- ===== src/Net/Show.antt =====
-- `IP.String` for an address of sixteen bytes.
use tool_public_ubo.Base.{
  ℕ, zero, suc, ◌+◌, ◌-◌, ◌*◌, ◌/◌, ◌%◌, ◌&&◌, not, List, [], ◌∷◌, ◌++◌, ltb, leb, ◌==◌,
  if◌then◌else◌, none, some, ◌≡◌, refl,
}
use tool_public_ubo.Net.Address.{to_4, parse_ip, ◌>>=◌}
use tool_public_ubo.Text.Compare.{Bytes, codes}
use tool_public_ubo.Text.Decimal.{show_ℕ}

show_4 : Bytes → Bytes
unfolding show_ℕ
show_4 [] = []
show_4 (a ∷ []) = show_ℕ a
show_4 (a ∷ b ∷ s) = show_ℕ a ++ (codes "." ++ show_4 (b ∷ s))

-- The groups of sixteen bits.
groups : Bytes → List ℕ
groups (a ∷ b ∷ s) = (a * 256 + b) ∷ groups s
groups _ = []

-- How many zeros there are in front.
zero_run : List ℕ → ℕ
zero_run [] = 0
zero_run (g ∷ gs) = let run = zero_run gs in if g == 0 then suc run else 0

-- The start and the length of the first longest run of two zeros or more; a length of 0 for none.
longest_run : ℕ → List ℕ → ℕ × ℕ → ℕ × ℕ
unfolding zero_run
longest_run i [] best = best
longest_run i (g ∷ gs) (start, len) =
    let run = zero_run (g ∷ gs) in
    longest_run (i + 1) gs (if leb 2 run && ltb len run then (i, run) else (start, len))

hex_char : ℕ → ℕ
hex_char d = if ltb d 10 then b'0' + d else b'a' + d - 10

-- `appendHex`: no leading zeros
show_hex : ℕ → Bytes
unfolding hex_char
show_hex g =
    (if leb 4096 g then hex_char (g / 4096) ∷ [] else [])
    ++ ((if leb 256 g then hex_char (g / 256 % 16) ∷ [] else [])
        ++ ((if leb 16 g then hex_char (g / 16 % 16) ∷ [] else []) ++ (hex_char (g % 16) ∷ [])))

-- The group with index `i` and those behind it; `skip` groups belong to the run already printed.
show_groups : ℕ → ℕ → ℕ → ℕ → List ℕ → Bytes
unfolding show_hex
show_groups start len skip i [] = []
show_groups start len (suc skip) i (g ∷ gs) = show_groups start len skip (i + 1) gs
show_groups start len zero i (g ∷ gs) =
    let in_run = not (len == 0) && i == start in
    let behind = not (i == 0) && not (not (len == 0) && i == start + len) in
    let rest = show_groups start len (if in_run then len - 1 else 0) (i + 1) gs in
    if in_run
    then codes "::" ++ rest
    else (if behind then codes ":" else []) ++ (show_hex g ++ rest)

show_6 : Bytes → Bytes
unfolding groups longest_run show_groups
show_6 ip =
    let gs = groups ip in let (start, len) = longest_run 0 gs (0, 0) in show_groups start len 0 0 gs

unfoldable pub show_ip : Bytes → Bytes
unfolding show_4 show_6 to_4
show_ip ip = elim (to_4 ip) [ some a ↦ show_4 a | none ↦ show_6 ip ]

show_ip_v4 : (parse_ip (codes "::ffff:1.2.3.4") >>= λ a. some (show_ip a)) ≡ some (codes "1.2.3.4")
unfolding parse_ip show_ip
show_ip_v4 = refl

show_ip_v6 :
    (parse_ip (codes "fd00:0:0:1:0:0:0:a") >>= λ a. some (show_ip a)) ≡ some (codes "fd00:0:0:1::a")
unfolding parse_ip show_ip
show_ip_v6 = refl

show_ip_zero : (parse_ip (codes "::") >>= λ a. some (show_ip a)) ≡ some (codes "::")
unfolding parse_ip show_ip
show_ip_zero = refl
