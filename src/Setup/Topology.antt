-- ===== src/Setup/Topology.antt =====
-- The topology of the interface, from internal/setup/setup.go: `parseVLANLink` with its two
-- expressions, `detectVLAN`, `detectBond`, `detectBondMode`, `detectVLANBond` and `detectBridge`.
use tool_public_ubo.Base.{
  ℕ, Bool, true, false, ◌&&◌, ◌||◌, not, List, [], ◌∷◌, ◌++◌, within, ltb, ◌==◌, if◌then◌else◌,
  Option, none, some, ◌≡◌, refl,
}
use tool_public_ubo.Base.Int.{int_limit}
use tool_public_ubo.Net.Address.{◌>>=◌}
use tool_public_ubo.Setup.{NetworkInfo, Run}
use tool_public_ubo.Setup.Inet.{digit_run}
use tool_public_ubo.Text.Compare.{Bytes, codes, is_empty, strip_prefix}
use tool_public_ubo.Text.Decimal.{read_ℕ}
use tool_public_ubo.Text.Space.{trim_space, fields}

-- `\s` of a regular expression
re_space : ℕ → Bool
re_space c = c == 9 || c == 10 || c == 12 || c == 13 || c == 32

-- A byte of a word, for `\b`.
is_word : ℕ → Bool
is_word c = within b'0' b'9' c || within b'A' b'Z' c || within b'a' b'z' c || c == b'_'

-- What stands in front of the first colon, if no white space does.
name_to_colon : Bytes → Option Bytes
unfolding re_space
name_to_colon [] = none
name_to_colon (c ∷ s) =
    let rest = name_to_colon s in
    if c == b':' then some [] else if re_space c then none else (rest >>= λ n. some (c ∷ n))

-- `@(\S+?):` behind the `@`
parent_at : Bytes → Option Bytes
unfolding re_space name_to_colon
parent_at [] = none
parent_at (c ∷ s) = if re_space c then none else (name_to_colon s >>= λ n. some (c ∷ n))

vlan_parent : Bytes → Option Bytes
unfolding parent_at
vlan_parent [] = none
vlan_parent (c ∷ s) =
    let rest = vlan_parent s in
    if c == b'@' then elim (parent_at s) [ some n ↦ some n | none ↦ rest ] else rest

drop_spaces : Bytes → Bytes
unfolding re_space
drop_spaces [] = []
drop_spaces (c ∷ s) = let rest = drop_spaces s in if re_space c then rest else c ∷ s

starts_with_space : Bytes → Bool
unfolding re_space
starts_with_space [] = false
starts_with_space (c ∷ s) = re_space c

starts_with_word : Bytes → Bool
unfolding is_word
starts_with_word [] = false
starts_with_word (c ∷ s) = is_word c

-- `\bid\s+(\d+)` behind the byte `prev`: the digits.
id_at : ℕ → Bytes → Option Bytes
unfolding is_word starts_with_space drop_spaces digit_run strip_prefix
id_at prev s = do
  rest ← strip_prefix (codes "id") s
  digits ← some ((digit_run (drop_spaces rest)).0)
  (if is_word prev || not (starts_with_space rest) || is_empty digits then none else some digits)

-- `.*` takes as much of the line as it can, so that the last of the places counts.
last_id : ℕ → Bytes → Option Bytes
unfolding id_at
last_id prev [] = none
last_id prev (c ∷ s) =
    let later = last_id c s in
    if c == b'\n' then none else elim later [ some d ↦ some d | none ↦ id_at prev (c ∷ s) ]

-- `\bvlan\b.*\bid\s+(\d+)` behind the byte `prev`
vlan_id_text : ℕ → Bytes → Option Bytes
unfolding is_word last_id starts_with_word strip_prefix
vlan_id_text prev [] = none
vlan_id_text prev (c ∷ s) =
    let rest = vlan_id_text c s in
    elim (strip_prefix (codes "vlan") (c ∷ s)) [
      | none ↦ rest
      | some t ↦
          (if is_word prev || starts_with_word t
            then rest
            else elim (last_id b'n' t) [ some d ↦ some d | none ↦ rest ])
    ]

-- `Sscanf` with `%d` leaves 0 where the digits are more than an `int` holds.
scan_digits : Option Bytes → ℕ
scan_digits none = 0
scan_digits (some d) = elim (read_ℕ d) [ none ↦ 0 | some n ↦ (if ltb n int_limit then n else 0) ]

unfoldable pub parse_vlan_link : Bytes → Bytes × ℕ
unfolding vlan_parent vlan_id_text scan_digits read_ℕ
parse_vlan_link out =
    let physdev : Bytes = elim (vlan_parent out) [ none ↦ [] | some n ↦ trim_space n ] in
    (physdev, scan_digits (vlan_id_text 0 out))

unfoldable pub detect_vlan : Run → NetworkInfo → NetworkInfo
detect_vlan run info =
    let reply = run (codes "ip -d link show " ++ (info.interface ++ codes " 2>/dev/null")) in
    let (physdev, id) = parse_vlan_link reply.out in
    if reply.failed
    then info
    else if not (is_empty physdev) && ltb 0 id
    then record info { vlan_physdev = physdev; vlan_id = id }
    else info

abbrev pub is_none_of : List Bytes → Bool
is_none_of [] = true
is_none_of (_ ∷ _) = false

unfoldable pub detect_bond : Run → NetworkInfo → NetworkInfo
detect_bond run info =
    let path =
      codes "cat /sys/class/net/" ++ (info.interface ++ codes "/bonding/slaves 2>/dev/null") in
    let slaves = fields (trim_space ((run path).out)) in
    if (run path).failed || is_none_of slaves then info else record info { bond_slaves = slaves }

abbrev pub with_first : NetworkInfo → List Bytes → NetworkInfo
with_first info [] = info
with_first info (w ∷ _) = record info { bond_mode = w }

unfoldable pub detect_bond_mode : Run → NetworkInfo → NetworkInfo
detect_bond_mode run info =
    let reply =
      run (codes "cat /sys/class/net/" ++ (info.interface ++ codes "/bonding/mode 2>/dev/null")) in
    if is_none_of info.bond_slaves || reply.failed
    then info
    else with_first info (fields (trim_space reply.out))

-- `&NetworkInfo{Interface: name}`
abbrev pub only_interface : Bytes → NetworkInfo
only_interface name = record {
  interface = name;
  ip = [];
  prefix = 0;
  gateway = [];
  hostname = [];
  vlan_physdev = [];
  vlan_id = 0;
  bond_slaves = [];
  bond_mode = [];
  bridge_ports = [];
}

unfoldable pub detect_vlan_bond : Run → NetworkInfo → NetworkInfo
detect_vlan_bond run info =
    let phys = detect_bond_mode run (detect_bond run (only_interface info.vlan_physdev)) in
    if is_empty info.vlan_physdev || is_none_of phys.bond_slaves
    then info
    else record info { bond_slaves = phys.bond_slaves; bond_mode = phys.bond_mode }

unfoldable pub detect_bridge : Run → NetworkInfo → NetworkInfo
detect_bridge run info =
    let reply =
      run (codes "ls /sys/class/net/" ++ (info.interface ++ codes "/brif/ 2>/dev/null")) in
    let ports = fields (trim_space reply.out) in
    if reply.failed || is_none_of ports then info else record info { bridge_ports = ports }

unfoldable pub detect_interface_topology : Run → NetworkInfo → NetworkInfo
detect_interface_topology run info =
    detect_bridge run
      (detect_vlan_bond run (detect_bond_mode run (detect_bond run (detect_vlan run info))))

vlan_test :
    parse_vlan_link (codes "4: bond0.100@bond0: <UP>\n vlan protocol 802.1Q id 100 <REORDER>")
    ≡ (codes "bond0", 100)
unfolding parse_vlan_link trim_space is_empty
vlan_test = refl

vlan_none : parse_vlan_link (codes "2: eth0: <UP> xvlan id 4") ≡ ([], 0)
unfolding parse_vlan_link trim_space is_empty
vlan_none = refl
