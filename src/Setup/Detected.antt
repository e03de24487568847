-- ===== src/Setup/Detected.antt =====
-- What `detectNetwork` of internal/setup/setup.go returns when it returns no error.
use tool_public_ubo.Base.{
  ℕ, zero, suc, ◌≤◌, Bool, true, false, ◌||◌, not, List, [], ◌∷◌, ◌==◌, if◌then◌else◌, ◌⊎◌, inl,
  inr, ◌≡◌, ◌≢◌, refl, sym, ◌∙◌, ap, arith, Bool-cases,
}
use tool_public_ubo.Base.Result.{ok, >>=-eq-ok, >>-eq-ok, ok-injective, err-ne-ok}
use tool_public_ubo.Config.{Config}
use tool_public_ubo.Setup.{NetworkInfo, Run}
use tool_public_ubo.Setup.Detect.{
  apply_config_ip, set_route_field, apply_route_tokens, apply_route_lines, parse_default_route,
  validate_interface, fill_ip_from_addr, detect_prefix, detect_hostname, validate_network_info,
  fill_info, detect_network, or_24, or_server,
}
use tool_public_ubo.Setup.Names.{is_valid_interface_name}
use tool_public_ubo.Setup.Topology.{
  detect_vlan, detect_bond, detect_bond_mode, detect_vlan_bond, detect_bridge, with_first,
  detect_interface_topology, only_interface,
}
use tool_public_ubo.Text.Compare.{Bytes, codes, is_empty}
use tool_public_ubo.Text.Space.{fields}

-- The address, the route and the names are the same in both.
Same : NetworkInfo → NetworkInfo → Type 0
Same x y =
    (x.interface ≡ y.interface)
    × (x.ip ≡ y.ip)
    × (x.prefix ≡ y.prefix)
    × (x.gateway ≡ y.gateway)
    × (x.hostname ≡ y.hostname)

if-Same : (b : Bool) (x y z : NetworkInfo) → Same x z → Same y z → Same (if b then x else y) z
if-Same true x y z hx hy = hx
if-Same false x y z hx hy = hy

Same-refl : (x : NetworkInfo) → Same x x
unfolding Same
Same-refl x = (refl, refl, refl, refl, refl)

Same-trans : (x y z : NetworkInfo) → Same x y → Same y z → Same x z
unfolding Same
Same-trans x y z (a, b, c, d, e) (a', b', c', d', e') = (a ∙ a', b ∙ b', c ∙ c', d ∙ d', e ∙ e')

set-Same :
    (x : NetworkInfo) (p : Bytes) (i : ℕ) (ss : List Bytes) (m : Bytes) (bs : List Bytes)
    → Same
        (record x {
          vlan_physdev = p;
          vlan_id = i;
          bond_slaves = ss;
          bond_mode = m;
          bridge_ports = bs;
        })
        x
unfolding Same
set-Same x p i ss m bs = (refl, refl, refl, refl, refl)

with_first-Same : (x : NetworkInfo) (ws : List Bytes) → Same (with_first x ws) x
unfolding Same
with_first-Same x [] = (refl, refl, refl, refl, refl)
with_first-Same x (w ∷ ws) = (refl, refl, refl, refl, refl)

detect_vlan-Same : (run : Run) (x : NetworkInfo) → Same (detect_vlan run x) x
unfolding detect_vlan
detect_vlan-Same run x = search (if-Same, set-Same, Same-refl)

detect_bond-Same : (run : Run) (x : NetworkInfo) → Same (detect_bond run x) x
unfolding detect_bond
detect_bond-Same run x = if-Same _ _ _ x (Same-refl x) (set-Same x _ _ _ _ _)

detect_bond_mode-Same : (run : Run) (x : NetworkInfo) → Same (detect_bond_mode run x) x
unfolding detect_bond_mode
detect_bond_mode-Same run x = if-Same _ _ _ x (Same-refl x) (with_first-Same x _)

detect_vlan_bond-Same : (run : Run) (x : NetworkInfo) → Same (detect_vlan_bond run x) x
unfolding detect_vlan_bond
detect_vlan_bond-Same run x = if-Same _ _ _ x (Same-refl x) (set-Same x _ _ _ _ _)

detect_bridge-Same : (run : Run) (x : NetworkInfo) → Same (detect_bridge run x) x
unfolding detect_bridge
detect_bridge-Same run x = if-Same _ _ _ x (Same-refl x) (set-Same x _ _ _ _ _)

detect_interface_topology-Same :
    (run : Run) (x : NetworkInfo) → Same (detect_interface_topology run x) x
unfolding detect_interface_topology
detect_interface_topology-Same run x =
    let a = detect_vlan run x in
    let b = detect_bond run a in
    let c = detect_bond_mode run b in
    let d = detect_vlan_bond run c in
    Same-trans _ d x (detect_bridge-Same run d) (
      Same-trans d c x (detect_vlan_bond-Same run c) (
        Same-trans c b x (detect_bond_mode-Same run b)
          (Same-trans b a x (detect_bond-Same run a) (detect_vlan-Same run x))))

or_24-pos : (n : ℕ) → 1 ≤ or_24 n
or_24-pos zero = omega arith
or_24-pos (suc n) = omega arith

or_server-ne-nil : (s : Bytes) → is_empty (or_server s) ≡ false
unfolding is_empty
or_server-ne-nil [] = refl
or_server-ne-nil (c ∷ s) = refl

detect_prefix-pos :
    (run : Run) (x : NetworkInfo) → is_empty x.ip ≡ false → 1 ≤ (detect_prefix run x).prefix
unfolding detect_prefix
detect_prefix-pos run x h = elim (Bool-cases (x.prefix == 0)) [
  | inl e ↦ rw (h, e) (or_24-pos _)
  | inr e ↦ rw (h, e) (ground arith)
]

detect_prefix-ip :
    (run : Run) (x : NetworkInfo)
    → ((detect_prefix run x).ip ≡ x.ip) × ((detect_prefix run x).interface ≡ x.interface)
unfolding detect_prefix
detect_prefix-ip run x = elim (Bool-cases (not (x.prefix == 0) || is_empty x.ip)) [
  | inl e ↦ rw e (refl, refl)
  | inr e ↦ rw e (refl, refl)
]

fill_ip_from_addr-interface :
    (run : Run) (x : NetworkInfo) → (fill_ip_from_addr run x).interface ≡ x.interface
unfolding fill_ip_from_addr
fill_ip_from_addr-interface run x = ground arith

-- The address that the steps behind `parseDefaultRoute` start from.
start : Run → NetworkInfo → NetworkInfo
start run x = if is_empty x.ip then fill_ip_from_addr run x else x

start-interface : (run : Run) (x : NetworkInfo) → (start run x).interface ≡ x.interface
unfolding start
start-interface run x = ground (arith, fill_ip_from_addr-interface run x)

fill_info-Same :
    (run : Run) (x : NetworkInfo)
    → Same (fill_info run x) (detect_hostname run (detect_prefix run (start run x)))
unfolding fill_info start
fill_info-Same run x = detect_interface_topology-Same run _

-- The fields as the last steps leave them.
fill_info-fields :
    (run : Run) (x : NetworkInfo)
    → is_empty ((fill_info run x).ip) ≡ false
    → ((fill_info run x).interface ≡ x.interface)
      × (1 ≤ (fill_info run x).prefix)
      × (is_empty ((fill_info run x).hostname) ≡ false)
unfolding Same detect_hostname
fill_info-fields run x h =
    let (i, a, p, g, n) = fill_info-Same run x in
    let (a', i') = detect_prefix-ip run (start run x) in
    let has : is_empty ((start run x).ip) ≡ false = sym (ap is_empty (a ∙ a')) ∙ h in
    (
      i ∙ i' ∙ start-interface run x,
      rw p (detect_prefix-pos run (start run x) has),
      ap is_empty n ∙ or_server-ne-nil _,
    )

set_route_field-interface :
    (x : NetworkInfo) (p v : Bytes)
    → is_empty x.interface ≡ false
    → (set_route_field x p v).interface ≡ x.interface
unfolding set_route_field
set_route_field-interface x p v h = ground arith

set_route_field-ip :
    (x : NetworkInfo) (p v : Bytes) → is_empty x.ip ≡ false → (set_route_field x p v).ip ≡ x.ip
unfolding set_route_field
set_route_field-ip x p v h = ground arith

apply_route_tokens-interface :
    (x : NetworkInfo) (parts : List Bytes)
    → is_empty x.interface ≡ false
    → (apply_route_tokens x parts).interface ≡ x.interface
unfolding apply_route_tokens
apply_route_tokens-interface x [] h = refl
apply_route_tokens-interface x (p ∷ []) h = refl
apply_route_tokens-interface x (p ∷ v ∷ parts) h =
    let same = set_route_field-interface x p v h in
    apply_route_tokens-interface (set_route_field x p v) (v ∷ parts) (ap is_empty same ∙ h) ∙ same

apply_route_lines-interface :
    (x : NetworkInfo) (lines : List Bytes)
    → is_empty x.interface ≡ false
    → (apply_route_lines x lines).interface ≡ x.interface
unfolding apply_route_lines
apply_route_lines-interface x [] h = refl
apply_route_lines-interface x (l ∷ lines) h =
    let same = apply_route_tokens-interface x (fields l) h in
    apply_route_lines-interface (apply_route_tokens x (fields l)) lines (ap is_empty same ∙ h)
    ∙ same

parse_default_route-interface :
    (run : Run) (x : NetworkInfo) {y : NetworkInfo}
    → parse_default_route run x ≡ ok y
    → is_empty x.interface ≡ false
    → y.interface ≡ x.interface
unfolding parse_default_route
parse_default_route-interface run x {y} h present =
    elim (Bool-cases ((run (codes "ip route show default")).failed)) [
      | inl e ↦ err-ne-ok (rw e at h)
      | inr e ↦
          ap (λ z. z.interface) (sym (ok-injective (rw e at h)))
          ∙ apply_route_lines-interface x _ present
    ]

apply_config_ip-interface :
    (x : NetworkInfo) (s : Bytes) {y : NetworkInfo}
    → apply_config_ip x s ≡ ok y
    → y.interface ≡ x.interface
unfolding apply_config_ip
apply_config_ip-interface x s {y} h = ground arith

-- The steps of `detectNetwork` one by one.
detect_network-steps :
    (run : Run) (c : Config) {info : NetworkInfo}
    → detect_network run c ≡ ok info
    → (x y : NetworkInfo) × (apply_config_ip (only_interface c.network.interface) c.network.ip
        ≡ ok x)
      × (parse_default_route run x ≡ ok y)
      × (validate_interface y ≡ ok tt)
      × (validate_network_info (fill_info run y) ≡ ok tt)
      × (fill_info run y ≡ info)
unfolding detect_network
detect_network-steps run c h =
    let (x, hx, h1) =
      >>=-eq-ok (apply_config_ip (only_interface c.network.interface) c.network.ip) _ h in
    let (y, hy, h2) = >>=-eq-ok (parse_default_route run x) _ h1 in
    let (hv, h3) = >>-eq-ok (validate_interface y) _ h2 in
    let (hn, h4) = >>-eq-ok (validate_network_info (fill_info run y)) _ h3 in
    (x, y, hx, hy, hv, hn, ok-injective h4)

-- What the checks let through, in any case.
pub record IsDetected (info : NetworkInfo) : Type 0 where
  pub named : is_valid_interface_name info.interface ≡ true
  pub addressed : info.ip ≢ []
  pub routed : info.gateway ≢ []
  pub sized : 1 ≤ info.prefix
  pub hosted : info.hostname ≢ []

shown : (s : Bytes) → is_empty s ≡ false → s ≢ []
unfolding is_empty
shown [] h = cc
shown (c ∷ s) h = cc

validate_network_info-fields :
    (x : NetworkInfo)
    → validate_network_info x ≡ ok tt
    → (is_empty x.ip ≡ false) × (is_empty x.gateway ≡ false)
unfolding validate_network_info
validate_network_info-fields x h = ground arith

validate_interface-name :
    (x : NetworkInfo) → validate_interface x ≡ ok tt → is_valid_interface_name x.interface ≡ true
unfolding validate_interface
validate_interface-name x h = ground arith

-- Whatever the remote host replies, a network that `detectNetwork` returns without an error has an
-- interface name that `isValidInterfaceName` accepts, an address, a gateway, a host name, and a
-- prefix length that is not 0; and an interface that the configuration names is the one returned.
pub detect_network-IsDetected :
    (run : Run) (c : Config) {info : NetworkInfo}
    → detect_network run c ≡ ok info
    → IsDetected info
      × ((is_empty c.network.interface ≡ true) ⊎ (info.interface ≡ c.network.interface))
detect_network-IsDetected run c h =
    let (x, y, hx, hy, hv, hn, e) = detect_network-steps run c h in
    let (ip, gateway) = validate_network_info-fields (fill_info run y) hn in
    let (i, p, n) = fill_info-fields run y ip in
    let from_config =
      apply_config_ip-interface (only_interface c.network.interface) c.network.ip hx in
    (
      rw (sym e) (record {
        named = ap is_valid_interface_name i ∙ validate_interface-name y hv;
        addressed = shown _ ip;
        routed = shown _ gateway;
        sized = p;
        hosted = shown _ n;
      }),
      elim (Bool-cases (is_empty c.network.interface)) [
        | inl none_given ↦ inl none_given
        | inr given ↦ inr (
            ap (λ z. z.interface) (sym e)
            ∙ i
            ∙ parse_default_route-interface run x hy (ap is_empty from_config ∙ given)
            ∙ from_config)
      ],
    )
