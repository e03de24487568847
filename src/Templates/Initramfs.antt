-- ===== src/Templates/Initramfs.antt =====
-- `InitramfsScriptTmpl` of internal/templates/templates.go and what the template package makes of it. An `if` of the template is a
-- choice between lists of parts; the marks that trim white space are carried out in the texts.
use tool_public_ubo.Base.{List, [], ◌∷◌, ◌++◌, ◌&&◌, not, if◌then◌else◌}
use tool_public_ubo.Templates.Checks.{InitramfsScriptData}
use tool_public_ubo.Templates.Render.{Part, text, hole, render}
use tool_public_ubo.Text.Compare.{Bytes, codes, is_empty}
use tool_public_ubo.Text.Decimal.{show_ℕ}

pub data ScriptField : Type 0 where
  server_ip static_ip gateway_ip interface vlan_physdev vlan_id bond_slaves bond_mode : ScriptField

abbrev pub script_value : InitramfsScriptData → ScriptField → Bytes
script_value d server_ip = d.server_ip
script_value d static_ip = d.static_ip
script_value d gateway_ip = d.gateway_ip
script_value d interface = d.interface
script_value d vlan_physdev = d.vlan_physdev
script_value d vlan_id = show_ℕ d.vlan_id
script_value d bond_slaves = d.bond_slaves
script_value d bond_mode = d.bond_mode

abbrev head : List (Part ScriptField)
head =
    text (codes "#!/bin/sh\n")
    ∷ text (codes "PREREQ=\"udev\"\n")
    ∷ text (codes "prereqs() { echo \"$PREREQ\"; }\n")
    ∷ text (codes "case \"$1\" in prereqs) prereqs; exit 0;; esac\n")
    ∷ text (codes "set -e")
    ∷ []

abbrev vlan_bond : List (Part ScriptField)
vlan_bond =
    text (codes "\n")
    ∷ text (codes "# VLAN on top of a bond: create bond, set mode, enslave NICs, then add VLAN.\n")
    ∷ text (codes "modprobe bonding 2>/dev/null || true\n")
    ∷ text (codes "modprobe 8021q 2>/dev/null || true\n")
    ∷ text (codes "ip link add name \"")
    ∷ hole vlan_physdev
    ∷ text (codes "\" type bond 2>/dev/null || true")
    ∷ []

abbrev vlan_bond_mode : List (Part ScriptField)
vlan_bond_mode =
    text (codes "\n")
    ∷ text (codes "echo \"")
    ∷ hole bond_mode
    ∷ text (codes "\" > /sys/class/net/\"")
    ∷ hole vlan_physdev
    ∷ text (codes "\"/bonding/mode 2>/dev/null || true")
    ∷ []

abbrev vlan_bond_slaves : List (Part ScriptField)
vlan_bond_slaves =
    text (codes "\n")
    ∷ text (codes "for _slave in ")
    ∷ hole bond_slaves
    ∷ text (codes "; do\n")
    ∷ text (codes "    ip link set dev \"$_slave\" down 2>/dev/null || true\n")
    ∷ text (codes "    ip link set dev \"$_slave\" master \"")
    ∷ hole vlan_physdev
    ∷ text (codes "\" 2>/dev/null || true\n")
    ∷ text (codes "done\n")
    ∷ text (codes "ip link set dev \"")
    ∷ hole vlan_physdev
    ∷ text (codes "\" up\n")
    ∷ text (codes "ip link add link \"")
    ∷ hole vlan_physdev
    ∷ text (codes "\" name \"")
    ∷ hole interface
    ∷ text (codes "\" type vlan id ")
    ∷ hole vlan_id
    ∷ text (codes " 2>/dev/null || true\n")
    ∷ text (codes "IFACE=\"")
    ∷ hole interface
    ∷ text (codes "\"")
    ∷ []

abbrev vlan : List (Part ScriptField)
vlan =
    text (codes "\n")
    ∷ text
        (codes "# VLAN interface: bring up the physical NIC, flush its IP (may have been set by\n")
    ∷ text (codes "# the kernel's ip= GRUB param to the same CIDR as the VLAN interface, which\n")
    ∷ text (codes "# would conflict), then create the VLAN on top.\n")
    ∷ text (codes "modprobe 8021q 2>/dev/null || true\n")
    ∷ text (codes "ip link set dev \"")
    ∷ hole vlan_physdev
    ∷ text (codes "\" up\n")
    ∷ text (codes "ip addr flush dev \"")
    ∷ hole vlan_physdev
    ∷ text (codes "\" 2>/dev/null || true\n")
    ∷ text (codes "ip link add link \"")
    ∷ hole vlan_physdev
    ∷ text (codes "\" name \"")
    ∷ hole interface
    ∷ text (codes "\" type vlan id ")
    ∷ hole vlan_id
    ∷ text (codes " 2>/dev/null || true\n")
    ∷ text (codes "IFACE=\"")
    ∷ hole interface
    ∷ text (codes "\"")
    ∷ []

abbrev bond : List (Part ScriptField)
bond =
    text (codes "\n")
    ∷ text (codes "# Bond interface: create bond, set mode, then enslave the physical NICs.\n")
    ∷ text (codes "modprobe bonding 2>/dev/null || true\n")
    ∷ text (codes "ip link add name \"")
    ∷ hole interface
    ∷ text (codes "\" type bond 2>/dev/null || true")
    ∷ []

abbrev bond_mode_line : List (Part ScriptField)
bond_mode_line =
    text (codes "\n")
    ∷ text (codes "echo \"")
    ∷ hole bond_mode
    ∷ text (codes "\" > /sys/class/net/\"")
    ∷ hole interface
    ∷ text (codes "\"/bonding/mode 2>/dev/null || true")
    ∷ []

abbrev bond_slave_lines : List (Part ScriptField)
bond_slave_lines =
    text (codes "\n")
    ∷ text (codes "for _slave in ")
    ∷ hole bond_slaves
    ∷ text (codes "; do\n")
    ∷ text (codes "    ip link set dev \"$_slave\" down 2>/dev/null || true\n")
    ∷ text (codes "    ip link set dev \"$_slave\" master \"")
    ∷ hole interface
    ∷ text (codes "\" 2>/dev/null || true\n")
    ∷ text (codes "done\n")
    ∷ text (codes "IFACE=\"")
    ∷ hole interface
    ∷ text (codes "\"")
    ∷ []

abbrev plain_nic : List (Part ScriptField)
plain_nic =
    text (codes "\n")
    ∷ text (codes "# Plain NIC. Predictable names (e.g. enp1s0) need udev rules that may not be\n")
    ∷ text
        (codes "# present in initramfs; fall back to the first non-loopback Ethernet interface\n")
    ∷ text (codes "# found in /sys/class/net if the configured name is not visible.\n")
    ∷ text (codes "IFACE=\"")
    ∷ hole interface
    ∷ text (codes "\"\n")
    ∷ text (codes "if ! ip link show dev \"$IFACE\" >/dev/null 2>&1; then\n")
    ∷ text (codes "    for _dev in /sys/class/net/*; do\n")
    ∷ text (codes "        _n=$(basename \"$_dev\")\n")
    ∷ text (codes "        [ \"$_n\" = \"lo\" ] && continue\n")
    ∷ text (codes "        [ \"$(cat \"$_dev/type\" 2>/dev/null)\" = \"1\" ] || continue\n")
    ∷ text (codes "        IFACE=\"$_n\"; break\n")
    ∷ text (codes "    done\n")
    ∷ text (codes "fi")
    ∷ []

abbrev last : List (Part ScriptField)
last =
    text (codes "\n")
    ∷ text (codes "\n")
    ∷ text (codes "ip link set dev \"$IFACE\" up\n")
    ∷ text (codes "ip addr add ")
    ∷ hole static_ip
    ∷ text (codes " dev \"$IFACE\" 2>/dev/null || true\n")
    ∷ text (codes "# Remove any stale default route installed by the kernel via the ip= GRUB\n")
    ∷ text (codes "# parameter (e.g. default via a slave NIC after bond creation, or via the\n")
    ∷ text (codes "# physical NIC for a VLAN). Then install the correct route via the initramfs\n")
    ∷ text
        (codes "# interface so WireGuard traffic reaches the gateway through the right device.\n")
    ∷ text (codes "ip route del default 2>/dev/null || true\n")
    ∷ text (codes "if ! ip route add default via ")
    ∷ hole gateway_ip
    ∷ text (codes " dev \"$IFACE\" 2>/dev/null; then\n")
    ∷ text (codes "    ip route add ")
    ∷ hole gateway_ip
    ∷ text (codes "/32 dev \"$IFACE\" onlink 2>/dev/null || true\n")
    ∷ text (codes "    ip route add default via ")
    ∷ hole gateway_ip
    ∷ text (codes " dev \"$IFACE\" 2>/dev/null || true\n")
    ∷ text (codes "fi\n")
    ∷ text (codes "\n")
    ∷ text (codes "modprobe wireguard 2>/dev/null || true\n")
    ∷ text (codes "ip link del dev wg0 2>/dev/null || true\n")
    ∷ text (codes "ip link add dev wg0 type wireguard\n")
    ∷ text (codes "ip addr add ")
    ∷ hole server_ip
    ∷ text (codes " dev wg0\n")
    ∷ text (codes "wg setconf wg0 /etc/wireguard/wg-initramfs.conf\n")
    ∷ text (codes "ip link set dev wg0 up\n")
    ∷ []

-- A field that is not empty is true for an `if`.
unfoldable pub topology_parts : InitramfsScriptData → List (Part ScriptField)
topology_parts d =
    let has_vlan = not (is_empty d.vlan_physdev) in
    let has_slaves = not (is_empty d.bond_slaves) in
    let has_mode = not (is_empty d.bond_mode) in
    if has_vlan && has_slaves
    then vlan_bond ++ ((if has_mode then vlan_bond_mode else []) ++ vlan_bond_slaves)
    else if has_vlan
    then vlan
    else if has_slaves
    then bond ++ ((if has_mode then bond_mode_line else []) ++ bond_slave_lines)
    else plain_nic

unfoldable pub script_text : InitramfsScriptData → Bytes
unfolding topology_parts render
script_text d = render (script_value d) (head ++ (topology_parts d ++ last))
