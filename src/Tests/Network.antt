-- ===== src/Tests/Network.antt =====
-- The theorems on the network and on the WireGuard files at concrete inputs.
use tool_public_ubo.Base.{
  ◌≡◌, ◌⊎◌, ◌≤◌, ◌+◌, ◌-◌, ◌^◌, refl, true, false, none, some, [], arith, if◌then◌else◌,
}
use tool_public_ubo.Base.Int.{eq_ℕ}
use tool_public_ubo.Base.Result.{ok}
use tool_public_ubo.Config.Files.{wg_server_tunnel_ip, wg_client_tunnel_ip}
use tool_public_ubo.Config.{default}
use tool_public_ubo.Keygen.{Keys}
use tool_public_ubo.Net.Address.{parse_ip, parse_ipv4}
use tool_public_ubo.Net.Cidr.{parse_cidr}
use tool_public_ubo.Net.Show.{show_ip}
use tool_public_ubo.Rootless.Parse.{parse_text}
use tool_public_ubo.Rootless.RoundTrip.{IsWritable, read_back, parse_text-marshal_client}
use tool_public_ubo.Setup.{NetworkInfo, Run}
use tool_public_ubo.Setup.Built.{IsGrubReady, build_setup_script_data-IsGrubReady}
use tool_public_ubo.Setup.Detect.{
  apply_config_ip, set_route_field, apply_route_tokens, apply_route_lines, parse_default_route,
  validate_interface, fill_ip_from_addr, detect_prefix, detect_hostname, validate_network_info,
  fill_info, detect_network,
}
use tool_public_ubo.Setup.Detected.{IsDetected, detect_network-IsDetected}
use tool_public_ubo.Setup.Inet.{first_inet_addr, prefix_for_ip}
use tool_public_ubo.Setup.Names.{
  is_valid_interface_name, is_valid_hostname, is_valid_interface_char, is_valid_hostname_char,
}
use tool_public_ubo.Setup.Netmask.{prefix_to_netmask, prefix_to_netmask-value, value_of}
use tool_public_ubo.Setup.Script.{
  build_setup_script_data, render_wg_config, render_initramfs_script, script_fields,
  choose_interfaces, checked_netmask, validate_grub_net_fields, netmask_of,
}
use tool_public_ubo.Setup.Topology.{
  detect_vlan, detect_bond, detect_bond_mode, detect_vlan_bond, detect_bridge,
  detect_interface_topology, parse_vlan_link,
}
use tool_public_ubo.Text.Lines.{split}
use tool_public_ubo.Text.Space.{trim_space, fields}
use tool_public_ubo.Templates.Checks.{
  SetupScriptData, InitramfsScriptData, validate_initramfs_script_data, validate_script_cidrs,
  render_dropbear_config,
}
use tool_public_ubo.Templates.WireGuard.{
  WireGuardClientConfig, marshal_client, client_text, marshal_server,
}
use tool_public_ubo.Text.Compare.{Bytes, codes, equal, is_empty}

abbrev client : WireGuardClientConfig
client = record {
  private_key = codes "aGVsbG8=";
  address = codes "10.42.0.2/32";
  server_public_key = codes "d29ybGQ=";
  server_endpoint = codes "203.0.113.5:51820";
  allowed_ips = codes "10.42.0.1/32";
}

writable : IsWritable client
unfolding is_empty
writable = record {
  private_key = record { present = refl; graphic = omega arith; short = omega arith };
  address = record { present = refl; graphic = omega arith; short = omega arith };
  server_public_key = record { present = refl; graphic = omega arith; short = omega arith };
  server_endpoint = record { present = refl; graphic = omega arith; short = omega arith };
  allowed_ips = record { present = refl; graphic = omega arith; short = omega arith };
}

parse_text-marshal_client_example :
    (marshal_client client ≡ ok (client_text client))
    × (parse_text (client_text client) ≡ ok (read_back client))
parse_text-marshal_client_example = parse_text-marshal_client client writable

prefix_to_netmask-value_example :
    ((24 ≤ 32)
      × (text : Bytes) × (bytes : Bytes) × (prefix_to_netmask 24 ≡ some text)
      × (parse_ipv4 text ≡ some bytes)
      × (value_of bytes + 2 ^ (32 - 24) ≡ 2 ^ 32))
    ⊎ ((33 ≤ 24) × (prefix_to_netmask 24 ≡ none))
prefix_to_netmask-value_example = prefix_to_netmask-value 24

-- A host that answers the three commands of the detection and fails on the others.
abbrev answers : Run
answers command =
    if equal command (codes "ip route show default")
    then record { out = codes "default via 10.0.0.1 dev eth0 src 10.0.0.7\n"; failed = false }
    else if equal command (codes "ip -4 addr show dev eth0")
    then record { out = codes "inet 10.0.0.7/25 x"; failed = false }
    else if equal command (codes "hostname")
    then record { out = codes "box\n"; failed = false }
    else record { out = []; failed = true }

abbrev found : NetworkInfo
found = record {
  interface = codes "eth0";
  ip = codes "10.0.0.7";
  prefix = 25;
  gateway = codes "10.0.0.1";
  hostname = codes "box";
  vlan_physdev = [];
  vlan_id = 0;
  bond_slaves = [];
  bond_mode = [];
  bridge_ports = [];
}

detected : detect_network answers default ≡ ok found
unfolding detect_network apply_config_ip parse_default_route apply_route_lines apply_route_tokens
    set_route_field validate_interface fill_ip_from_addr detect_prefix detect_hostname
    validate_network_info fill_info detect_vlan detect_bond detect_bond_mode detect_vlan_bond
    detect_bridge detect_interface_topology parse_vlan_link split trim_space fields is_empty equal
    prefix_for_ip first_inet_addr is_valid_interface_name is_valid_interface_char parse_cidr show_ip
detected = refl

detect_network-IsDetected_example :
    IsDetected found
    × ((is_empty (default.network.interface) ≡ true)
        ⊎ (found.interface ≡ default.network.interface))
detect_network-IsDetected_example = detect_network-IsDetected answers default detected

abbrev keys : Keys
keys = record {
  server_wg_private = codes "A=";
  client_wg_public = codes "B=";
  client_ssh_pub_key = codes "ssh-ed25519 C";
  server_wg_public = [];
  client_wg_private = [];
  client_ssh_key_path = [];
}

abbrev data_of : Bytes → SetupScriptData
data_of ini = record {
  wg_server_conf = ini;
  initramfs_hook = codes "hook";
  initramfs_script = codes "script";
  authorized_keys = codes "ssh-ed25519 C\n";
  dropbear_conf = codes "DROPBEAR_OPTIONS=\"-p 10.42.0.1:22 -s -j -k\"\n";
  umask_conf = codes "umask";
  net_ip = codes "10.0.0.7";
  net_gateway = codes "10.0.0.1";
  net_mask = codes "255.255.255.128";
  net_hostname = codes "box";
  net_interface = codes "eth0";
  grub_interface = codes "eth0";
}

abbrev server_ini : Bytes
server_ini =
    codes
      "[Interface]\nPrivateKey = A=\nListenPort = 51820\n\n[Peer]\nPublicKey = B=\nAllowedIPs = 10.42.0.2/32\nPersistentKeepalive = 25\n"

abbrev script_text : InitramfsScriptData → Bytes
script_text d = codes "script"

built :
    build_setup_script_data (codes "hook") (codes "umask") script_text default keys found
    ≡ ok (data_of server_ini)
unfolding build_setup_script_data render_wg_config marshal_server render_initramfs_script
    script_fields choose_interfaces validate_initramfs_script_data validate_script_cidrs
    render_dropbear_config checked_netmask validate_grub_net_fields netmask_of prefix_to_netmask
    is_valid_hostname is_valid_hostname_char is_empty parse_ip parse_cidr wg_server_tunnel_ip
    wg_client_tunnel_ip eq_ℕ show_ip
built = refl

build_setup_script_data_example : IsGrubReady found (data_of server_ini)
build_setup_script_data_example =
    build_setup_script_data-IsGrubReady (codes "hook") (codes "umask") script_text default keys
      found built
