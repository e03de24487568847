-- ===== src/Tests/Setup.antt =====
-- The theorems on the set-up script and on `Configure` at concrete inputs.
use tool_public_ubo.Base.{List, Option, ◌∷◌, [], some, none, false}
use tool_public_ubo.Base.Int.{pos}
use tool_public_ubo.Base.{◌≡◌, refl, false, none, some, [], if◌then◌else◌}
use tool_public_ubo.Base.Int.{eq_ℕ}
use tool_public_ubo.Base.Result.{ok}
use tool_public_ubo.Config.Files.{wg_server_tunnel_ip, wg_client_tunnel_ip}
use tool_public_ubo.Config.{default}
use tool_public_ubo.Keygen.{Keys}
use tool_public_ubo.Net.Address.{parse_ip}
use tool_public_ubo.Net.Cidr.{parse_cidr}
use tool_public_ubo.Net.Show.{show_ip}
use tool_public_ubo.Setup.Detect.{
  apply_config_ip, set_route_field, apply_route_tokens, apply_route_lines, parse_default_route,
  validate_interface, fill_ip_from_addr, detect_prefix, detect_hostname, validate_network_info,
  fill_info, detect_network,
}
use tool_public_ubo.Setup.Inet.{first_inet_addr, prefix_for_ip}
use tool_public_ubo.Setup.Names.{
  is_valid_interface_name, is_valid_hostname, is_valid_interface_char, is_valid_hostname_char,
}
use tool_public_ubo.Setup.Netmask.{prefix_to_netmask}
use tool_public_ubo.Setup.Script.{
  build_setup_script_data, render_wg_config, render_initramfs_script, script_fields,
  choose_interfaces, checked_netmask, validate_grub_net_fields, netmask_of,
}
use tool_public_ubo.Setup.Topology.{
  detect_vlan, detect_bond, detect_bond_mode, detect_vlan_bond, detect_bridge,
  detect_interface_topology, parse_vlan_link,
}
use tool_public_ubo.Text.Lines.{split}
use tool_public_ubo.Text.Space.{trim_space, fields}
use tool_public_ubo.Templates.Checks.{
  SetupScriptData, validate_initramfs_script_data, validate_script_cidrs, render_dropbear_config,
}
use tool_public_ubo.Templates.WireGuard.{marshal_server}
use tool_public_ubo.Text.Compare.{Bytes, codes, equal, is_empty}
use tool_public_ubo.Setup.Configure.{
  configure, build_data, remote_steps, run_setup_script, ran_script, parse_setup_result, json_line,
  key_of, saved, save_pinned_key,
}
use tool_public_ubo.Setup.Output.{parse_setup_result-last}
use tool_public_ubo.Setup.Finished.{IsConfigured, IsPinnedKey, configure-IsConfigured}
use tool_public_ubo.Remote.Client.{Client, ssh_args, sudo_cmd, sudo_stdin}
use tool_public_ubo.Remote.Process.{
  Ssh, Invocation, Exit, success, exit_error, run_command, command_of, write_file, write_cmd,
}
use tool_public_ubo.System.Disk.{Disk}
use tool_public_ubo.System.Disk
use tool_public_ubo.Templates.Checks.{validate_setup_script_data, first_empty}
use tool_public_ubo.Templates.Initramfs.{script_text}
use tool_public_ubo.Templates.SetupScript.{render_setup_script}
use tool_public_ubo.Text.Compare.{has_prefix}

abbrev last_of : List Bytes → Bytes
last_of [] = []
last_of (a ∷ []) = a
last_of (a ∷ b ∷ rest) = last_of (b ∷ rest)

abbrev answer : Bytes → Exit
answer out = record { status = success; stdout = out; stderr = []; combined = [] }

-- A host that answers the commands of the set-up and fails on the others; the command is the last argument.
abbrev pub host_exits : Invocation → Exit
host_exits i =
    if equal (last_of i.args) (codes "ip route show default")
    then answer (codes "default via 10.0.0.1 dev eth0 src 10.0.0.7\n")
    else if equal (last_of i.args) (codes "ip -4 addr show dev eth0")
    then answer (codes "inet 10.0.0.7/25 x")
    else if equal (last_of i.args) (codes "hostname")
    then answer (codes "box\n")
    else if equal (last_of i.args)
        (codes "mkdir -p '/tmp' && cat > '/tmp/ubo-setup.sh' && chmod 700 '/tmp/ubo-setup.sh'")
    then answer []
    else if equal (last_of i.args) (codes "sh /tmp/ubo-setup.sh")
    then answer (codes "done\n{\"dropbear_pub_key\":\"ssh-ed25519 K\"}\n")
    else record { status = exit_error; stdout = []; stderr = []; combined = [] }

abbrev pub host : Ssh
host = record { exits = host_exits; host_key_file = λ _ _. none }

abbrev client : Client
client = record {
  host = codes "h";
  port = pos 22;
  user = codes "root";
  key_path = [];
  proxy_jump = [];
  sudo = false;
  sudo_password = [];
  known_hosts_file = [];
  strict_mode = codes "yes";
  temp_known_hosts = [];
}

abbrev pub unmarshal : Bytes → Option Bytes
unmarshal line = some (codes "ssh-ed25519 K")

abbrev keys : Keys
keys = record {
  server_wg_private = codes "A=";
  client_wg_public = codes "B=";
  client_ssh_pub_key = codes "ssh-ed25519 C";
  server_wg_public = [];
  client_wg_private = [];
  client_ssh_key_path = [];
}

abbrev empty_disk : Disk
empty_disk = record {
  files = λ _. none;
  unreadable = λ _. false;
  unwritable = λ _. false;
  leftover = λ _. none;
  fixed = λ _. false;
}

configured : (configure unmarshal host client default keys (codes "out") empty_disk).1 ≡ ok tt
unfolding detect_network apply_config_ip parse_default_route apply_route_lines apply_route_tokens
    set_route_field validate_interface fill_ip_from_addr detect_prefix detect_hostname
    validate_network_info fill_info detect_vlan detect_bond detect_bond_mode detect_vlan_bond
    detect_bridge detect_interface_topology parse_vlan_link split trim_space fields is_empty equal
    prefix_for_ip first_inet_addr is_valid_interface_name is_valid_interface_char parse_cidr show_ip
    build_setup_script_data render_wg_config marshal_server render_initramfs_script script_fields
    choose_interfaces validate_initramfs_script_data validate_script_cidrs render_dropbear_config
    checked_netmask validate_grub_net_fields netmask_of prefix_to_netmask is_valid_hostname
    is_valid_hostname_char parse_ip wg_server_tunnel_ip wg_client_tunnel_ip eq_ℕ configure
    build_data remote_steps run_setup_script ran_script parse_setup_result json_line key_of saved
    save_pinned_key run_command command_of ssh_args sudo_cmd sudo_stdin render_setup_script
    validate_setup_script_data first_empty has_prefix write_file script_text write_cmd
    Disk.write_file
configured = refl

configure_example :
    (done : IsConfigured unmarshal host client default keys) × IsPinnedKey
      (configure unmarshal host client default keys (codes "out") empty_disk).0
      (codes "out")
      done.key
configure_example =
    configure-IsConfigured unmarshal host client default keys (codes "out") empty_disk refl
      configured

abbrev values : SetupScriptData
values = record {
  wg_server_conf = codes "'; $(reboot)";
  initramfs_hook = codes "hook";
  initramfs_script = codes "script";
  authorized_keys = codes "ssh-ed25519 C\n";
  dropbear_conf = codes "-s";
  umask_conf = codes "umask";
  net_ip = codes "10.0.0.7";
  net_gateway = codes "10.0.0.1";
  net_mask = codes "255.255.255.128";
  net_hostname = codes "box";
  net_interface = codes "eth0";
  grub_interface = codes "eth0";
}

abbrev output : Bytes
output = codes "step {1}\n {\"a\":1}\ndone"

parse_setup_result-last_example :
    parse_setup_result unmarshal output ≡ key_of (unmarshal (trim_space (codes " {\"a\":1}")))
unfolding split has_prefix trim_space
parse_setup_result-last_example =
    parse_setup_result-last unmarshal output (codes " {\"a\":1}") (codes "step {1}" ∷ [])
      (codes "done" ∷ []) refl refl (refl, tt)
