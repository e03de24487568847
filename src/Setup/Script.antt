-- ===== src/Setup/Script.antt =====
-- `buildSetupScriptData` of internal/setup/setup.go with `renderWGConfig` and `validateGrubNetFields`.
-- The texts of the hook and of the umask file, and the text that the template of the initramfs
-- script gives, are parameters.
use tool_public_ubo.Base.{
  List, [], ◌∷◌, ◌++◌, Bool, true, false, ◌&&◌, not, Option, none, some, if◌then◌else◌,
}
use tool_public_ubo.Base.Result.{Result, ok, err, ◌>>=◌, ◌>>◌, fail_if, map_err}
use tool_public_ubo.Config.{Config}
use tool_public_ubo.Config.Files.{wg_server_tunnel_ip, wg_client_tunnel_ip}
use tool_public_ubo.Keygen.{Keys}
use tool_public_ubo.Net.Address.{parse_ip}
use tool_public_ubo.Setup.{NetworkInfo}
use tool_public_ubo.Setup.Names.{is_valid_hostname}
use tool_public_ubo.Setup.Netmask.{prefix_to_netmask}
use tool_public_ubo.Setup.Topology.{is_none_of}
use tool_public_ubo.Templates.Checks.{
  InitramfsScriptData, SetupScriptData, DropbearConfigData, FieldError,
  validate_initramfs_script_data, render_dropbear_config,
}
use tool_public_ubo.Templates.WireGuard.{Missing, marshal_server}
use tool_public_ubo.Text.Compare.{Bytes, codes, is_empty}
use tool_public_ubo.Text.Decimal.{show_ℕ}

-- The names of interfaces that go into the script.
pub record Interfaces : Type 0 where
  pub initramfs : Bytes
  pub vlan_physdev : Bytes
  pub bond_slaves : Bytes
  pub grub : Bytes
  pub detection : Bytes

-- `strings.Join(names, " ")`
abbrev pub join_words : List Bytes → Bytes
join_words [] = []
join_words (w ∷ []) = w
join_words (w ∷ v ∷ ws) = w ++ b' ' ∷ join_words (v ∷ ws)

abbrev pub first_or : Bytes → List Bytes → Bytes
first_or name [] = name
first_or name (w ∷ _) = w

-- The part of the function that chooses them.
unfoldable pub choose_interfaces : NetworkInfo → Interfaces
unfolding show_ℕ
choose_interfaces info =
    let initramfs_iface = first_or info.interface info.bridge_ports in
    let bonded = not (is_none_of info.bond_slaves) in
    let vlan = not (is_empty info.vlan_physdev) in
    let slave = first_or [] info.bond_slaves in
    record {
      initramfs =
          if bonded
          then (if vlan then slave ++ (codes "." ++ show_ℕ info.vlan_id) else slave)
          else initramfs_iface;
      vlan_physdev = if bonded && vlan then slave else info.vlan_physdev;
      bond_slaves = if bonded then [] else join_words info.bond_slaves;
      grub = if bonded then slave else if vlan then info.vlan_physdev else initramfs_iface;
      detection = if bonded then (if vlan then info.interface else slave) else initramfs_iface;
    }

pub data GrubError : Type 0 where
  bad_ip bad_gateway bad_hostname : GrubError

abbrev pub no_address : Option Bytes → Bool
no_address none = true
no_address (some _) = false

unfoldable pub validate_grub_net_fields : NetworkInfo → Result GrubError (Unit {0})
validate_grub_net_fields info = do
  fail_if (no_address (parse_ip info.ip)) bad_ip
  fail_if (no_address (parse_ip info.gateway)) bad_gateway
  fail_if (not (is_valid_hostname info.hostname)) bad_hostname

-- What ends the function early: the errors that it returns, and the panic of `prefixToNetmask`.
pub data ScriptError : Type 0 where
  wire_guard : Missing → ScriptError
  initramfs_script dropbear_config : FieldError → ScriptError
  network_fields : GrubError → ScriptError
  netmask_panic : ScriptError

unfoldable pub render_wg_config : Config → Keys → Result ScriptError Bytes
render_wg_config c keys = map_err wire_guard (
    marshal_server (record {
      address = c.wireguard.server_ip;
      private_key = keys.server_wg_private;
      listen_port = c.wireguard.port;
      peer_public_key = keys.client_wg_public;
      peer_allowed_ips = wg_client_tunnel_ip c ++ codes "/32";
    }))

abbrev pub dropbear_data : Config → DropbearConfigData
dropbear_data c = record {
  server_tunnel_ip = wg_server_tunnel_ip c;
  dropbear_port = c.dropbear.port;
}

unfoldable pub script_fields : Config → NetworkInfo → InitramfsScriptData
unfolding show_ℕ
script_fields c info =
    let chosen = choose_interfaces info in
    record {
      server_ip = c.wireguard.server_ip;
      static_ip = info.ip ++ (codes "/" ++ show_ℕ info.prefix);
      gateway_ip = info.gateway;
      interface = chosen.initramfs;
      vlan_physdev = chosen.vlan_physdev;
      vlan_id = info.vlan_id;
      bond_slaves = chosen.bond_slaves;
      bond_mode = info.bond_mode;
    }

unfoldable pub netmask_of : Option Bytes → Result ScriptError Bytes
netmask_of none = err netmask_panic
netmask_of (some mask) = ok mask

-- The checks of the network in front of the values that go to GRUB, and the netmask.
unfoldable pub checked_netmask : NetworkInfo → Result ScriptError Bytes
unfolding netmask_of
checked_netmask info =
    map_err network_fields (validate_grub_net_fields info)
    >> netmask_of (prefix_to_netmask info.prefix)

module _ (hook umask_conf : Bytes) (initramfs_text : InitramfsScriptData → Bytes) where
  unfoldable pub render_initramfs_script : InitramfsScriptData → Result ScriptError Bytes
  render_initramfs_script d =
      map_err initramfs_script (validate_initramfs_script_data d >> ok (initramfs_text d))

  unfoldable pub build_setup_script_data :
      Config → Keys → NetworkInfo → Result ScriptError SetupScriptData
  build_setup_script_data c keys info = do
    wg_server_ini ← render_wg_config c keys
    init_script ← render_initramfs_script (script_fields c info)
    db_conf ← map_err dropbear_config (render_dropbear_config (dropbear_data c))
    mask ← checked_netmask info
    ok (record {
      wg_server_conf = wg_server_ini;
      initramfs_hook = hook;
      initramfs_script = init_script;
      authorized_keys = keys.client_ssh_pub_key ++ codes "\n";
      dropbear_conf = db_conf;
      umask_conf = umask_conf;
      net_ip = info.ip;
      net_gateway = info.gateway;
      net_mask = mask;
      net_hostname = info.hostname;
      net_interface = (choose_interfaces info).detection;
      grub_interface = (choose_interfaces info).grub;
    })
