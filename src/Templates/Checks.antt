-- ===== src/Templates/Checks.antt =====
-- The checks of internal/templates/templates.go: `validateInitramfsScriptData`,
-- `validateScriptCIDRs`, those of `RenderDropbearConfig`, and `validateSetupScriptData`.
use tool_public_ubo.Base.{
  ℕ, List, [], ◌∷◌, ◌++◌, Bool, true, false, Option, none, some, if◌then◌else◌,
}
use tool_public_ubo.Base.Int.{ℤ, eq_ℕ}
use tool_public_ubo.Base.Result.{Result, ok, err, ◌>>◌, fail_if}
use tool_public_ubo.Net.Address.{parse_ip}
use tool_public_ubo.Net.Cidr.{parse_cidr}
use tool_public_ubo.Text.Compare.{Bytes, codes, is_empty}
use tool_public_ubo.Text.Decimal.{itoa}

pub record InitramfsScriptData : Type 0 where
  pub server_ip : Bytes
  pub static_ip : Bytes
  pub gateway_ip : Bytes
  pub interface : Bytes
  pub vlan_physdev : Bytes
  pub vlan_id : ℕ
  pub bond_slaves : Bytes
  pub bond_mode : Bytes

-- A field that is missing, or one with a bad value.
pub data FieldError : Type 0 where
  required malformed : Bytes → FieldError

abbrev is_none {ℓ} : {A : Type ℓ} → Option A → Bool
is_none none = true
is_none (some _) = false

unfoldable pub validate_script_cidrs : InitramfsScriptData → Result FieldError (Unit {0})
validate_script_cidrs d = do
  fail_if (is_empty d.server_ip) (required (codes "ServerIP"))
  fail_if (is_none (parse_cidr d.server_ip)) (malformed (codes "ServerIP"))
  fail_if (is_empty d.static_ip) (required (codes "StaticIP"))
  fail_if (is_none (parse_cidr d.static_ip)) (malformed (codes "StaticIP"))

unfoldable pub validate_initramfs_script_data : InitramfsScriptData → Result FieldError (Unit {0})
validate_initramfs_script_data d = do
  validate_script_cidrs d
  fail_if (is_empty d.gateway_ip) (required (codes "GatewayIP"))
  fail_if (is_none (parse_ip d.gateway_ip)) (malformed (codes "GatewayIP"))
  fail_if (is_empty d.interface) (required (codes "Interface"))

pub record DropbearConfigData : Type 0 where
  pub server_tunnel_ip : Bytes
  pub dropbear_port : ℤ

-- `RenderDropbearConfig` with the text that its template gives.
unfoldable pub render_dropbear_config : DropbearConfigData → Result FieldError Bytes
unfolding itoa
render_dropbear_config d = do
  fail_if (is_empty d.server_tunnel_ip) (required (codes "ServerTunnelIP"))
  fail_if (eq_ℕ d.dropbear_port 0) (required (codes "DropbearPort"))
  ok (
      codes "DROPBEAR_OPTIONS=\"-p "
      ++ (d.server_tunnel_ip ++ (codes ":" ++ (itoa d.dropbear_port ++ codes " -s -j -k\"\n"))))

pub record SetupScriptData : Type 0 where
  pub wg_server_conf : Bytes
  pub initramfs_hook : Bytes
  pub initramfs_script : Bytes
  pub authorized_keys : Bytes
  pub dropbear_conf : Bytes
  pub umask_conf : Bytes
  pub net_ip : Bytes
  pub net_gateway : Bytes
  pub net_mask : Bytes
  pub net_hostname : Bytes
  pub net_interface : Bytes
  pub grub_interface : Bytes

-- The loop over the fields: the first one that is empty is the error.
unfoldable pub first_empty : List (Bytes × Bytes) → Result FieldError (Unit {0})
first_empty [] = ok tt
first_empty ((name, val) ∷ more) =
    let rest = first_empty more in if is_empty val then err (required name) else rest

unfoldable pub validate_setup_script_data : SetupScriptData → Result FieldError (Unit {0})
validate_setup_script_data d = first_empty (
    (codes "WGServerConf", d.wg_server_conf)
    ∷ (codes "InitramfsHook", d.initramfs_hook)
    ∷ (codes "InitramfsScript", d.initramfs_script)
    ∷ (codes "AuthorizedKeys", d.authorized_keys)
    ∷ (codes "DropbearConf", d.dropbear_conf)
    ∷ (codes "UMASKConf", d.umask_conf)
    ∷ (codes "NetIP", d.net_ip)
    ∷ (codes "NetGateway", d.net_gateway)
    ∷ (codes "NetMask", d.net_mask)
    ∷ (codes "NetHostname", d.net_hostname)
    ∷ (codes "NetInterface", d.net_interface)
    ∷ (codes "GrubInterface", d.grub_interface)
    ∷ [])
