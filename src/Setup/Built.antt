-- ===== src/Setup/Built.antt =====
-- What `buildSetupScriptData` of internal/setup/setup.go returns when it returns no error.
use mathlib.Core.Option.{some-injective}
use tool_public_ubo.Base.{
  ℕ, ◌+◌, ◌-◌, ◌^◌, ◌≤◌, true, false, Option, none, some, ◌≡◌, refl, sym, ap, ◌∙◌, arith, inl, inr,
  All, length,
}
use tool_public_ubo.Base.Result.{
  ok, map_err, >>=-eq-ok, >>-eq-ok, ok-injective, err-ne-ok, map_err-ok,
}
use tool_public_ubo.Config.{Config}
use tool_public_ubo.Keygen.{Keys}
use tool_public_ubo.Net.Address.{parse_ip, parse_ipv4}
use tool_public_ubo.Setup.{NetworkInfo}
use tool_public_ubo.Setup.Names.{is_valid_hostname, is_valid_hostname-All, IsHostChar}
use tool_public_ubo.Setup.Netmask.{prefix_to_netmask, prefix_to_netmask-value, value_of}
use tool_public_ubo.Setup.Script.{
  choose_interfaces, validate_grub_net_fields, no_address, build_setup_script_data, network_fields,
  render_wg_config, render_initramfs_script, script_fields, netmask_of, checked_netmask,
  dropbear_data, dropbear_config,
}
use tool_public_ubo.Templates.Checks.{SetupScriptData, InitramfsScriptData, render_dropbear_config}
use tool_public_ubo.Text.Compare.{Bytes}

-- The words of the kernel parameter ip=<ip>::<gateway>:<netmask>:<hostname>:<interface>:none.
pub record IsGrubReady (info : NetworkInfo) (s : SetupScriptData) : Type 0 where
  pub ip : (s.net_ip ≡ info.ip) × ((a : Bytes) × (parse_ip s.net_ip ≡ some a))
  pub gateway : (s.net_gateway ≡ info.gateway) × ((a : Bytes) × (parse_ip s.net_gateway ≡ some a))
  pub hostname :
      (s.net_hostname ≡ info.hostname)
      × (length s.net_hostname ≤ 63)
      × All IsHostChar s.net_hostname
  pub prefix : info.prefix ≤ 32
  pub mask :
      (bytes : Bytes) × (parse_ipv4 s.net_mask ≡ some bytes)
      × (value_of bytes + 2 ^ (32 - info.prefix) ≡ 2 ^ 32)
  pub grub : s.grub_interface ≡ (choose_interfaces info).grub

has_address : (o : Option Bytes) → no_address o ≡ false → (a : Bytes) × (o ≡ some a)
has_address none h = absurd cc
has_address (some a) h = (a, refl)

validate_grub_net_fields-fields :
    (info : NetworkInfo)
    → validate_grub_net_fields info ≡ ok tt
    → (no_address (parse_ip info.ip) ≡ false)
      × (no_address (parse_ip info.gateway) ≡ false)
      × (is_valid_hostname info.hostname ≡ true)
unfolding validate_grub_net_fields
validate_grub_net_fields-fields info h = ground arith

netmask_of-ok : (o : Option Bytes) {m : Bytes} → netmask_of o ≡ ok m → o ≡ some m
unfolding netmask_of
netmask_of-ok none h = err-ne-ok h
netmask_of-ok (some m) h = ap some (ok-injective h)

mask-value :
    (prefix : ℕ) (text : Bytes)
    → prefix_to_netmask prefix ≡ some text
    → (prefix ≤ 32)
      × ((bytes : Bytes) × (parse_ipv4 text ≡ some bytes)
          × (value_of bytes + 2 ^ (32 - prefix) ≡ 2 ^ 32))
mask-value prefix text h = elim (prefix_to_netmask-value prefix) [
  | inl (le, t, bytes, e, read, value) ↦
      (le, (bytes, ap parse_ipv4 (some-injective _ _ (sym h ∙ e)) ∙ read, value))
  | inr (gt, e) ↦ absurd (let both = sym h ∙ e in cc)
]

checked_netmask-fields :
    (info : NetworkInfo) {mask : Bytes}
    → checked_netmask info ≡ ok mask
    → (validate_grub_net_fields info ≡ ok tt) × (prefix_to_netmask info.prefix ≡ some mask)
unfolding checked_netmask
checked_netmask-fields info h =
    let (v, m) = >>-eq-ok (map_err network_fields (validate_grub_net_fields info)) _ h in
    (map_err-ok network_fields _ v, netmask_of-ok _ m)

-- Whatever the templates give, the data that `buildSetupScriptData` returns without an error has an
-- address and a gateway that parse, a host name of 63 bytes at most made of ASCII
-- letters, digits, dashes and dots, and the netmask of a prefix of 32 bits at most. With a
-- longer prefix it never returns data.
pub build_setup_script_data-IsGrubReady :
    (hook umask_conf : Bytes) (text : InitramfsScriptData → Bytes) (c : Config) (keys : Keys)
    (info : NetworkInfo) {s : SetupScriptData}
    → build_setup_script_data hook umask_conf text c keys info ≡ ok s
    → IsGrubReady info s
unfolding build_setup_script_data
build_setup_script_data-IsGrubReady hook umask_conf text c keys info h =
    let (ini, _, h1) = >>=-eq-ok (render_wg_config c keys) _ h in
    let (script, _, h2) =
      >>=-eq-ok (render_initramfs_script hook umask_conf text (script_fields c info)) _ h1 in
    let (db, _, h3) =
      >>=-eq-ok (map_err dropbear_config (render_dropbear_config (dropbear_data c))) _ h2 in
    let (mask, checked, h4) = >>=-eq-ok (checked_netmask info) _ h3 in
    let (fields, m) = checked_netmask-fields info checked in
    let (ip, gateway, name) = validate_grub_net_fields-fields info fields in
    let (short, _, plain) = is_valid_hostname-All info.hostname name in
    let (small, value) = mask-value info.prefix mask m in
    rw (sym (ok-injective h4)) (record {
      ip = (refl, has_address _ ip);
      gateway = (refl, has_address _ gateway);
      hostname = (refl, short, plain);
      prefix = small;
      mask = value;
      grub = refl;
    })
