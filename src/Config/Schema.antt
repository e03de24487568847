-- ===== src/Config/Schema.antt =====
-- The field setters, `schema` and `assign` of internal/config/toml.go. A setter's pointer into the
-- configuration is the function that writes the field.
use tool_public_ubo.Base.{Bool, ◌||◌, not, List, [], ◌∷◌, if◌then◌else◌, Option, none, some}
use tool_public_ubo.Base.Int.{ℤ}
use tool_public_ubo.Base.Result.{Result, ok, err}
use tool_public_ubo.Config.Put
use tool_public_ubo.Config.{Config}
use tool_public_ubo.Config.Value.{
  Error, expects_string, expects_integer, expects_boolean, unknown_section, unknown_key,
  unknown_key_in, TomlValue,
}
use tool_public_ubo.Text.Compare.{Bytes, codes, equal, is_empty}

abbrev pub FieldSetter : Type 0
FieldSetter = Config → Bytes → Bytes → TomlValue → Result Error Config

unfoldable pub string_field : (Config → Bytes → Config) → FieldSetter
string_field put cfg section key v =
    if v.is_int || v.is_bool then err (expects_string section key) else ok (put cfg v.str)

unfoldable pub int_field : (Config → ℤ → Config) → FieldSetter
int_field put cfg section key v =
    if not v.is_int then err (expects_integer section key) else ok (put cfg v.i)

unfoldable pub bool_field : (Config → Bool → Config) → FieldSetter
bool_field put cfg section key v =
    if not v.is_bool then err (expects_boolean section key) else ok (put cfg v.b)

-- A Go map with string keys, as an association list.
abbrev pub Table : Type 0 → Type 0
Table V = List (Bytes × V)

unfoldable pub find {ℓ} : {V : Type ℓ} → Bytes → List (Bytes × V) → Option V
unfolding equal
find k [] = none
find k ((j, v) ∷ m) = if equal j k then some v else find k m

unfoldable pub schema : Table (Table FieldSetter)
unfolding string_field int_field bool_field
schema =
    ([], (codes "host", string_field Put.host) ∷ [])
    ∷ (
      codes "ssh",
      (codes "user", string_field Put.ssh_user)
          ∷ (codes "port", int_field Put.ssh_port)
          ∷ (codes "key", string_field Put.ssh_key)
          ∷ (codes "sudo", bool_field Put.ssh_sudo)
          ∷ (codes "proxy_jump", string_field Put.ssh_proxy_jump)
          ∷ [],
    )
    ∷ (
      codes "wireguard",
      (codes "port", int_field Put.wireguard_port)
          ∷ (codes "server_ip", string_field Put.wireguard_server_ip)
          ∷ (codes "client_ip", string_field Put.wireguard_client_ip)
          ∷ [],
    )
    ∷ (codes "dropbear", (codes "port", int_field Put.dropbear_port) ∷ [])
    ∷ (codes "output", (codes "dir", string_field Put.output_dir) ∷ [])
    ∷ (
      codes "network",
      (codes "interface", string_field Put.network_interface)
          ∷ (codes "ip", string_field Put.network_ip)
          ∷ [],
    )
    ∷ (codes "luks", (codes "device", string_field Put.luks_device) ∷ [])
    ∷ []

unfoldable pub unknown_key_error : Bytes → Bytes → Error
unknown_key_error section key =
    if is_empty section then unknown_key key else unknown_key_in key section

-- `keys[key]` and the call of the setter.
set_key : Option FieldSetter → FieldSetter
set_key none cfg section key v = err (unknown_key_error section key)
set_key (some set) cfg section key v = set cfg section key v

-- `schema[section]` and what follows.
set_in : Option (Table FieldSetter) → FieldSetter
unfolding set_key find
set_in none cfg section key v = err (unknown_section section)
set_in (some keys) cfg section key v = set_key (find key keys) cfg section key v

unfoldable pub assign : FieldSetter
unfolding set_in schema find
assign cfg section key v = set_in (find section schema) cfg section key v
