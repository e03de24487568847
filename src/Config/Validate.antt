-- ===== src/Config/Validate.antt =====
-- `Validate` of internal/config/config.go and the checks that it runs.
use tool_public_ubo.Base.{
  ℕ, Bool, true, false, ◌&&◌, ◌||◌, not, [], ◌∷◌, ◌==◌, within, if◌then◌else◌, none, some,
}
use tool_public_ubo.Base.Int.{ℤ, le_ℕ}
use tool_public_ubo.Base.Result.{Result, ok, err, ◌>>=◌, ◌>>◌, fail_if}
use tool_public_ubo.Config.{Config}
use tool_public_ubo.Net.Cidr.{Cidr, parse_cidr, contains}
use tool_public_ubo.Text.Compare.{Bytes, codes, equal, is_empty, strip_prefix}

pub data Invalid : Type 0 where
  host_required user_required : Invalid
  port_range : Bytes → Invalid
  server_ip_cidr client_ip_cidr same_address : Invalid
  outside_network luks_device : Bytes → Invalid

unfoldable pub validate_host : Config → Result Invalid (Unit {0})
validate_host c = fail_if (is_empty c.host) host_required

unfoldable pub validate_port : Bytes → ℤ → Result Invalid (Unit {0})
validate_port name port = fail_if (le_ℕ port 0 || not (le_ℕ port 65535)) (port_range name)

unfoldable pub validate_ssh : Config → Result Invalid (Unit {0})
validate_ssh c = do
  fail_if (is_empty c.ssh.user) user_required
  validate_port (codes "ssh.port") c.ssh.port

-- `net.ParseCIDR` with the error that the callers make of its own.
unfoldable pub need_cidr : Invalid → Bytes → Result Invalid Cidr
need_cidr e s = elim (parse_cidr s) [ none ↦ err e | some x ↦ ok x ]

unfoldable pub validate_tunnel_topology : Config → Result Invalid (Unit {0})
unfolding need_cidr
validate_tunnel_topology c = do
  server ← need_cidr server_ip_cidr c.wireguard.server_ip
  client ← need_cidr client_ip_cidr c.wireguard.client_ip
  fail_if (equal server.ip client.ip) same_address
  fail_if (not (contains server.net client.ip)) (outside_network c.wireguard.client_ip)

unfoldable pub validate_wire_guard : Config → Result Invalid (Unit {0})
validate_wire_guard c = do
  validate_port (codes "wireguard.port") c.wireguard.port
  _ ← need_cidr server_ip_cidr c.wireguard.server_ip
  _ ← need_cidr client_ip_cidr c.wireguard.client_ip
  validate_tunnel_topology c

unfoldable pub validate_dropbear : Config → Result Invalid (Unit {0})
validate_dropbear c = validate_port (codes "dropbear.port") c.dropbear.port

-- [A-Za-z0-9/_.:=-]
unfoldable pub is_device_byte : ℕ → Bool
is_device_byte c =
    within b'A' b'Z' c
    || within b'a' b'z' c
    || within b'0' b'9' c
    || c == b'/'
    || c == b'_'
    || c == b'.'
    || c == b':'
    || c == b'='
    || c == b'-'

unfoldable pub all_device_bytes : Bytes → Bool
unfolding is_device_byte
all_device_bytes [] = true
all_device_bytes (c ∷ s) = is_device_byte c && all_device_bytes s

-- `luksDevicePattern`: `^/dev/[A-Za-z0-9/_.:=-]+$`
unfoldable pub matches_device : Bytes → Bool
matches_device s = elim (strip_prefix (codes "/dev/") s) [
  | none ↦ false
  | some rest ↦ not (is_empty rest) && all_device_bytes rest
]

unfoldable pub validate_luks : Config → Result Invalid (Unit {0})
validate_luks c =
    if is_empty c.luks.device
    then ok tt
    else fail_if (not (matches_device c.luks.device)) (luks_device c.luks.device)

unfoldable pub validate : Config → Result Invalid (Unit {0})
validate c = do
  validate_host c
  validate_ssh c
  validate_wire_guard c
  validate_dropbear c
  validate_luks c
