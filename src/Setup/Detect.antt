-- ===== src/Setup/Detect.antt =====
-- `detectNetwork` and the steps that it runs, from internal/setup/setup.go.
use tool_public_ubo.Base.{
  ℕ, zero, suc, ◌||◌, not, List, [], ◌∷◌, ◌++◌, ◌==◌, if◌then◌else◌, none, some,
}
use tool_public_ubo.Base.Result.{Result, ok, err, ◌>>=◌, ◌>>◌, fail_if}
use tool_public_ubo.Config.{Config}
use tool_public_ubo.Net.Cidr.{parse_cidr}
use tool_public_ubo.Net.Show.{show_ip}
use tool_public_ubo.Setup.{NetworkInfo, Run}
use tool_public_ubo.Setup.Inet.{first_inet_addr, prefix_for_ip}
use tool_public_ubo.Setup.Names.{is_valid_interface_name}
use tool_public_ubo.Setup.Topology.{detect_interface_topology, only_interface}
use tool_public_ubo.Text.Compare.{Bytes, codes, is_empty, equal}
use tool_public_ubo.Text.Lines.{split}
use tool_public_ubo.Text.Space.{trim_space, fields}

pub data DetectError : Type 0 where
  invalid_ip : Bytes → DetectError
  ip_route no_interface no_ip no_gateway : DetectError
  interface_name : Bytes → DetectError

unfoldable pub apply_config_ip : NetworkInfo → Bytes → Result DetectError NetworkInfo
apply_config_ip info cfg_ip = if is_empty cfg_ip then ok info else elim (parse_cidr cfg_ip) [
  | none ↦ err (invalid_ip cfg_ip)
  | some x ↦ ok (record info { ip = show_ip x.ip; prefix = x.ones })
]

-- The field for the token `p`, set to `value` if it is empty; `routeFieldFor` is the choice.
unfoldable pub set_route_field : NetworkInfo → Bytes → Bytes → NetworkInfo
set_route_field info p value =
    if equal p (codes "via")
    then (if is_empty info.gateway then record info { gateway = value } else info)
    else if equal p (codes "dev")
    then (if is_empty info.interface then record info { interface = value } else info)
    else if equal p (codes "src")
    then (if is_empty info.ip then record info { ip = value } else info)
    else info

-- The tokens of a line in turn; the last of them has no value.
unfoldable pub apply_route_tokens : NetworkInfo → List Bytes → NetworkInfo
apply_route_tokens info [] = info
apply_route_tokens info (p ∷ []) = info
apply_route_tokens info (p ∷ value ∷ parts) =
    apply_route_tokens (set_route_field info p value) (value ∷ parts)

unfoldable pub apply_route_lines : NetworkInfo → List Bytes → NetworkInfo
apply_route_lines info [] = info
apply_route_lines info (line ∷ lines) =
    apply_route_lines (apply_route_tokens info (fields line)) lines

unfoldable pub parse_default_route : Run → NetworkInfo → Result DetectError NetworkInfo
parse_default_route run info =
    let reply = run (codes "ip route show default") in
    if reply.failed then err ip_route else ok (apply_route_lines info (split b'\n' reply.out))

unfoldable pub validate_interface : NetworkInfo → Result DetectError (Unit {0})
validate_interface info =
    if is_empty info.interface
    then err no_interface
    else fail_if (not (is_valid_interface_name info.interface)) (interface_name info.interface)

abbrev addr_show : NetworkInfo → Bytes
addr_show info = codes "ip -4 addr show dev " ++ info.interface

unfoldable pub fill_ip_from_addr : Run → NetworkInfo → NetworkInfo
fill_ip_from_addr run info =
    let reply = run (addr_show info) in
    let (ip, prefix) = first_inet_addr reply.out in
    if is_empty info.interface || reply.failed || is_empty ip
    then info
    else record info { ip = ip; prefix = prefix }

-- A prefix of 0 is an unknown one.
abbrev pub or_24 : ℕ → ℕ
or_24 zero = 24
or_24 (suc n) = suc n

unfoldable pub detect_prefix : Run → NetworkInfo → NetworkInfo
detect_prefix run info =
    let reply = run (addr_show info) in
    if not (info.prefix == 0) || is_empty info.ip then info else record info {
      prefix = or_24 (if reply.failed then 0 else prefix_for_ip reply.out info.ip);
    }

abbrev pub or_server : Bytes → Bytes
or_server [] = codes "server"
or_server (c ∷ s) = c ∷ s

-- The output counts even beside an error.
unfoldable pub detect_hostname : Run → NetworkInfo → NetworkInfo
detect_hostname run info = record info {
  hostname = or_server (trim_space ((run (codes "hostname")).out));
}

unfoldable pub validate_network_info : NetworkInfo → Result DetectError (Unit {0})
validate_network_info info = do
  fail_if (is_empty info.ip) no_ip
  fail_if (is_empty info.gateway) no_gateway

-- The steps behind the check of the interface.
unfoldable pub fill_info : Run → NetworkInfo → NetworkInfo
fill_info run info = detect_interface_topology run (
    detect_hostname run
      (detect_prefix run (if is_empty info.ip then fill_ip_from_addr run info else info)))

unfoldable pub detect_network : Run → Config → Result DetectError NetworkInfo
detect_network run c = do
  started ← apply_config_ip (only_interface c.network.interface) c.network.ip
  routed ← parse_default_route run started
  validate_interface routed
  validate_network_info (fill_info run routed)
  ok (fill_info run routed)
