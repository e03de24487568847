-- ===== src/Config/Put.antt =====
-- The fields of the configuration that the schema of internal/config/toml.go and the editor of
-- internal/tui/tui.go write.
use tool_public_ubo.Base.{Bool}
use tool_public_ubo.Base.Int.{ℤ}
use tool_public_ubo.Config.{Config}
use tool_public_ubo.Text.Compare.{Bytes}

abbrev pub host : Config → Bytes → Config
host c v = record c { host = v }

abbrev pub ssh_user : Config → Bytes → Config
ssh_user c v = record c { ssh = record (c.ssh) { user = v } }

abbrev pub ssh_port : Config → ℤ → Config
ssh_port c v = record c { ssh = record (c.ssh) { port = v } }

abbrev pub ssh_key : Config → Bytes → Config
ssh_key c v = record c { ssh = record (c.ssh) { key = v } }

abbrev pub ssh_sudo : Config → Bool → Config
ssh_sudo c v = record c { ssh = record (c.ssh) { sudo = v } }

abbrev pub ssh_proxy_jump : Config → Bytes → Config
ssh_proxy_jump c v = record c { ssh = record (c.ssh) { proxy_jump = v } }

abbrev pub wireguard_port : Config → ℤ → Config
wireguard_port c v = record c { wireguard = record (c.wireguard) { port = v } }

abbrev pub wireguard_server_ip : Config → Bytes → Config
wireguard_server_ip c v = record c { wireguard = record (c.wireguard) { server_ip = v } }

abbrev pub wireguard_client_ip : Config → Bytes → Config
wireguard_client_ip c v = record c { wireguard = record (c.wireguard) { client_ip = v } }

abbrev pub dropbear_port : Config → ℤ → Config
dropbear_port c v = record c { dropbear = record { port = v } }

abbrev pub output_dir : Config → Bytes → Config
output_dir c v = record c { output = record { dir = v } }

abbrev pub network_interface : Config → Bytes → Config
network_interface c v = record c { network = record (c.network) { interface = v } }

abbrev pub network_ip : Config → Bytes → Config
network_ip c v = record c { network = record (c.network) { ip = v } }

abbrev pub luks_device : Config → Bytes → Config
luks_device c v = record c { luks = record { device = v } }
