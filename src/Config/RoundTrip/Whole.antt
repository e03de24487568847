-- ===== src/Config/RoundTrip/Whole.antt =====
-- The file that `Marshal` writes, read by `parseTOML`.
use tool_public_ubo.Base.{ℕ, ◌≡◌, refl, ap, sym, ◌∙◌, [], append-nil, arith, Lacks}
use tool_public_ubo.Base.Int.{IsInt}
use tool_public_ubo.Base.Result.{ok}
use tool_public_ubo.Config.Parse.{parse_toml, parse_line, parse_lines}
use tool_public_ubo.Config.Print.{quote, entry, marshal}
use tool_public_ubo.Config.Put
use tool_public_ubo.Config.RoundTrip.Line.{run, step-entry, step-header}
use tool_public_ubo.Config.RoundTrip.Quoted.{quote-Prints, itoa-Prints, bool-Prints}
use tool_public_ubo.Config.Schema.{assign}
use tool_public_ubo.Config.{Config}
use tool_public_ubo.Text.Compare.{Bytes, codes, is_empty}
use tool_public_ubo.Text.Lines.{split}
use tool_public_ubo.Text.Space.{trim_space}

-- No string field holds a newline, and the ports are values of an `int`.
pub record IsPrintable (c : Config) : Type 0 where
  pub host : Lacks b'\n' c.host
  pub ssh_user : Lacks b'\n' c.ssh.user
  pub ssh_port : IsInt c.ssh.port
  pub ssh_key : Lacks b'\n' c.ssh.key
  pub ssh_proxy_jump : Lacks b'\n' c.ssh.proxy_jump
  pub wireguard_port : IsInt c.wireguard.port
  pub wireguard_server_ip : Lacks b'\n' c.wireguard.server_ip
  pub wireguard_client_ip : Lacks b'\n' c.wireguard.client_ip
  pub dropbear_port : IsInt c.dropbear.port
  pub output_dir : Lacks b'\n' c.output.dir
  pub network_interface : Lacks b'\n' c.network.interface
  pub network_ip : Lacks b'\n' c.network.ip
  pub luks_device : Lacks b'\n' c.luks.device

run_end : (i : ℕ) (section : Bytes) (cfg : Config) → run i section cfg [] ≡ ok cfg
unfolding parse_lines split trim_space parse_line is_empty
run_end i section cfg = refl

-- A configuration whose strings hold no newline and whose ports are values of an `int` is read
-- back from what `Marshal` writes, whatever configuration the reader starts from.
pub parse-marshal : (c d : Config) → IsPrintable c → parse_toml (marshal c) d ≡ ok c
unfolding parse_toml marshal assign
parse-marshal c d w =
    let c1 = Put.host d c.host in
    let c2 = Put.ssh_user c1 c.ssh.user in
    let c3 = Put.ssh_port c2 c.ssh.port in
    let c4 = Put.ssh_key c3 c.ssh.key in
    let c5 = Put.ssh_sudo c4 c.ssh.sudo in
    let c6 = Put.ssh_proxy_jump c5 c.ssh.proxy_jump in
    let c7 = Put.wireguard_port c6 c.wireguard.port in
    let c8 = Put.wireguard_server_ip c7 c.wireguard.server_ip in
    let c9 = Put.wireguard_client_ip c8 c.wireguard.client_ip in
    let c10 = Put.dropbear_port c9 c.dropbear.port in
    let c11 = Put.output_dir c10 c.output.dir in
    let c12 = Put.network_interface c11 c.network.interface in
    let c13 = Put.network_ip c12 c.network.ip in
    let c14 = Put.luks_device c13 c.luks.device in
    step-entry _ (codes "host") _ d c1 _ (omega arith) (quote-Prints c.host w.host) refl
    ∙ step-header _ (codes "ssh") _ c1 _ (omega arith)
    ∙ step-entry _ (codes "user") _ c1 c2 _ (omega arith) (quote-Prints c.ssh.user w.ssh_user) refl
    ∙ step-entry _ (codes "port") _ c2 c3 _ (omega arith) (itoa-Prints c.ssh.port w.ssh_port) refl
    ∙ step-entry _ (codes "key") _ c3 c4 _ (omega arith) (quote-Prints c.ssh.key w.ssh_key) refl
    ∙ step-entry _ (codes "sudo") _ c4 c5 _ (omega arith) (bool-Prints c.ssh.sudo) refl
    ∙ step-entry _ (codes "proxy_jump") _ c5 c6 _ (omega arith)
        (quote-Prints c.ssh.proxy_jump w.ssh_proxy_jump) refl
    ∙ step-header _ (codes "wireguard") _ c6 _ (omega arith)
    ∙ step-entry _ (codes "port") _ c6 c7 _ (omega arith)
        (itoa-Prints c.wireguard.port w.wireguard_port) refl
    ∙ step-entry _ (codes "server_ip") _ c7 c8 _ (omega arith)
        (quote-Prints c.wireguard.server_ip w.wireguard_server_ip) refl
    ∙ step-entry _ (codes "client_ip") _ c8 c9 _ (omega arith)
        (quote-Prints c.wireguard.client_ip w.wireguard_client_ip) refl
    ∙ step-header _ (codes "dropbear") _ c9 _ (omega arith)
    ∙ step-entry _ (codes "port") _ c9 c10 _ (omega arith)
        (itoa-Prints c.dropbear.port w.dropbear_port) refl
    ∙ step-header _ (codes "output") _ c10 _ (omega arith)
    ∙ step-entry _ (codes "dir") _ c10 c11 _ (omega arith) (quote-Prints c.output.dir w.output_dir)
        refl
    ∙ step-header _ (codes "network") _ c11 _ (omega arith)
    ∙ step-entry _ (codes "interface") _ c11 c12 _ (omega arith)
        (quote-Prints c.network.interface w.network_interface) refl
    ∙ step-entry _ (codes "ip") _ c12 c13 _ (omega arith) (quote-Prints c.network.ip w.network_ip)
        refl
    ∙ step-header _ (codes "luks") _ c13 _ (omega arith)
    ∙ ap (run _ (codes "luks") c13)
        (sym (append-nil (entry (codes "device") (quote c.luks.device))))
    ∙ step-entry _ (codes "device") _ c13 c14 _ (omega arith)
        (quote-Prints c.luks.device w.luks_device) refl
    ∙ run_end _ _ c14
