-- ===== src/Config/Checked.antt =====
-- What a configuration that `Validate` accepts is like.
use tool_public_ubo.Base.{
  ℕ, ◌≤◌, ◌≡◌, ◌≢◌, ◌↔◌, refl, ◌∙◌, true, ◌⊎◌, inl, inr, [], ◌∷◌, ◌++◌, some, arith, All,
  Bool-cases, Option-cases,
}
use tool_public_ubo.Base.Int.{ℤ, pos, negsuc, le_ℕ}
use tool_public_ubo.Base.Result.{ok, >>=-eq-ok, >>-eq-ok, >>-ok}
use tool_public_ubo.Config.{Config}
use tool_public_ubo.Config.Validate.{
  validate, validate_port, validate_tunnel_topology, validate_luks, validate_wire_guard, need_cidr,
  server_ip_cidr, client_ip_cidr, is_device_byte, all_device_bytes, matches_device, Invalid,
  validate_host, validate_ssh, validate_dropbear,
}
use tool_public_ubo.Net.Cidr.{Cidr, parse_cidr, contains}
use tool_public_ubo.Text.Compare.{
  Bytes, codes, equal_iff, is_empty, is_empty_iff, not-is_empty, strip_prefix, strip_prefix-append,
  append_of_strip_prefix,
}

abbrev pub IsPort : ℤ → Type 0
IsPort (pos n) = (1 ≤ n) × (n ≤ 65535)
IsPort (negsuc n) = ⊥

-- A letter, a digit, or one of `/ _ . : = -`.
abbrev pub IsDeviceByte : ℕ → Type 0
IsDeviceByte c =
    (b'A' ≤ c) × (c ≤ b'Z')
    ⊎ (b'a' ≤ c) × (c ≤ b'z')
    ⊎ (b'-' ≤ c) × (c ≤ b':')
    ⊎ (c ≡ b'=')
    ⊎ (c ≡ b'_')

-- An absolute path below /dev of such bytes.
abbrev pub IsDevicePath : Bytes → Type 0
IsDevicePath s = (rest : Bytes) × (s ≡ codes "/dev/" ++ rest) × (rest ≢ []) × All IsDeviceByte rest

pub record IsTunnel (server_ip client_ip : Bytes) : Type 0 where
  pub server : Cidr
  pub client : Cidr
  pub server_reads : parse_cidr server_ip ≡ some server
  pub client_reads : parse_cidr client_ip ≡ some client
  pub distinct : server.ip ≢ client.ip
  pub inside : contains server.net client.ip ≡ true

pub record IsChecked (c : Config) : Type 0 where
  pub host : c.host ≢ []
  pub user : c.ssh.user ≢ []
  pub ssh_port : IsPort c.ssh.port
  pub wireguard_port : IsPort c.wireguard.port
  pub tunnel : IsTunnel c.wireguard.server_ip c.wireguard.client_ip
  pub dropbear_port : IsPort c.dropbear.port
  pub device : (c.luks.device ≡ []) ⊎ IsDevicePath c.luks.device

port_iff : (name : Bytes) (p : ℤ) → (validate_port name p ≡ ok tt) ↔ IsPort p
unfolding validate_port le_ℕ
port_iff name (pos n) = ground arith
port_iff name (negsuc n) = ground arith

IsDeviceByte-iff : (c : ℕ) → (is_device_byte c ≡ true) ↔ IsDeviceByte c
unfolding is_device_byte
IsDeviceByte-iff c = ground arith

all_device_bytes_iff : (s : Bytes) → (all_device_bytes s ≡ true) ↔ All IsDeviceByte s
unfolding all_device_bytes
all_device_bytes_iff [] = (λ _. tt, λ _. refl)
all_device_bytes_iff (c ∷ s) = (
  λ h. ((IsDeviceByte-iff c).0 (ground arith), (all_device_bytes_iff s).0 (ground arith)),
  λ h. ground (arith, (IsDeviceByte-iff c).1 h.0, (all_device_bytes_iff s).1 h.1),
)

device_path : (s : Bytes) → matches_device s ≡ true → IsDevicePath s
unfolding matches_device
device_path s h = elim (Option-cases (strip_prefix (codes "/dev/") s)) [
  | inl e ↦ absurd (ground arith)
  | inr (rest, e) ↦ (
    rest,
    append_of_strip_prefix (codes "/dev/") s e,
    ground (arith, is_empty_iff rest),
    (all_device_bytes_iff rest).0 (ground arith),
  )
]

matches_rest :
    (s rest : Bytes)
    → strip_prefix (codes "/dev/") s ≡ some rest
    → rest ≢ []
    → All IsDeviceByte rest
    → matches_device s ≡ true
unfolding matches_device
matches_rest s rest e ne h =
    rw (e, matches_device) (rw (not-is_empty rest ne) ((all_device_bytes_iff rest).1 h))

device_path_matches : (s : Bytes) → IsDevicePath s → matches_device s ≡ true
device_path_matches s (rest, e, ne, h) =
    matches_rest s rest (rw e (strip_prefix-append (codes "/dev/") rest)) ne h

need_cidr_ok : (e : Invalid) (s : Bytes) {x : Cidr} → need_cidr e s ≡ ok x → parse_cidr s ≡ some x
unfolding need_cidr
need_cidr_ok e s h = ground arith

cidr_needed : (e : Invalid) (s : Bytes) (x : Cidr) → parse_cidr s ≡ some x → need_cidr e s ≡ ok x
unfolding need_cidr
cidr_needed e s x h = rw (h, need_cidr)

topology-IsTunnel :
    (c : Config)
    → validate_tunnel_topology c ≡ ok tt
    → IsTunnel c.wireguard.server_ip c.wireguard.client_ip
unfolding validate_tunnel_topology
topology-IsTunnel c h = elim (Option-cases (parse_cidr c.wireguard.server_ip)) [
  | inl e ↦ absurd (ground arith)
  | inr (s, e) ↦ elim (Option-cases (parse_cidr c.wireguard.client_ip)) [
    | inl e' ↦ absurd (ground arith)
    | inr (x, e') ↦ record {
      server = s;
      client = x;
      server_reads = e;
      client_reads = e';
      distinct = ground (arith, equal_iff s.ip x.ip);
      inside = ground arith;
    }
  ]
]

IsTunnel-topology :
    (c : Config)
    → IsTunnel c.wireguard.server_ip c.wireguard.client_ip
    → validate_tunnel_topology c ≡ ok tt
unfolding validate_tunnel_topology
IsTunnel-topology c t = ground (arith, equal_iff t.server.ip t.client.ip)

host_iff : (c : Config) → (validate_host c ≡ ok tt) ↔ (c.host ≢ [])
unfolding validate_host
host_iff c =
    (λ h. ground (arith, is_empty_iff c.host), λ ne. ground (arith, not-is_empty c.host ne))

ssh_iff : (c : Config) → (validate_ssh c ≡ ok tt) ↔ ((c.ssh.user ≢ []) × IsPort c.ssh.port)
unfolding validate_ssh
ssh_iff c = (
  λ h.
      let (a, b) = >>-eq-ok _ (validate_port (codes "ssh.port") c.ssh.port) h in
      (ground (arith, is_empty_iff c.ssh.user), (port_iff _ _).0 b),
  λ (ne, p).
      ground (arith, not-is_empty c.ssh.user ne, (port_iff (codes "ssh.port") c.ssh.port).1 p),
)

luks_iff :
    (c : Config) → (validate_luks c ≡ ok tt) ↔ ((c.luks.device ≡ []) ⊎ IsDevicePath c.luks.device)
unfolding validate_luks
luks_iff c = (
  λ h. elim (Bool-cases (is_empty c.luks.device)) [
    | inl e ↦ inl ((is_empty_iff c.luks.device).0 e)
    | inr e ↦ inr (device_path c.luks.device (ground arith))
  ],
  elim [
    | inl e ↦ ground (arith, is_empty_iff c.luks.device)
    | inr p ↦ ground (arith, device_path_matches c.luks.device p)
  ],
)

wire_guard_iff :
    (c : Config)
    → (validate_wire_guard c ≡ ok tt)
      ↔ (IsPort c.wireguard.port × IsTunnel c.wireguard.server_ip c.wireguard.client_ip)
unfolding validate_wire_guard
wire_guard_iff c = (
  λ h.
      let (p, h₁) = >>-eq-ok (validate_port (codes "wireguard.port") c.wireguard.port) _ h in
      let (s, _, h₂) = >>=-eq-ok (need_cidr server_ip_cidr c.wireguard.server_ip) _ h₁ in
      let (x, _, h₃) = >>=-eq-ok (need_cidr client_ip_cidr c.wireguard.client_ip) _ h₂ in
      ((port_iff _ _).0 p, topology-IsTunnel c h₃),
  λ (p, t).
      >>-ok _ ((port_iff (codes "wireguard.port") c.wireguard.port).1 p)
      ∙ rw
          (
            cidr_needed server_ip_cidr _ t.server t.server_reads,
            cidr_needed client_ip_cidr _ t.client t.client_reads,
          )
          (IsTunnel-topology c t),
)

validate-IsChecked : (c : Config) → validate c ≡ ok tt → IsChecked c
unfolding validate
validate-IsChecked c h =
    let (a, h₁) = >>-eq-ok (validate_host c) _ h in
    let (b, h₂) = >>-eq-ok (validate_ssh c) _ h₁ in
    let (w, h₃) = >>-eq-ok (validate_wire_guard c) _ h₂ in
    let (d, l) = >>-eq-ok (validate_dropbear c) _ h₃ in
    let (user, ssh_port) = (ssh_iff c).0 b in
    let (wg_port, tunnel) = (wire_guard_iff c).0 w in
    record {
      host = (host_iff c).0 a;
      user = user;
      ssh_port = ssh_port;
      wireguard_port = wg_port;
      tunnel = tunnel;
      dropbear_port = unfold validate_dropbear in (port_iff _ _).0 d;
      device = (luks_iff c).0 l;
    }

IsChecked-validate : (c : Config) → IsChecked c → validate c ≡ ok tt
unfolding validate validate_dropbear
IsChecked-validate c v =
    >>-ok _ ((host_iff c).1 v.host)
    ∙ >>-ok _ ((ssh_iff c).1 (v.user, v.ssh_port))
    ∙ >>-ok _ ((wire_guard_iff c).1 (v.wireguard_port, v.tunnel))
    ∙ >>-ok _ ((port_iff (codes "dropbear.port") c.dropbear.port).1 v.dropbear_port)
    ∙ (luks_iff c).1 v.device

-- `Validate` accepts exactly the configurations with a host and a user, with three ports from 1 to
-- 65535, with two tunnel addresses in CIDR form that differ and of which the client's lies in the
-- server's network, and with a LUKS device that is empty or an absolute path below /dev made of
-- letters, digits and `/ . _ : = -` (which leaves out every blank, quote and shell operator).
pub validate_iff : (c : Config) → (validate c ≡ ok tt) ↔ IsChecked c
validate_iff c = (validate-IsChecked c, IsChecked-validate c)
