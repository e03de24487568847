-- ===== src/Templates/WireGuard.antt =====
-- `WireGuardServerConfig` and `WireGuardClientConfig` of internal/templates/templates.go with their
-- `MarshalINI`.
use tool_public_ubo.Base.{◌∷◌, ◌++◌}
use tool_public_ubo.Base.Int.{ℤ, eq_ℕ}
use tool_public_ubo.Base.Result.{Result, ok, ◌>>◌, fail_if}
use tool_public_ubo.Text.Compare.{Bytes, codes, is_empty}
use tool_public_ubo.Text.Decimal.{itoa}

pub record WireGuardServerConfig : Type 0 where
  pub address : Bytes
  pub private_key : Bytes
  pub listen_port : ℤ
  pub peer_public_key : Bytes
  pub peer_allowed_ips : Bytes

pub record WireGuardClientConfig : Type 0 where
  pub private_key : Bytes
  pub address : Bytes
  pub server_public_key : Bytes
  pub server_endpoint : Bytes
  pub allowed_ips : Bytes

-- The field that an error names.
abbrev pub Missing : Type 0
Missing = Bytes

-- A format with one `%s` in front of a newline.
abbrev pub line_of : Bytes → Bytes → Bytes → Bytes
line_of key value rest = key ++ (value ++ b'\n' ∷ rest)

unfoldable pub marshal_server : WireGuardServerConfig → Result Missing Bytes
unfolding itoa
marshal_server c = do
  fail_if (is_empty c.address) (codes "Address")
  fail_if (is_empty c.private_key) (codes "PrivateKey")
  fail_if (eq_ℕ c.listen_port 0) (codes "ListenPort")
  fail_if (is_empty c.peer_public_key) (codes "PeerPublicKey")
  fail_if (is_empty c.peer_allowed_ips) (codes "PeerAllowedIPs")
  ok (
      codes "[Interface]\n"
      ++ line_of (codes "PrivateKey = ") c.private_key (
          line_of (codes "ListenPort = ") (itoa c.listen_port) (
            codes "\n[Peer]\n"
            ++ line_of (codes "PublicKey = ") c.peer_public_key (
                line_of (codes "AllowedIPs = ") c.peer_allowed_ips
                  (codes "PersistentKeepalive = 25\n")))))

-- The text of a client's configuration.
abbrev pub client_text : WireGuardClientConfig → Bytes
client_text c =
    codes "[Interface]\n"
    ++ line_of (codes "PrivateKey = ") c.private_key (
        line_of (codes "Address = ") c.address (
          codes "\n[Peer]\n"
          ++ line_of (codes "PublicKey = ") c.server_public_key (
              line_of (codes "Endpoint = ") c.server_endpoint (
                line_of (codes "AllowedIPs = ") c.allowed_ips
                  (codes "PersistentKeepalive = 25\n")))))

unfoldable pub marshal_client : WireGuardClientConfig → Result Missing Bytes
marshal_client c = do
  fail_if (is_empty c.private_key) (codes "PrivateKey")
  fail_if (is_empty c.address) (codes "Address")
  fail_if (is_empty c.server_public_key) (codes "ServerPublicKey")
  fail_if (is_empty c.server_endpoint) (codes "ServerEndpoint")
  fail_if (is_empty c.allowed_ips) (codes "AllowedIPs")
  ok (client_text c)
