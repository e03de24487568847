-- ===== src/Setup/Keyed.antt =====
-- Whose keys stand in the files that `buildSetupScriptData` of internal/setup/setup.go makes.
use tool_public_ubo.Base.{◌≡◌, refl, sym, ◌++◌}
use tool_public_ubo.Base.Int.{eq_ℕ}
use tool_public_ubo.Base.Result.{
  ok, map_err, fail_if, >>-eq-ok, >>=-eq-ok, ok-injective, map_err-ok,
}
use tool_public_ubo.Config.{Config}
use tool_public_ubo.Config.Files.{wg_client_tunnel_ip}
use tool_public_ubo.Keygen.{Keys}
use tool_public_ubo.Setup.{NetworkInfo}
use tool_public_ubo.Setup.Configure.{build_data}
use tool_public_ubo.Setup.Script.{
  build_setup_script_data, render_wg_config, render_initramfs_script, script_fields,
  dropbear_config, dropbear_data, checked_netmask,
}
use tool_public_ubo.Templates.Checks.{SetupScriptData, render_dropbear_config}
use tool_public_ubo.Templates.Hook.{initramfs_hook_tmpl, initramfs_umask_conf}
use tool_public_ubo.Templates.Initramfs.{script_text}
use tool_public_ubo.Templates.WireGuard.{marshal_server}
use tool_public_ubo.Text.Compare.{Bytes, codes, is_empty}
use tool_public_ubo.Text.Decimal.{itoa}

-- The file of the server's WireGuard: its own private key, and the client's public key and address.
abbrev pub server_text : Config → Keys → Bytes
server_text c keys =
    codes "[Interface]\nPrivateKey = "
    ++ (keys.server_wg_private
        ++ (codes "\nListenPort = "
            ++ (itoa c.wireguard.port
                ++ (codes "\n\n[Peer]\nPublicKey = "
                    ++ (keys.client_wg_public
                        ++ (codes "\nAllowedIPs = "
                            ++ ((wg_client_tunnel_ip c ++ codes "/32")
                                ++ codes "\nPersistentKeepalive = 25\n")))))))

wg_text :
    (c : Config) (keys : Keys) {text : Bytes}
    → render_wg_config c keys ≡ ok text
    → text ≡ server_text c keys
unfolding render_wg_config marshal_server
wg_text c keys h =
    let (_, k1) =
      >>-eq-ok (fail_if (is_empty c.wireguard.server_ip) (codes "Address")) _ (map_err-ok _ _ h) in
    let (_, k2) = >>-eq-ok (fail_if (is_empty keys.server_wg_private) (codes "PrivateKey")) _ k1 in
    let (_, k3) = >>-eq-ok (fail_if (eq_ℕ c.wireguard.port 0) (codes "ListenPort")) _ k2 in
    let (_, k4) =
      >>-eq-ok (fail_if (is_empty keys.client_wg_public) (codes "PeerPublicKey")) _ k3 in
    let (_, k5) =
      >>-eq-ok (fail_if (is_empty (wg_client_tunnel_ip c ++ codes "/32")) (codes "PeerAllowedIPs"))
        _ k4 in
    sym (ok-injective k5)

-- What the two files of the script's data hold.
pub build_data-files :
    (c : Config) (keys : Keys) (info : NetworkInfo) {values : SetupScriptData}
    → build_data c keys info ≡ ok values
    → (values.wg_server_conf ≡ server_text c keys)
      × (values.authorized_keys ≡ keys.client_ssh_pub_key ++ codes "\n")
unfolding build_data build_setup_script_data
build_data-files c keys info h =
    let (ini, h0, h1) = >>=-eq-ok (render_wg_config c keys) _ h in
    let (script, _, h2) =
      >>=-eq-ok
        (render_initramfs_script initramfs_hook_tmpl initramfs_umask_conf script_text
          (script_fields c info))
        _ h1 in
    let (db, _, h3) =
      >>=-eq-ok (map_err dropbear_config (render_dropbear_config (dropbear_data c))) _ h2 in
    let (mask, _, h4) = >>=-eq-ok (checked_netmask info) _ h3 in
    rw (sym (ok-injective h4)) (wg_text c keys h0, refl)
