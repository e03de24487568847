-- ===== src/Config/Print.antt =====
-- `Marshal` and `quote` of internal/config/toml.go.
use tool_public_ubo.Base.{Bool, true, false, [], ◌∷◌, ◌++◌, ◌==◌, if◌then◌else◌}
use tool_public_ubo.Config.{Config}
use tool_public_ubo.Text.Compare.{Bytes, codes}
use tool_public_ubo.Text.Decimal.{itoa}

-- The replacer of `quote`, which reads its text once from left to right.
unfoldable pub escape : Bytes → Bytes
escape [] = []
escape (c ∷ s) =
    let rest = escape s in
    if c == b'\\' then b'\\' ∷ b'\\' ∷ rest else if c == b'"' then b'\\' ∷ b'"' ∷ rest else c ∷ rest

unfoldable pub quote : Bytes → Bytes
unfolding escape
quote s = b'"' ∷ (escape s ++ b'"' ∷ [])

-- `%t`
abbrev pub show_bool : Bool → Bytes
show_bool true = codes "true"
show_bool false = codes "false"

-- `key = value` and a newline
unfoldable pub entry : Bytes → Bytes → Bytes
entry key value = key ++ (codes " = " ++ (value ++ codes "\n"))

unfoldable pub marshal : Config → Bytes
unfolding entry quote itoa
marshal c =
    entry (codes "host") (quote c.host)
    ++ (codes "\n[ssh]\n"
        ++ (entry (codes "user") (quote c.ssh.user)
            ++ (entry (codes "port") (itoa c.ssh.port)
                ++ (entry (codes "key") (quote c.ssh.key)
                    ++ (entry (codes "sudo") (show_bool c.ssh.sudo)
                        ++ (entry (codes "proxy_jump") (quote c.ssh.proxy_jump)
                            ++ (codes "\n[wireguard]\n"
                                ++ (entry (codes "port") (itoa c.wireguard.port)
                                    ++ (entry (codes "server_ip") (quote c.wireguard.server_ip)
                                        ++ (entry (codes "client_ip") (quote c.wireguard.client_ip)
                                            ++ (codes "\n[dropbear]\n"
                                                ++ (entry (codes "port") (itoa c.dropbear.port)
                                                    ++ (codes "\n[output]\n"
                                                        ++ (entry (codes "dir") (quote c.output.dir)
                                                            ++ (codes "\n[network]\n"
                                                            ++ (entry (codes "interface")
                                                            (quote c.network.interface)
                                                            ++ (entry (codes "ip")
                                                            (quote c.network.ip)
                                                            ++ (codes "\n[luks]\n"
                                                            ++ entry (codes "device")
                                                            (quote c.luks.device)))))))))))))))))))
