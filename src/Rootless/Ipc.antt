-- ===== src/Rootless/Ipc.antt =====
-- `b64ToHex` and `buildIPC` of contrib/rootless/rootless.go.
use tool_public_ubo.Base.{◌∷◌, ◌++◌, ◌==◌, length, if◌then◌else◌, Option, none, some}
use tool_public_ubo.Base.Result.{Result, ok, err, ◌>>=◌, map_err}
use tool_public_ubo.Rootless.Parse.{WgClientConfig}
use tool_public_ubo.Text.Base64.{decode, hex}
use tool_public_ubo.Text.Compare.{Bytes, codes}

pub data KeyError : Type 0 where
  not_base64 wrong_length : KeyError

unfoldable pub hex_of : Option Bytes → Result KeyError Bytes
hex_of none = err not_base64
hex_of (some raw) = if length raw == 32 then ok (hex raw) else err wrong_length

unfoldable pub b64_to_hex : Bytes → Result KeyError Bytes
unfolding hex_of
b64_to_hex key = hex_of (decode key)

pub data IpcError : Type 0 where
  private_key public_key : KeyError → IpcError

abbrev pub ipc_text : Bytes → Bytes → Bytes → Bytes → Bytes
ipc_text priv_hex pub_hex endpoint allowed_ips =
    codes "private_key="
    ++ (priv_hex
        ++ b'\n'
          ∷ (codes "public_key="
              ++ (pub_hex
                  ++ b'\n'
                    ∷ (codes "endpoint="
                        ++ (endpoint
                            ++ b'\n'
                              ∷ (codes "allowed_ip="
                                  ++ (allowed_ips
                                      ++ b'\n' ∷ codes "persistent_keepalive_interval=25\n")))))))

unfoldable pub build_ipc : WgClientConfig → Result IpcError Bytes
build_ipc c = do
  priv_hex ← map_err private_key (b64_to_hex c.private_key)
  pub_hex ← map_err public_key (b64_to_hex c.peer_pub_key)
  ok (ipc_text priv_hex pub_hex c.endpoint c.allowed_ips)
