-- ===== src/Rootless/Keys.antt =====
-- What the device of contrib/rootless/rootless.go is told about the keys that internal/keygen makes.
use tool_public_ubo.Base.{
  ℕ, ◌/◌, ◌%◌, ◌≡◌, ◌≢◌, refl, sym, ap, ◌∙◌, [], ◌∷◌, ◌++◌, append_assoc, length, arith, false, All,
  All-append, Lacks,
}
use tool_public_ubo.Base.Result.{ok}
use tool_public_ubo.Rootless.Ipc.{b64_to_hex, hex_of, build_ipc, ipc_text}
use tool_public_ubo.Rootless.Parse.{WgClientConfig}
use tool_public_ubo.Text.Base64.{IsByte, encode, decode-encode, hex, hex_char}
use tool_public_ubo.Text.Compare.{Bytes, codes, contains_byte, contains_byte-Lacks}
use tool_public_ubo.Text.Lines.{split, split-append}

b64_to_hex-encode : (k : Bytes) → All IsByte k → length k ≡ 32 → b64_to_hex (encode k) ≡ ok (hex k)
unfolding b64_to_hex hex_of
b64_to_hex-encode k bytes size = rw (decode-encode k bytes, size) refl

hex_char-ne-newline : (n : ℕ) → hex_char n ≢ b'\n'
unfolding hex_char
hex_char-ne-newline n h = ground arith

hex-Lacks : (k : Bytes) → Lacks b'\n' (hex k)
unfolding hex
hex-Lacks [] = tt
hex-Lacks (c ∷ k) = (hex_char-ne-newline (c / 16), (hex_char-ne-newline (c % 16), hex-Lacks k))

-- A line in front of the rest of the text.
line_of :
    (key v rest : Bytes)
    → contains_byte b'\n' key ≡ false
    → Lacks b'\n' v
    → split b'\n' (key ++ (v ++ b'\n' ∷ rest)) ≡ (key ++ v) ∷ split b'\n' rest
line_of key v rest hk hv =
    ap (split b'\n') (sym (append_assoc key v (b'\n' ∷ rest)))
    ∙ split-append b'\n' (key ++ v) rest
        (All-append (λ c. c ≢ b'\n') key v (contains_byte-Lacks b'\n' key hk) hv)

ipc_lines :
    (priv_hex pub_hex endpoint allowed_ips : Bytes)
    → Lacks b'\n' priv_hex
    → Lacks b'\n' pub_hex
    → Lacks b'\n' endpoint
    → Lacks b'\n' allowed_ips
    → split b'\n' (ipc_text priv_hex pub_hex endpoint allowed_ips)
      ≡ (codes "private_key=" ++ priv_hex)
        ∷ (codes "public_key=" ++ pub_hex)
        ∷ (codes "endpoint=" ++ endpoint)
        ∷ (codes "allowed_ip=" ++ allowed_ips)
        ∷ codes "persistent_keepalive_interval=25"
        ∷ []
        ∷ []
unfolding contains_byte
ipc_lines a b c d ha hb hc hd =
    line_of (codes "private_key=") a _ refl ha
    ∙ ap (◌∷◌ (codes "private_key=" ++ a)) (
        line_of (codes "public_key=") b _ refl hb
        ∙ ap (◌∷◌ (codes "public_key=" ++ b)) (
            line_of (codes "endpoint=") c _ refl hc
            ∙ ap (◌∷◌ (codes "endpoint=" ++ c)) (
                line_of (codes "allowed_ip=") d _ refl hd
                ∙ ap (◌∷◌ (codes "allowed_ip=" ++ d)) (unfold split in refl))))

-- For two keys of 32 bytes in base64, `buildIPC` tells the device exactly these two keys in
-- hexadecimal, the endpoint, the allowed addresses and the keep-alive, each on a line of its own, if
-- the endpoint and the allowed addresses hold no newline.
pub split-build_ipc :
    (c : WgClientConfig) (priv peer : Bytes)
    → All IsByte priv
    → length priv ≡ 32
    → All IsByte peer
    → length peer ≡ 32
    → c.private_key ≡ encode priv
    → c.peer_pub_key ≡ encode peer
    → Lacks b'\n' c.endpoint
    → Lacks b'\n' c.allowed_ips
    → (text : Bytes) × (build_ipc c ≡ ok text)
      × (split b'\n' text
          ≡ (codes "private_key=" ++ hex priv)
            ∷ (codes "public_key=" ++ hex peer)
            ∷ (codes "endpoint=" ++ c.endpoint)
            ∷ (codes "allowed_ip=" ++ c.allowed_ips)
            ∷ codes "persistent_keepalive_interval=25"
            ∷ []
            ∷ [])
unfolding build_ipc
split-build_ipc c priv peer hb hl pb pl hp hq he ha = (
  ipc_text (hex priv) (hex peer) c.endpoint c.allowed_ips,
  rw
      (
        ap b64_to_hex hp ∙ b64_to_hex-encode priv hb hl,
        ap b64_to_hex hq ∙ b64_to_hex-encode peer pb pl,
      )
      refl,
  ipc_lines (hex priv) (hex peer) c.endpoint c.allowed_ips (hex-Lacks priv) (hex-Lacks peer) he ha,
)
