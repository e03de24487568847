-- ===== src/Rootless/RoundTrip.antt =====
-- The file that `WireGuardClientConfig.MarshalINI` of internal/templates/templates.go writes, read by
-- `parseWGConfig` of contrib/rootless/parse.go.
use tool_public_ubo.Base.{
  ℕ, ◌+◌, ◌≤◌, Bool, true, false, List, [], ◌∷◌, ◌++◌, ◌==◌, length, ◌≡◌, refl, sym, ap, ◌∙◌, arith,
  All, All-map, Lacks, length-append, append_assoc, leb, leb→le,
}
use tool_public_ubo.Base.Result.{ok}
use tool_public_ubo.Rootless.Parse.{
  WgClientConfig, empty_config, to_lower, set_field, apply_wg_line, apply_lines, validate_wg_config,
  parse_text,
}
use tool_public_ubo.Templates.WireGuard.{WireGuardClientConfig, client_text, marshal_client}
use tool_public_ubo.Text.Compare.{
  Bytes, codes, is_empty, cut, cut-append, equal, contains_byte, contains_byte-Lacks, last_or,
  last_or-cons,
}
use tool_public_ubo.Text.Lines.{scan_lines, scan_lines-append, max_line}
use tool_public_ubo.Text.Space.{
  IsGraphic, trim_space, trim_space-ends, trim_space_blank, trim_space-All, All-last,
}

-- A value that is printed on a line of its own: not empty, of graphic characters, and short enough
-- for the reader.
pub record IsValue (v : Bytes) : Type 0 where
  pub present : is_empty v ≡ false
  pub graphic : All IsGraphic v
  pub short : length v + 13 ≤ max_line

graphic-ne-newline : (v : Bytes) → All IsGraphic v → Lacks b'\n' v
graphic-ne-newline v h = All-map (λ c g. ground arith) v h

value-last : (d : ℕ) (v : Bytes) → IsValue v → IsGraphic (last_or d v)
unfolding is_empty
value-last d [] value = absurd (let no = value.present in cc)
value-last d (c ∷ v) value = All-last c v value.graphic.0 value.graphic.1

-- One line `key = value` behind the scanner and the trimming.
applied :
    (c : WgClientConfig) (a : ℕ) (k v : Bytes)
    → IsGraphic a
    → (a == b'#') ≡ false
    → (a == b'[') ≡ false
    → contains_byte b'=' (a ∷ k) ≡ false
    → IsValue v
    → apply_wg_line c (trim_space (a ∷ (k ++ b'=' ∷ b' ' ∷ v)))
      ≡ set_field c (trim_space (to_lower (a ∷ k))) v
unfolding apply_wg_line
applied c a k v ha h1 h2 lacks value =
    rw
      (
        trim_space-ends a (k ++ b'=' ∷ b' ' ∷ v) ha
            (rw (last_or-cons a k b'=' (b' ' ∷ v)) (value-last b' ' v value)),
        cut-append b'=' (a ∷ k) (b' ' ∷ v) (contains_byte-Lacks b'=' (a ∷ k) lacks),
        h1,
        h2,
        trim_space_blank v,
        trim_space-All v value.graphic,
      )
      refl

one_line : (k v : Bytes) → Lacks b'\n' k → Lacks b'\n' v → Lacks b'\n' (k ++ b'=' ∷ b' ' ∷ v)
one_line [] v hk hv = (ground arith, (ground arith, hv))
one_line (c ∷ k) v hk hv = (hk.0, one_line k v hk.1 hv)

graphic-ne-cr : (c : ℕ) → IsGraphic c → (c == b'\r') ≡ false
graphic-ne-cr c h = ground arith

read_line :
    (k v rest : Bytes)
    → contains_byte b'\n' k ≡ false
    → length k ≤ 11
    → IsValue v
    → scan_lines (k ++ b'=' ∷ b' ' ∷ (v ++ b'\n' ∷ rest))
      ≡ ((k ++ b'=' ∷ b' ' ∷ v) ∷ (scan_lines rest).0, (scan_lines rest).1)
read_line k v rest h short value =
    ap scan_lines (sym (append_assoc k (b'=' ∷ b' ' ∷ v) (b'\n' ∷ rest)))
    ∙ scan_lines-append (k ++ b'=' ∷ b' ' ∷ v) rest
        (one_line k v (contains_byte-Lacks b'\n' k h) (graphic-ne-newline v value.graphic))
        (rw (last_or-cons 0 k b'=' (b' ' ∷ v)) (graphic-ne-cr _ (value-last b' ' v value)))
        (let short_v = value.short in omega (arith, length-append k (b'=' ∷ b' ' ∷ v)))

-- The lines that the scanner finds.
lines_of : WireGuardClientConfig → List Bytes
lines_of c =
    codes "[Interface]"
    ∷ (codes "PrivateKey " ++ b'=' ∷ b' ' ∷ c.private_key)
    ∷ (codes "Address " ++ b'=' ∷ b' ' ∷ c.address)
    ∷ []
    ∷ codes "[Peer]"
    ∷ (codes "PublicKey " ++ b'=' ∷ b' ' ∷ c.server_public_key)
    ∷ (codes "Endpoint " ++ b'=' ∷ b' ' ∷ c.server_endpoint)
    ∷ (codes "AllowedIPs " ++ b'=' ∷ b' ' ∷ c.allowed_ips)
    ∷ codes "PersistentKeepalive = 25"
    ∷ []

pub record IsWritable (c : WireGuardClientConfig) : Type 0 where
  pub private_key : IsValue c.private_key
  pub address : IsValue c.address
  pub server_public_key : IsValue c.server_public_key
  pub server_endpoint : IsValue c.server_endpoint
  pub allowed_ips : IsValue c.allowed_ips

-- The same fields under the names of the reader.
abbrev pub read_back : WireGuardClientConfig → WgClientConfig
read_back c = record {
  private_key = c.private_key;
  address = c.address;
  peer_pub_key = c.server_public_key;
  endpoint = c.server_endpoint;
  allowed_ips = c.allowed_ips;
}

-- A line without a value.
plain_line :
    (l rest : Bytes)
    → contains_byte b'\n' l ≡ false
    → (last_or 0 l == b'\r') ≡ false
    → leb (length l) max_line ≡ true
    → scan_lines (l ++ b'\n' ∷ rest) ≡ (l ∷ (scan_lines rest).0, (scan_lines rest).1)
plain_line l rest h end short =
    scan_lines-append l rest (contains_byte-Lacks b'\n' l h) end (leb→le _ _ short)

-- The lines of a text behind one more line.
behind :
    {r q : List Bytes × Bool} {l : Bytes} {ls : List Bytes}
    → r ≡ (l ∷ q.0, q.1)
    → q ≡ (ls, false)
    → r ≡ (l ∷ ls, false)
behind {l = l} h e = h ∙ ap (λ r. (l ∷ r.0, r.1)) e

scan_lines-client_text :
    (c : WireGuardClientConfig) → IsWritable c → scan_lines (client_text c) ≡ (lines_of c, false)
unfolding lines_of contains_byte
scan_lines-client_text c w = behind (plain_line (codes "[Interface]") _ refl refl refl) (
    behind (read_line (codes "PrivateKey ") c.private_key _ refl (omega arith) w.private_key) (
      behind (read_line (codes "Address ") c.address _ refl (omega arith) w.address) (
        behind (plain_line [] _ refl refl refl) (
          behind (plain_line (codes "[Peer]") _ refl refl refl) (
            behind
              (read_line (codes "PublicKey ") c.server_public_key _ refl (omega arith)
                w.server_public_key)
              (behind
                (read_line (codes "Endpoint ") c.server_endpoint _ refl (omega arith)
                  w.server_endpoint)
                (behind
                  (read_line (codes "AllowedIPs ") c.allowed_ips _ refl (omega arith) w.allowed_ips)
                  (behind (plain_line (codes "PersistentKeepalive = 25") [] refl refl refl)
                    (unfold scan_lines in refl)))))))))

apply_lines-step :
    (c c' : WgClientConfig) (l : Bytes) (ls : List Bytes) {out : WgClientConfig}
    → apply_wg_line c (trim_space l) ≡ c'
    → apply_lines c' ls ≡ out
    → apply_lines c (l ∷ ls) ≡ out
unfolding apply_lines
apply_lines-step c c' l ls h e = ap (λ x. apply_lines x ls) h ∙ e

apply_lines-lines_of :
    (c : WireGuardClientConfig) → IsWritable c → apply_lines empty_config (lines_of c) ≡ read_back c
unfolding lines_of contains_byte apply_wg_line to_lower set_field equal trim_space cut
apply_lines-lines_of c w =
    let c0 = empty_config in
    let c1 = record c0 { private_key = c.private_key } in
    let c2 = record c1 { address = c.address } in
    let c3 = record c2 { peer_pub_key = c.server_public_key } in
    let c4 = record c3 { endpoint = c.server_endpoint } in
    let c5 = read_back c in
    apply_lines-step c0 c0 _ _ refl (
      apply_lines-step c0 c1 _ _
        (applied c0 b'P' (codes "rivateKey ") c.private_key (omega arith, omega arith) refl refl
          refl w.private_key)
        (apply_lines-step c1 c2 _ _
          (applied c1 b'A' (codes "ddress ") c.address (omega arith, omega arith) refl refl refl
            w.address)
          (apply_lines-step c2 c2 _ _ refl (
            apply_lines-step c2 c2 _ _ refl (
              apply_lines-step c2 c3 _ _
                (applied c2 b'P' (codes "ublicKey ") c.server_public_key (omega arith, omega arith)
                  refl refl refl w.server_public_key)
                (apply_lines-step c3 c4 _ _
                  (applied c3 b'E' (codes "ndpoint ") c.server_endpoint (omega arith, omega arith)
                    refl refl refl w.server_endpoint)
                  (apply_lines-step c4 c5 _ _
                    (applied c4 b'A' (codes "llowedIPs ") c.allowed_ips (omega arith, omega arith)
                      refl refl refl w.allowed_ips)
                    (apply_lines-step c5 c5 _ _ refl (unfold apply_lines in refl)))))))))

validate-read_back :
    (c : WireGuardClientConfig) → IsWritable c → validate_wg_config (read_back c) ≡ ok tt
unfolding validate_wg_config
validate-read_back c w =
    rw
      (
        w.private_key.present, w.address.present, w.server_public_key.present,
        w.server_endpoint.present, w.allowed_ips.present,
      )
      refl

-- The file that `MarshalINI` of a `WireGuardClientConfig` gives is read by `parseWGConfig` as the
-- same five fields, when each of them is a short text of graphic characters that is not empty; and
-- for such fields `MarshalINI` does give a file.
pub parse_text-marshal_client :
    (c : WireGuardClientConfig)
    → IsWritable c
    → (marshal_client c ≡ ok (client_text c)) × (parse_text (client_text c) ≡ ok (read_back c))
unfolding marshal_client parse_text
parse_text-marshal_client c w = (
  rw
      (
        w.private_key.present, w.address.present, w.server_public_key.present,
        w.server_endpoint.present, w.allowed_ips.present,
      )
      refl,
  rw (scan_lines-client_text c w, apply_lines-lines_of c w, validate-read_back c w) refl,
)
