-- ===== src/Main/Configured.antt =====
-- What `cmdRun` of main.go has done when it succeeds.
use tool_public_ubo.Base.{
  ℕ, ◌≡◌, refl, ap, ◌++◌, ◌∙◌, Bool, true, false, if◌then◌else◌, arith, Bool-cases, inl, inr,
}
use tool_public_ubo.Base.Result.{Result, ok, err-ne-ok}
use tool_public_ubo.Config.Files.{output_dir, wg_server_tunnel_ip}
use tool_public_ubo.Config.{Config}
use tool_public_ubo.Keygen.{Keys}
use tool_public_ubo.Keygen.All.{generate_all}
use tool_public_ubo.Setup.Finished.{IsConfigured}
use tool_public_ubo.Main.Run.{
  Environment, client_config, write_readme, write_rendered, write_run_artifacts,
}
use tool_public_ubo.Main.Trusted.{Passed}
use tool_public_ubo.Remote.Client.{Client}
use tool_public_ubo.Rootless.Parse.{WgClientConfig, parse_wg_config, parse_text}
use tool_public_ubo.Rootless.RoundTrip.{IsWritable, read_back, parse_text-marshal_client}
use tool_public_ubo.System.Disk.{Disk, read_file, write_file, read_file-write_file}
use tool_public_ubo.Templates.WireGuard.{client_text}
use tool_public_ubo.Text.Compare.{Bytes, codes, equal, contains_byte}
use tool_public_ubo.Text.Decimal.{itoa}
use tool_public_ubo.Main.Command.{wg_endpoint}
use tool_public_ubo.Text.FilePath.{join}

-- A write leaves the other files as they were.
read_file-other :
    (d : Disk) (path other content : Bytes) (mode : ℕ)
    → equal path other ≡ false
    → read_file (write_file d path content mode).0 other ≡ read_file d other
unfolding read_file write_file
read_file-other d path other content mode apart = elim (Bool-cases (d.unwritable path)) [
  | inl bad ↦ rw (bad, apart) refl
  | inr good ↦ rw (good, apart) refl
]

module _ (env : Environment) (c : Config) (d : Disk) where
  -- The remote host was set up with the keys of the output directory, through a client that has passed.
  pub SetUp : Type 0
  SetUp =
      (keys : Keys) × (client : Client) × ((generate_all env.sources (output_dir c) d).1 ≡ ok keys)
      × Passed env.ssh c (output_dir c) env.typed client
      × IsConfigured env.unmarshal env.ssh client c keys

write_readme-true :
    (out_dir readme : Bytes) (x : Disk × Bool) {path : Bytes}
    → (write_readme out_dir readme x).1 ≡ ok path
    → x.1 ≡ true
unfolding write_readme
write_readme-true out_dir readme (d, false) h = err-ne-ok h
write_readme-true out_dir readme (d, true) h = refl

read_file-write_readme :
    (out_dir readme other : Bytes) (x : Disk × Bool)
    → equal (join out_dir (codes "README.txt")) other ≡ false
    → x.1 ≡ true
    → read_file (write_readme out_dir readme x).0 other ≡ read_file x.0 other
unfolding write_readme
read_file-write_readme out_dir readme other (d, false) apart went = absurd cc
read_file-write_readme out_dir readme other (d, true) apart went =
    read_file-other d _ other readme 0o644 apart

written_writable :
    (d : Disk) (path text : Bytes) (mode : ℕ)
    → (write_file d path text mode).1 ≡ true
    → d.unwritable path ≡ false
unfolding write_file
written_writable d path text mode h = ground arith

written_text :
    (d : Disk) (out_dir readme text : Bytes) {path : Bytes}
    → d.unreadable (join out_dir (codes "client_wg.conf")) ≡ false
    → equal (join out_dir (codes "README.txt")) (join out_dir (codes "client_wg.conf")) ≡ false
    → (write_rendered out_dir readme (ok text) d).1 ≡ ok path
    → read_file
        (write_rendered out_dir readme (ok text) d).0
        (join out_dir (codes "client_wg.conf"))
      ≡ ok text
unfolding write_rendered
written_text d out_dir readme text readable apart h =
    let target : Bytes = join out_dir (codes "client_wg.conf") in
    let went : (write_file d target text 0o600).1 ≡ true =
      write_readme-true out_dir readme (write_file d target text 0o600) h in
    read_file-write_readme out_dir readme target (write_file d target text 0o600) apart went
    ∙ read_file-write_file d target text 0o600 (written_writable d target text 0o600 went) readable

parsed :
    (path : Bytes) (d : Disk) {text : Bytes}
    → read_file d path ≡ ok text
    → parse_wg_config path d ≡ parse_text text
unfolding parse_wg_config
parsed path d h = rw (h, parse_wg_config) refl

-- What the client needs: its own private key and address, the server's public key, and where the server is,
-- an IPv6 host in brackets.
pub client_values : Config → Keys → WgClientConfig
client_values c keys = record {
  private_key = keys.client_wg_private;
  address = c.wireguard.client_ip;
  peer_pub_key = keys.server_wg_public;
  endpoint =
      if contains_byte b':' c.host
      then codes "[" ++ (c.host ++ (codes "]:" ++ itoa c.wireguard.port))
      else c.host ++ (codes ":" ++ itoa c.wireguard.port);
  allowed_ips = wg_server_tunnel_ip c ++ codes "/32";
}

client_values-read_back :
    (c : Config) (keys : Keys) → read_back (client_config c keys) ≡ client_values c keys
unfolding client_values wg_endpoint
client_values-read_back c keys = refl

-- When `writeRunArtifacts` succeeds, the file client_wg.conf that it leaves is read by `parseWGConfig` as
-- the client's private key, its address, the server's public key, the host and port of the server and its
-- tunnel address with /32, if these are short texts of graphic characters, the file can be read, and the
-- path of the README is another one.
pub parse_wg_config-write_run_artifacts :
    (c : Config) (keys : Keys) (out_dir path : Bytes) (d : Disk) {readme : Bytes}
    → IsWritable (client_config c keys)
    → d.unreadable (join out_dir (codes "client_wg.conf")) ≡ false
    → equal (join out_dir (codes "README.txt")) (join out_dir (codes "client_wg.conf")) ≡ false
    → (write_run_artifacts c keys out_dir path d).1 ≡ ok readme
    → parse_wg_config
        (join out_dir (codes "client_wg.conf"))
        (write_run_artifacts c keys out_dir path d).0
      ≡ ok (client_values c keys)
unfolding write_run_artifacts
parse_wg_config-write_run_artifacts c keys out_dir path d w readable apart h =
    let (rendered, read) = parse_text-marshal_client (client_config c keys) w in
    let text : Bytes = client_text (client_config c keys) in
    let there = written_text d out_dir _ text readable apart (rw rendered at h) in
    rw rendered (parsed _ _ there ∙ read) ∙ ap ok (client_values-read_back c keys)
