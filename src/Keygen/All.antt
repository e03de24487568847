-- ===== src/Keygen/All.antt =====
-- `deriveWGPublicKey`, `GenerateSSHKeypair` and `GenerateAll` of internal/keygen/keygen.go. The sources of
-- randomness, the curve and the SSH library are given by what they answer.
use tool_public_ubo.Base.{◌++◌, ◌==◌, if◌then◌else◌, Option, none, some}
use tool_public_ubo.Base.Result.{Result, ok, err}
use tool_public_ubo.Keygen.{
  Keys, KeygenError, no_ssh_key, no_ssh_public, private_not_written, public_not_written,
  load_existing, generate_wire_guard_keypair,
}
use tool_public_ubo.System.Disk.{Disk, IoError, write_file, remove}
use tool_public_ubo.Text.Base64.{encode, decode}
use tool_public_ubo.Text.Compare.{Bytes, codes, last_or, init}
use tool_public_ubo.Text.FilePath.{join}

pub record Sources : Type 0 where
  -- `curve25519.X25519` with the base point
  pub x25519 : Bytes → Option Bytes
  -- `rand.Read` for the server and for the client
  pub server_random : Option Bytes
  pub client_random : Option Bytes
  -- the text of a fresh private key, `none` if it is not made or not marshalled
  pub ssh_private : Option Bytes
  -- `ssh.MarshalAuthorizedKey` of its public key
  pub ssh_public : Option Bytes

encoded : Option Bytes → Option Bytes
unfolding encode
encoded none = none
encoded (some key) = some (encode key)

curve_point : (Bytes → Option Bytes) → Option Bytes → Option Bytes
unfolding encoded
curve_point x25519 none = none
curve_point x25519 (some key) = encoded (x25519 key)

unfoldable pub derive_wg_public_key : (Bytes → Option Bytes) → Bytes → Option Bytes
unfolding curve_point
derive_wg_public_key x25519 private_key = curve_point x25519 (decode private_key)

-- `strings.TrimSuffix(s, "\n")`
abbrev trim_newline : Bytes → Bytes
trim_newline s = if last_or 0 s == b'\n' then init s else s

-- The public key and its file, the private key being on the disk.
unfoldable pub write_ssh_public :
    Bytes → Option Bytes → Disk → Disk × Result KeygenError (Bytes × Bytes)
write_ssh_public key_path none d = ((remove d key_path).0, err no_ssh_public)
write_ssh_public key_path (some line) d =
    let pub_key = trim_newline line ++ codes " ubo-client" in
    let (d', went) = write_file d (key_path ++ codes ".pub") (pub_key ++ codes "\n") 0o644 in
    if went then (d', ok (key_path, pub_key)) else ((remove d' key_path).0, err public_not_written)

unfoldable pub write_ssh_private :
    Bytes → Option Bytes → Option Bytes → Disk → Disk × Result KeygenError (Bytes × Bytes)
unfolding write_ssh_public
write_ssh_private key_path none line d = (d, err no_ssh_key)
write_ssh_private key_path (some pem) line d =
    let (d', went) = write_file d key_path pem 0o600 in
    if went then write_ssh_public key_path line d' else (d', err private_not_written)

unfoldable pub generate_ssh_keypair :
    Sources → Bytes → Bytes → Disk → Disk × Result KeygenError (Bytes × Bytes)
unfolding write_ssh_private
generate_ssh_keypair sources name out_dir d =
    write_ssh_private (join out_dir name) sources.ssh_private sources.ssh_public d

module _ (sources : Sources) (out_dir : Bytes) where
  unfoldable pub all_keys :
      Bytes × Bytes
      → Bytes × Bytes
      → Disk × Result KeygenError (Bytes × Bytes)
      → Disk × Result KeygenError Keys
  all_keys server client (d, err e) = (d, err e)
  all_keys (server_private, server_public) (client_private, client_public) (d, ok (path, pub_key)) =
      (
        d,
        ok (record {
          server_wg_private = server_private;
          server_wg_public = server_public;
          client_wg_private = client_private;
          client_wg_public = client_public;
          client_ssh_key_path = path;
          client_ssh_pub_key = pub_key;
        }),
      )

  unfoldable pub with_client_keys :
      Bytes × Bytes → Disk × Result KeygenError (Bytes × Bytes) → Disk × Result KeygenError Keys
  unfolding all_keys generate_ssh_keypair
  with_client_keys server (d, err e) = (d, err e)
  with_client_keys server (d, ok client) =
      all_keys server client (generate_ssh_keypair sources (codes "client_auth_ed25519") out_dir d)

  unfoldable pub with_server_keys :
      Disk × Result KeygenError (Bytes × Bytes) → Disk × Result KeygenError Keys
  unfolding with_client_keys generate_wire_guard_keypair derive_wg_public_key
  with_server_keys (d, err e) = (d, err e)
  with_server_keys (d, ok server) = with_client_keys server (
      generate_wire_guard_keypair encode (derive_wg_public_key sources.x25519) sources.client_random
        (codes "client_wg") out_dir d)

  -- Keys that are there are taken as they are.
  unfoldable pub reuse_or_generate : Result IoError Keys → Disk → Disk × Result KeygenError Keys
  unfolding with_server_keys generate_wire_guard_keypair derive_wg_public_key
  reuse_or_generate (ok keys) d = (d, ok keys)
  reuse_or_generate (err _) d = with_server_keys (
      generate_wire_guard_keypair encode (derive_wg_public_key sources.x25519) sources.server_random
        (codes "server_wg") out_dir d)

  unfoldable pub generate_all : Disk → Disk × Result KeygenError Keys
  unfolding load_existing reuse_or_generate
  generate_all d = reuse_or_generate (load_existing d out_dir) d
