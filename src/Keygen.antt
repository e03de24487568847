-- ===== src/Keygen.antt =====
-- internal/keygen/keygen.go. The random source, base64, the curve and the SSH keys are parameters.
pub mod Clean
pub mod All
use Prim.Native.Nat.{bit_and, bit_or}
use tool_public_ubo.Base.{
  ℕ, zero, suc, Bool, true, false, List, [], ◌∷◌, ◌++◌, Option, none, some, if◌then◌else◌,
}
use tool_public_ubo.Base.Result.{Result, ok, err, ◌>>=◌, map_err}
use tool_public_ubo.System.Disk.{Disk, IoError, not_exist, exists, read_file, write_file, remove}
use tool_public_ubo.Text.Compare.{Bytes, codes}
use tool_public_ubo.Text.FilePath.{join}
use tool_public_ubo.Text.Space.{trim_space}

pub record Keys : Type 0 where
  pub server_wg_private : Bytes
  pub server_wg_public : Bytes
  pub client_wg_private : Bytes
  pub client_wg_public : Bytes
  pub client_ssh_key_path : Bytes
  pub client_ssh_pub_key : Bytes

pub data KeygenError : Type 0 where
  random_failed not_derived no_ssh_key no_ssh_public : KeygenError
  private_not_written public_not_written : KeygenError

-- The first and the last of the 32 bytes are clamped.
unfoldable pub clamp_last : Bytes → Bytes
clamp_last [] = []
clamp_last (c ∷ []) = bit_or (bit_and c 127) 64 ∷ []
clamp_last (c ∷ d ∷ s) = c ∷ clamp_last (d ∷ s)

unfoldable pub clamp : Bytes → Bytes
unfolding clamp_last
clamp [] = []
clamp (c ∷ s) = clamp_last (bit_and c 248 ∷ s)

unfoldable pub read_trimmed_files : Disk → Bytes → List Bytes → Result IoError (List Bytes)
read_trimmed_files d out_dir [] = ok []
read_trimmed_files d out_dir (name ∷ names) = do
  b ← read_file d (join out_dir name)
  vals ← read_trimmed_files d out_dir names
  ok (trim_space b ∷ vals)

abbrev pub key_names : List Bytes
key_names =
    codes "server_wg_private.key"
    ∷ codes "server_wg_public.key"
    ∷ codes "client_wg_private.key"
    ∷ codes "client_wg_public.key"
    ∷ codes "client_auth_ed25519.pub"
    ∷ []

keys_from : Bytes → List Bytes → Result IoError Keys
keys_from path (a ∷ b ∷ c ∷ d ∷ e ∷ []) = ok (record {
  server_wg_private = a;
  server_wg_public = b;
  client_wg_private = c;
  client_wg_public = d;
  client_ssh_key_path = path;
  client_ssh_pub_key = e;
})
keys_from path _ = err not_exist

unfoldable pub load_existing : Disk → Bytes → Result IoError Keys
unfolding keys_from
load_existing d out_dir = do
  vals ← read_trimmed_files d out_dir key_names
  (if exists d (join out_dir (codes "client_auth_ed25519"))
      then keys_from (join out_dir (codes "client_auth_ed25519")) vals
      else err not_exist)

-- `rand` is what `rand.Read` gives; `derive` is the public key of a private one.
module _ (encode : Bytes → Bytes) (derive : Bytes → Option Bytes) where
  unfoldable pub generate_wg_private_key : Option Bytes → Result KeygenError Bytes
  generate_wg_private_key none = err random_failed
  generate_wg_private_key (some key) = ok (encode (clamp key))

  -- The public key and its file, the private key being on the disk.
  unfoldable pub write_public :
      Bytes → Bytes → Bytes → Option Bytes → Disk → Disk × Result KeygenError (Bytes × Bytes)
  write_public priv_path pub_path private_key none d = ((remove d priv_path).0, err not_derived)
  write_public priv_path pub_path private_key (some public_key) d =
      let (d', written) = write_file d pub_path (public_key ++ codes "\n") 0o644 in
      if written
      then (d', ok (private_key, public_key))
      else ((remove d' priv_path).0, err public_not_written)

  unfoldable pub write_private :
      Bytes → Bytes → Result KeygenError Bytes → Disk → Disk × Result KeygenError (Bytes × Bytes)
  write_private priv_path pub_path (err e) d = (d, err e)
  write_private priv_path pub_path (ok private_key) d =
      let (d', written) = write_file d priv_path (private_key ++ codes "\n") 0o600 in
      if written
      then write_public priv_path pub_path private_key (derive private_key) d'
      else (d', err private_not_written)

  unfoldable pub generate_wire_guard_keypair :
      Option Bytes → Bytes → Bytes → Disk → Disk × Result KeygenError (Bytes × Bytes)
  generate_wire_guard_keypair rand name out_dir d =
      write_private (join out_dir (name ++ codes "_private.key"))
        (join out_dir (name ++ codes "_public.key")) (generate_wg_private_key rand) d
