-- ===== src/Setup/Grub.antt =====
-- `configureGrub`, `updateGrubContent` and `cmdlineHasIPParam` of internal/setup/setup.go.
use tool_public_ubo.Base.{
  ℕ, zero, suc, ◌≡◌, refl, Bool, true, false, ◌||◌, List, [], ◌∷◌, ◌++◌, ◌==◌, if◌then◌else◌,
  Option, none, some, length,
}
use tool_public_ubo.Base.Result.{Result, ok, err, ◌>>=◌, ◌>>◌, map_err}
use tool_public_ubo.Remote.Client.{Client}
use tool_public_ubo.Remote.Process.{Ssh, run_command, write_file, read_file}
use tool_public_ubo.Setup.{NetworkInfo}
use tool_public_ubo.Setup.Netmask.{prefix_to_netmask}
use tool_public_ubo.Text.Compare.{Bytes, codes, has_prefix, strip_prefix, cut}
use tool_public_ubo.Text.Space.{trim_space, fields}

-- A whole word that begins with "ip=".
any_ip : List Bytes → Bool
any_ip [] = false
any_ip (f ∷ fs) = has_prefix f (codes "ip=") || any_ip fs

unfoldable pub cmdline_has_ip_param : Bytes → Bool
unfolding any_ip fields
cmdline_has_ip_param cmdline = any_ip (fields cmdline)

-- The matches of the pattern, with the text between them byte by byte.
pub data Segment : Type 0 where
  byte : ℕ → Segment
  cmdline : Bytes → Segment

-- The value of a match that begins here, and what follows it.
unfoldable pub match_here : Bytes → Option (Bytes × Bytes)
unfolding strip_prefix cut
match_here s = elim (strip_prefix (codes "GRUB_CMDLINE_LINUX=\"") s) [
  | none ↦ none
  | some rest ↦ cut b'"' rest
]

-- A match begins at the start of a line; every step takes a byte at least, so that the length of the
-- text is enough fuel.
unfoldable pub segments : ℕ → Bool → Bytes → List Segment
unfolding match_here
segments zero start s = []
segments (suc fuel) start [] = []
segments (suc fuel) start (c ∷ s) = elim (if start then match_here (c ∷ s) else none) [
  | some (value, after) ↦ cmdline value ∷ segments fuel false after
  | none ↦ byte c ∷ segments fuel (c == b'\n') s
]

has_match : List Segment → Bool
has_match [] = false
has_match (byte c ∷ segs) = has_match segs
has_match (cmdline v ∷ segs) = true

already_set : List Segment → Bool
unfolding cmdline_has_ip_param
already_set [] = false
already_set (byte c ∷ segs) = already_set segs
already_set (cmdline v ∷ segs) = cmdline_has_ip_param v || already_set segs

-- The text with the parameter behind each value.
unfoldable pub with_param : Bytes → List Segment → Bytes
unfolding trim_space
with_param param [] = []
with_param param (byte c ∷ segs) = c ∷ with_param param segs
with_param param (cmdline v ∷ segs) =
    codes "GRUB_CMDLINE_LINUX=\""
    ++ (trim_space (v ++ b' ' ∷ param) ++ b'"' ∷ with_param param segs)

unfoldable pub update_grub_content : Bytes → Bytes → Bytes × Bool
unfolding segments has_match already_set with_param
update_grub_content content param =
    let segs = segments (length content) true content in
    if has_match segs
    then (if already_set segs then (content, false) else (with_param param segs, true))
    else (content ++ (codes "\nGRUB_CMDLINE_LINUX=\"" ++ (param ++ codes "\"\n")), true)

pub data GrubError : Type 0 where
  not_read not_written not_updated : Bytes → GrubError
  netmask_panic : GrubError

abbrev ip_param : NetworkInfo → Bytes → Bytes
ip_param info mask =
    codes "ip="
    ++ (info.ip
        ++ (codes "::"
            ++ (info.gateway
                ++ b':'
                  ∷ (mask ++ b':' ∷ (info.hostname ++ b':' ∷ (info.interface ++ codes ":none"))))))

abbrev grub_path : Bytes
grub_path = codes "/etc/default/grub"

mask_of : Option Bytes → Result GrubError Bytes
mask_of none = err netmask_panic
mask_of (some mask) = ok mask

-- The writing of the changed file and the run of update-grub; nothing is done without a change.
write_grub : Ssh → Client → Bytes × Bool → Result GrubError (Unit {0})
write_grub ssh client (content, false) = ok tt
write_grub ssh client (content, true) = do
  map_err not_written (write_file ssh client grub_path content 0o644)
  map_err not_updated ((run_command ssh client (codes "update-grub 2>&1")).1)

unfoldable pub configure_grub : Ssh → Client → NetworkInfo → Result GrubError (Unit {0})
unfolding mask_of write_grub update_grub_content
configure_grub ssh client info = do
  content ← map_err not_read (read_file ssh client grub_path)
  mask ← mask_of (prefix_to_netmask info.prefix)
  write_grub ssh client (update_grub_content content (ip_param info mask))

added_test :
    update_grub_content (codes "A=1\nGRUB_CMDLINE_LINUX=\"quiet gossip=1\"\n") (codes "ip=1")
    ≡ (codes "A=1\nGRUB_CMDLINE_LINUX=\"quiet gossip=1 ip=1\"\n", true)
unfolding update_grub_content has_prefix
added_test = refl

kept_test :
    update_grub_content (codes "GRUB_CMDLINE_LINUX=\"quiet ip=dhcp\"\n") (codes "ip=1")
    ≡ (codes "GRUB_CMDLINE_LINUX=\"quiet ip=dhcp\"\n", false)
unfolding update_grub_content has_prefix
kept_test = refl

appended_test :
    update_grub_content (codes "x") (codes "ip=1")
    ≡ (codes "x\nGRUB_CMDLINE_LINUX=\"ip=1\"\n", true)
unfolding update_grub_content has_prefix
appended_test = refl
