-- ===== src/Tests/Keys.antt =====
-- The theorems on key generation and on the selection of a configuration at concrete inputs.
use tool_public_ubo.Base.{◌≡◌, refl, false, none, some, [], ◌∷◌, ◌++◌, Option, List}
use tool_public_ubo.Base.Int.{le_ℕ}
use tool_public_ubo.Base.Result.{ok}
use tool_public_ubo.Keygen.{generate_wire_guard_keypair, clamp}
use tool_public_ubo.Keygen.Clean.{Left, generate_wire_guard_keypair-Left}
use tool_public_ubo.Main.Select.{
  IsChoice, pick_unlock_config, prompt_select_config, scan_int, choose, pick_unlock_config-IsChoice,
}
use tool_public_ubo.System.Disk.{Disk}
use tool_public_ubo.Text.Compare.{Bytes, codes, equal}
use tool_public_ubo.Text.FilePath.{join}
use tool_public_ubo.Text.Space.{trim_space}

-- A disk on which the public key cannot be written.
abbrev full_disk : Disk
full_disk = record {
  files = λ _. none;
  unreadable = λ _. false;
  unwritable = λ p. equal p (codes "out/wg_public.key");
  leftover = λ _. none;
  fixed = λ _. false;
}

abbrev same_text : Bytes → Bytes
same_text s = s

abbrev derived : Bytes → Option Bytes
derived s = some s

abbrev random : Option Bytes
random = some (7 ∷ 200 ∷ [])

apart :
    equal
      (join (codes "out") (codes "wg" ++ codes "_private.key"))
      (join (codes "out") (codes "wg" ++ codes "_public.key"))
    ≡ false
unfolding equal join
apart = refl

apart_back :
    equal
      (join (codes "out") (codes "wg" ++ codes "_public.key"))
      (join (codes "out") (codes "wg" ++ codes "_private.key"))
    ≡ false
unfolding equal join
apart_back = refl

generate_example :
    Left full_disk
      (join (codes "out") (codes "wg" ++ codes "_private.key"))
      (join (codes "out") (codes "wg" ++ codes "_public.key"))
      (generate_wire_guard_keypair same_text derived random (codes "wg") (codes "out") full_disk).1
      (generate_wire_guard_keypair same_text derived random (codes "wg") (codes "out") full_disk).0
generate_example =
    generate_wire_guard_keypair-Left same_text derived random (codes "wg") (codes "out") full_disk
      apart apart_back refl

clamp_test : clamp (255 ∷ 9 ∷ 255 ∷ []) ≡ 248 ∷ 9 ∷ 127 ∷ []
unfolding clamp
clamp_test = refl

abbrev two : List Bytes
two = codes "ubo-a/ubo.toml" ∷ codes "ubo-b/ubo.toml" ∷ []

pick_unlock_config_example : IsChoice two (pick_unlock_config two (some (codes "3\n")))
pick_unlock_config_example = pick_unlock_config-IsChoice two (some (codes "3\n"))

pick_test : pick_unlock_config two (some (codes " 2\n")) ≡ ok (codes "ubo-b/ubo.toml")
unfolding pick_unlock_config prompt_select_config scan_int choose trim_space le_ℕ
pick_test = refl
