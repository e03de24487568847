-- ===== src/Templates/Embedded.antt =====
-- That nothing which `RenderSetupScript` of internal/templates/templates.go puts into the script can
-- change what the script does.
use tool_public_ubo.Base.{ℕ, zero, suc, ◌≡◌, List, [], ◌∷◌, ◌++◌, some, All}
use tool_public_ubo.Templates.Checks.{SetupScriptData}
use tool_public_ubo.Templates.Render.{Part, IsPlain}
use tool_public_ubo.Templates.SetupScript.Files.{
  SetupField, wg_server_conf, initramfs_hook, initramfs_script, authorized_keys, dropbear_conf,
  umask_conf, net_interface, net_ip, net_gateway, net_mask, net_hostname, grub_interface,
}
use tool_public_ubo.Text.Base64.{IsByte, decode}
use tool_public_ubo.Text.Compare.{Bytes, codes}

-- The contents of files are any bytes, the other fields are made of plain characters.
pub record IsEmbeddable (d : SetupScriptData) : Type 0 where
  pub wg_server_conf : All IsByte d.wg_server_conf
  pub initramfs_hook : All IsByte d.initramfs_hook
  pub initramfs_script : All IsByte d.initramfs_script
  pub authorized_keys : All IsByte d.authorized_keys
  pub dropbear_conf : All IsByte d.dropbear_conf
  pub umask_conf : All IsByte d.umask_conf
  pub net_ip : All IsPlain d.net_ip
  pub net_gateway : All IsPlain d.net_gateway
  pub net_mask : All IsPlain d.net_mask
  pub net_hostname : All IsPlain d.net_hostname
  pub net_interface : All IsPlain d.net_interface
  pub grub_interface : All IsPlain d.grub_interface

abbrev first_parts : ℕ → List (Part SetupField) → List (Part SetupField)
first_parts zero parts = []
first_parts (suc n) [] = []
first_parts (suc n) (p ∷ parts) = p ∷ first_parts n parts

abbrev after_parts : ℕ → List (Part SetupField) → List (Part SetupField)
after_parts zero parts = parts
after_parts (suc n) [] = []
after_parts (suc n) (p ∷ parts) = after_parts n parts

-- The script writes the file: a command prints a text in single quotes that base64 decodes to the content,
-- and sends what base64 makes of it to the target.
pub Writes : Bytes → Bytes → Bytes → Type 0
Writes script content target =
    (front : Bytes) × (encoded : Bytes) × (back : Bytes) × (script
      ≡ front
        ++ (codes "printf '%s' '" ++ (encoded ++ ((codes "' | base64 -d > " ++ target) ++ back))))
    × (decode encoded ≡ some content)

-- The six files, each with the place that it belongs to.
pub WritesAll : Bytes → SetupScriptData → Type 0
WritesAll script d =
    Writes script d.wg_server_conf (codes "/etc/wireguard/wg-initramfs.conf\n")
    × Writes script d.initramfs_hook (codes "/etc/initramfs-tools/hooks/wireguard\n")
    × Writes script d.initramfs_script
        (codes "/etc/initramfs-tools/scripts/init-premount/wireguard\n")
    × Writes script d.authorized_keys (codes "\"$DROPBEAR_DIR/authorized_keys\"\n")
    × Writes script d.dropbear_conf (codes "\"$DROPBEAR_DIR/dropbear.conf\"\n")
    × Writes script d.umask_conf (codes "/etc/initramfs-tools/conf.d/ubo\n")
