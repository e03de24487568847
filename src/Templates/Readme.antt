-- ===== src/Templates/Readme.antt =====
-- `ReadmeTmpl` and `RenderReadme` of internal/templates/templates.go.
use tool_public_ubo.Base.{List, [], ◌∷◌}
use tool_public_ubo.Base.Int.{ℤ}
use tool_public_ubo.Templates.Render.{Part, text, hole, dash, render}
use tool_public_ubo.Text.Compare.{Bytes, codes}

-- The template names one of the three fields only.
pub record ReadmeTmplData : Type 0 where
  pub server_tunnel_ip : Bytes
  pub dropbear_port : ℤ
  pub config_path : Bytes

pub data ReadmeField : Type 0 where
  config_path : ReadmeField

abbrev pub readme_value : ReadmeTmplData → ReadmeField → Bytes
readme_value d config_path = d.config_path

abbrev pub readme_tmpl : List (Part ReadmeField)
readme_tmpl =
    text (codes "Remote LUKS Unlock Instructions\n")
    ∷ text (codes "================================\n")
    ∷ text (codes "\n")
    ∷ text (codes "Generated by ubo (Unlock Before Operation).\n")
    ∷ text (codes "\n")
    ∷ text (codes "Files in this directory:\n")
    ∷ text (codes "  client_wg.conf         ")
    ∷ text dash
    ∷ text (codes " WireGuard client config\n")
    ∷ text (codes "  client_auth_ed25519    ")
    ∷ text dash
    ∷ text (codes " SSH key for Dropbear\n")
    ∷ text (codes "  dropbear_host_key.pub  ")
    ∷ text dash
    ∷ text (codes " Pinned Dropbear host key\n")
    ∷ text (codes "\n")
    ∷ text (codes "Unlock procedure\n")
    ∷ text (codes "----------------\n")
    ∷ text (codes "\n")
    ∷ text (codes "1. Reboot the remote server.\n")
    ∷ text (codes "\n")
    ∷ text (codes "2. When the server is in the initramfs stage, run:\n")
    ∷ text (codes "\n")
    ∷ text (codes "   ubo unlock --config ")
    ∷ hole config_path
    ∷ text (codes "\n")
    ∷ text (codes "\n")
    ∷ text (codes "   ubo will bring up the WireGuard tunnel automatically (no root required),\n")
    ∷ text (codes "   SSH to Dropbear, and run cryptroot-unlock.\n")
    ∷ text (codes "\n")
    ∷ text (codes "3. Enter the LUKS passphrase when prompted.\n")
    ∷ text (codes "   The server will continue booting automatically.\n")
    ∷ text (codes "\n")
    ∷ text (codes "Change LUKS passphrase\n")
    ∷ text (codes "----------------------\n")
    ∷ text (codes "\n")
    ∷ text (codes "   ubo unlock change --config ")
    ∷ hole config_path
    ∷ text (codes "\n")
    ∷ text (codes "\n")
    ∷ text (codes "This connects via WireGuard + Dropbear and runs:\n")
    ∷ text (codes "  cryptsetup luksChangeKey <device>\n")
    ∷ text (codes "Then prompts whether to unlock and boot immediately.\n")
    ∷ []

unfoldable pub render_readme : ReadmeTmplData → Bytes
unfolding render
render_readme d = render (readme_value d) readme_tmpl
