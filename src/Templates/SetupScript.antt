-- ===== src/Templates/SetupScript.antt =====
-- `SetupScriptTmpl` and `RenderSetupScript` of internal/templates/templates.go.
pub mod Files
pub mod Boot
use tool_public_ubo.Base.{List, ◌++◌}
use tool_public_ubo.Base.Result.{Result, ok, ◌>>◌}
use tool_public_ubo.Templates.Checks.{SetupScriptData, FieldError, validate_setup_script_data}
use tool_public_ubo.Templates.Render.{Part, render}
use tool_public_ubo.Text.Base64.{encode}
use tool_public_ubo.Text.Compare.{Bytes}
use Files.{
  files_tmpl, SetupField, wg_server_conf, initramfs_hook, initramfs_script, authorized_keys,
  dropbear_conf, umask_conf, net_interface, net_ip, net_gateway, net_mask, net_hostname,
  grub_interface,
}
use Boot.{boot_tmpl}

-- `setupScriptRendered`: the contents of files in base64, the other fields as they are.
unfoldable pub setup_value : SetupScriptData → SetupField → Bytes
setup_value d wg_server_conf = encode d.wg_server_conf
setup_value d initramfs_hook = encode d.initramfs_hook
setup_value d initramfs_script = encode d.initramfs_script
setup_value d authorized_keys = encode d.authorized_keys
setup_value d dropbear_conf = encode d.dropbear_conf
setup_value d umask_conf = encode d.umask_conf
setup_value d net_interface = d.net_interface
setup_value d net_ip = d.net_ip
setup_value d net_gateway = d.net_gateway
setup_value d net_mask = d.net_mask
setup_value d net_hostname = d.net_hostname
setup_value d grub_interface = d.grub_interface

abbrev pub setup_script_tmpl : List (Part SetupField)
setup_script_tmpl = files_tmpl ++ boot_tmpl

unfoldable pub render_setup_script : SetupScriptData → Result FieldError Bytes
unfolding setup_value render
render_setup_script d =
    validate_setup_script_data d >> ok (render (setup_value d) setup_script_tmpl)
