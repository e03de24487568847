-- ===== src/Templates/SetupScript/Files.antt =====
-- The first part of `SetupScriptTmpl`: the steps up to the files of the initramfs.
use tool_public_ubo.Base.{List, [], ◌∷◌}
use tool_public_ubo.Templates.Render.{Part, text, hole, rule, dash}
use tool_public_ubo.Text.Compare.{codes}

pub data SetupField : Type 0 where
  wg_server_conf initramfs_hook initramfs_script authorized_keys dropbear_conf umask_conf :
      SetupField
  net_interface net_ip net_gateway net_mask net_hostname grub_interface : SetupField

abbrev pub files_tmpl : List (Part SetupField)
files_tmpl =
    text (codes "#!/bin/sh\n")
    ∷ text (codes "set -e\n")
    ∷ text (codes "\n")
    ∷ text (codes "# ")
    ∷ text (rule 2)
    ∷ text (codes " Step 2: Install packages ")
    ∷ text (rule 50)
    ∷ text (codes "\n")
    ∷ text (codes "echo \"[ubo-setup] step 2/11: installing packages\" >&2\n")
    ∷ text (codes "DEBIAN_FRONTEND=noninteractive apt-get update -qq\n")
    ∷ text (
        codes
          "DEBIAN_FRONTEND=noninteractive apt-get install -y -qq dropbear-initramfs wireguard-tools mdadm\n")
    ∷ text (codes "\n")
    ∷ text (codes "# ")
    ∷ text (rule 2)
    ∷ text (codes " Step 2b: Preflight checks ")
    ∷ text (rule 48)
    ∷ text (codes "\n")
    ∷ text (
        codes
          "# Abort if /boot is on an encrypted volume: the initramfs would embed the WireGuard\n")
    ∷ text
        (codes "# private key inside the very image that can't be read without unlocking first.\n")
    ∷ text (codes "_boot_dev=$(df /boot 2>/dev/null | awk 'NR==2{print $1}')\n")
    ∷ text
        (codes "if [ -n \"$_boot_dev\" ] && cryptsetup isLuks \"$_boot_dev\" 2>/dev/null; then\n")
    ∷ text (
        codes
          "    echo \"[ubo-setup] ERROR: /boot is on an encrypted device ($boot_dev); cannot embed keys in initramfs\" >&2\n")
    ∷ text (codes "    exit 1\n")
    ∷ text (codes "fi\n")
    ∷ text (codes "\n")
    ∷ text (codes "# Warn if Secure Boot is enabled ")
    ∷ text dash
    ∷ text (codes " our initramfs hook is unsigned.\n")
    ∷ text (codes "if [ -d /sys/firmware/efi/efivars ]; then\n")
    ∷ text
        (codes "    _sb_file=$(ls /sys/firmware/efi/efivars/SecureBoot-* 2>/dev/null | head -1)\n")
    ∷ text (codes "    if [ -n \"$_sb_file\" ]; then\n")
    ∷ text
        (codes "        _sb=$(od -An -j4 -N1 -t u1 < \"$_sb_file\" 2>/dev/null | tr -d ' \\n')\n")
    ∷ text (codes "        if [ \"$_sb\" = \"1\" ]; then\n")
    ∷ text (
        codes
          "            echo \"[ubo-setup] WARNING: Secure Boot is enabled; the initramfs WireGuard hook is unsigned and may be blocked at boot\" >&2\n")
    ∷ text (codes "        fi\n")
    ∷ text (codes "    fi\n")
    ∷ text (codes "fi\n")
    ∷ text (codes "\n")
    ∷ text (codes "# Warn if the WireGuard kernel module is not available.\n")
    ∷ text (codes "if ! modinfo wireguard >/dev/null 2>&1; then\n")
    ∷ text (
        codes
          "    echo \"[ubo-setup] WARNING: wireguard kernel module not found; ensure linux-headers or linux-image-extra is installed\" >&2\n")
    ∷ text (codes "fi\n")
    ∷ text (codes "\n")
    ∷ text (codes "# ")
    ∷ text (rule 2)
    ∷ text (codes " Step 3: Detect dropbear path and regenerate host key ")
    ∷ text (rule 21)
    ∷ text (codes "\n")
    ∷ text (codes "echo \"[ubo-setup] step 3/11: generating dropbear host key\" >&2\n")
    ∷ text (codes "if [ -d /etc/dropbear/initramfs ]; then\n")
    ∷ text (codes "    DROPBEAR_DIR=/etc/dropbear/initramfs\n")
    ∷ text (codes "elif [ -d /etc/dropbear-initramfs ]; then\n")
    ∷ text (codes "    DROPBEAR_DIR=/etc/dropbear-initramfs\n")
    ∷ text (codes "else\n")
    ∷ text (
        codes "    echo \"[ubo-setup] error: dropbear-initramfs config directory not found\" >&2\n")
    ∷ text (codes "    exit 1\n")
    ∷ text (codes "fi\n")
    ∷ text (codes "DROPBEAR_KEY=\"$DROPBEAR_DIR/dropbear_ed25519_host_key\"\n")
    ∷ text (codes "rm -f \"$DROPBEAR_KEY\"\n")
    ∷ text (codes "dropbearkey -t ed25519 -f \"$DROPBEAR_KEY\" >&2\n")
    ∷ text
        (codes "DROPBEAR_PUB=$(dropbearkey -y -f \"$DROPBEAR_KEY\" 2>/dev/null | grep '^ssh-')\n")
    ∷ text (codes "\n")
    ∷ text (codes "# ")
    ∷ text (rule 2)
    ∷ text (codes " Steps 4-9: Write config files ")
    ∷ text (rule 45)
    ∷ text (codes "\n")
    ∷ text (codes "echo \"[ubo-setup] steps 4-9/11: writing config files\" >&2\n")
    ∷ text (codes "\n")
    ∷ text (codes "mkdir -p /etc/wireguard\n")
    ∷ text (codes "printf '%s' '")
    ∷ hole wg_server_conf
    ∷ text (codes "' | base64 -d > /etc/wireguard/wg-initramfs.conf\n")
    ∷ text (codes "chmod 600 /etc/wireguard/wg-initramfs.conf\n")
    ∷ text (codes "\n")
    ∷ text (codes "mkdir -p /etc/initramfs-tools/hooks\n")
    ∷ text (codes "printf '%s' '")
    ∷ hole initramfs_hook
    ∷ text (codes "' | base64 -d > /etc/initramfs-tools/hooks/wireguard\n")
    ∷ text (codes "chmod 755 /etc/initramfs-tools/hooks/wireguard\n")
    ∷ text (codes "\n")
    ∷ text (codes "mkdir -p /etc/initramfs-tools/scripts/init-premount\n")
    ∷ text (codes "printf '%s' '")
    ∷ hole initramfs_script
    ∷ text (codes "' | base64 -d > /etc/initramfs-tools/scripts/init-premount/wireguard\n")
    ∷ text (codes "chmod 755 /etc/initramfs-tools/scripts/init-premount/wireguard\n")
    ∷ text (codes "\n")
    ∷ text (codes "printf '%s' '")
    ∷ hole authorized_keys
    ∷ text (codes "' | base64 -d > \"$DROPBEAR_DIR/authorized_keys\"\n")
    ∷ text (codes "chmod 600 \"$DROPBEAR_DIR/authorized_keys\"\n")
    ∷ text (codes "\n")
    ∷ text (codes "printf '%s' '")
    ∷ hole dropbear_conf
    ∷ text (codes "' | base64 -d > \"$DROPBEAR_DIR/dropbear.conf\"\n")
    ∷ text (codes "\n")
    ∷ text (codes "mkdir -p /etc/initramfs-tools/conf.d\n")
    ∷ text (codes "printf '%s' '")
    ∷ hole umask_conf
    ∷ text (codes "' | base64 -d > /etc/initramfs-tools/conf.d/ubo\n")
    ∷ text (codes "\n")
    ∷ []
