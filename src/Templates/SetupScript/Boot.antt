-- ===== src/Templates/SetupScript/Boot.antt =====
-- The rest of `SetupScriptTmpl`: the drivers, the boot loader and the initramfs.
use tool_public_ubo.Base.{List, [], ◌∷◌}
use tool_public_ubo.Templates.Render.{Part, text, hole, rule}
use tool_public_ubo.Templates.SetupScript.Files.{
  SetupField, net_interface, net_ip, net_gateway, net_mask, net_hostname, grub_interface,
}
use tool_public_ubo.Text.Compare.{codes}

abbrev pub boot_tmpl : List (Part SetupField)
boot_tmpl =
    text (codes "# ")
    ∷ text (rule 2)
    ∷ text (codes " Step 9b: Ensure NIC driver(s) are included in initramfs ")
    ∷ text (rule 18)
    ∷ text (codes "\n")
    ∷ text (codes "# update-initramfs includes storage drivers for LUKS but skips NIC drivers on\n")
    ∷ text (codes "# systems where the root filesystem is local (not NFS). Detect and add each\n")
    ∷ text (codes "# required module (handles plain NIC, bond, bridge, and VLAN topologies).\n")
    ∷ text (codes "_add_mod() {\n")
    ∷ text (codes "    [ -z \"$1\" ] && return\n")
    ∷ text (codes "    grep -qxF \"$1\" /etc/initramfs-tools/modules 2>/dev/null || \\\n")
    ∷ text (codes "        echo \"$1\" >> /etc/initramfs-tools/modules\n")
    ∷ text (codes "    echo \"[ubo-setup] initramfs module: $1\" >&2\n")
    ∷ text (codes "}\n")
    ∷ text (codes "_drv_for() {\n")
    ∷ text (
        codes
          "    basename \"$(readlink /sys/class/net/\"$1\"/device/driver 2>/dev/null)\" 2>/dev/null || true\n")
    ∷ text (codes "}\n")
    ∷ text (codes "_NIC=\"")
    ∷ hole net_interface
    ∷ text (codes "\"\n")
    ∷ text (codes "if [ -f /sys/class/net/\"$_NIC\"/bonding/slaves ]; then\n")
    ∷ text (codes "    _add_mod bonding\n")
    ∷ text (
        codes
          "    for _sl in $(cat /sys/class/net/\"$_NIC\"/bonding/slaves); do _add_mod \"$(_drv_for \"$_sl\")\"; done\n")
    ∷ text (codes "elif ls /sys/class/net/\"$_NIC\"/brif/ >/dev/null 2>&1; then\n")
    ∷ text (codes "    _add_mod bridge\n")
    ∷ text (
        codes
          "    for _pt in $(ls /sys/class/net/\"$_NIC\"/brif/); do _add_mod \"$(_drv_for \"$_pt\")\"; done\n")
    ∷ text (codes "elif ls /sys/class/net/\"$_NIC\"/lower_* >/dev/null 2>&1; then\n")
    ∷ text (codes "    _add_mod 8021q\n")
    ∷ text (codes "    for _lw in /sys/class/net/\"$_NIC\"/lower_*; do\n")
    ∷ text
        (codes "        _pd=$(basename \"$(readlink \"$_lw\" 2>/dev/null)\" 2>/dev/null || true)\n")
    ∷ text (codes "        [ -n \"$_pd\" ] || continue\n")
    ∷ text (codes "        if [ -f /sys/class/net/\"$_pd\"/bonding/slaves ]; then\n")
    ∷ text (codes "            _add_mod bonding\n")
    ∷ text (
        codes
          "            for _sl in $(cat /sys/class/net/\"$_pd\"/bonding/slaves 2>/dev/null); do\n")
    ∷ text (codes "                _add_mod \"$(_drv_for \"$_sl\")\"\n")
    ∷ text (codes "            done\n")
    ∷ text (codes "        else\n")
    ∷ text (codes "            _add_mod \"$(_drv_for \"$_pd\")\"\n")
    ∷ text (codes "        fi\n")
    ∷ text (codes "    done\n")
    ∷ text (codes "else\n")
    ∷ text (codes "    _add_mod \"$(_drv_for \"$_NIC\")\"\n")
    ∷ text (codes "fi\n")
    ∷ text (codes "\n")
    ∷ text (codes "# ")
    ∷ text (rule 2)
    ∷ text (codes " Step 10: Configure bootloader ")
    ∷ text (rule 45)
    ∷ text (codes "\n")
    ∷ text (codes "echo \"[ubo-setup] step 10/11: configuring bootloader\" >&2\n")
    ∷ text (codes "IP_PARAM=\"ip=")
    ∷ hole net_ip
    ∷ text (codes "::")
    ∷ hole net_gateway
    ∷ text (codes ":")
    ∷ hole net_mask
    ∷ text (codes ":")
    ∷ hole net_hostname
    ∷ text (codes ":")
    ∷ hole grub_interface
    ∷ text (codes ":none\"\n")
    ∷ text (codes "if [ -f /etc/default/grub ]; then\n")
    ∷ text (codes "    GRUB_FILE=/etc/default/grub\n")
    ∷ text (
        codes
          "    if grep -qE '^GRUB_CMDLINE_LINUX=\"[^\"]*ip=' \"$GRUB_FILE\" 2>/dev/null; then\n")
    ∷ text (
        codes
          "        echo \"[ubo-setup] GRUB_CMDLINE_LINUX already contains ip=; skipping\" >&2\n")
    ∷ text (codes "    elif grep -qE '^GRUB_CMDLINE_LINUX=\"' \"$GRUB_FILE\" 2>/dev/null; then\n")
    ∷ text (
        codes
          "        sed -i \"s|^GRUB_CMDLINE_LINUX=\\\"\\(.*\\)\\\"|GRUB_CMDLINE_LINUX=\\\"\\1 $IP_PARAM\\\"|\" \"$GRUB_FILE\"\n")
    ∷ text (codes "        update-grub 2>&1 >&2\n")
    ∷ text (codes "    else\n")
    ∷ text
        (codes "        printf '\\nGRUB_CMDLINE_LINUX=\"%s\"\\n' \"$IP_PARAM\" >> \"$GRUB_FILE\"\n")
    ∷ text (codes "        update-grub 2>&1 >&2\n")
    ∷ text (codes "    fi\n")
    ∷ text (codes "else\n")
    ∷ text (codes "    _updated=0\n")
    ∷ text (
        codes
          "    for _efi_dir in /boot/loader/entries /efi/loader/entries /boot/efi/loader/entries; do\n")
    ∷ text (codes "        [ -d \"$_efi_dir\" ] || continue\n")
    ∷ text (codes "        for _entry in \"$_efi_dir\"/*.conf; do\n")
    ∷ text (codes "            [ -f \"$_entry\" ] || continue\n")
    ∷ text (codes "            grep -q ' ip=' \"$_entry\" && continue\n")
    ∷ text (codes "            grep -q '^options ' \"$_entry\" || continue\n")
    ∷ text (
        codes
          "            sed -i \"s|^\\(options .*\\)$|\\1 $IP_PARAM|\" \"$_entry\" && _updated=1\n")
    ∷ text (codes "        done\n")
    ∷ text (codes "    done\n")
    ∷ text (codes "    if [ \"$_updated\" = \"1\" ]; then\n")
    ∷ text (codes "        echo \"[ubo-setup] added $IP_PARAM to systemd-boot entries\" >&2\n")
    ∷ text (
        codes
          "    elif ls /boot/loader/entries/*.conf /efi/loader/entries/*.conf /boot/efi/loader/entries/*.conf >/dev/null 2>&1; then\n")
    ∷ text (
        codes
          "        echo \"[ubo-setup] systemd-boot entries already contain ip=; skipping\" >&2\n")
    ∷ text (codes "    else\n")
    ∷ text (
        codes
          "        echo \"[ubo-setup] WARNING: no GRUB or systemd-boot config found; add manually: $IP_PARAM\" >&2\n")
    ∷ text (codes "    fi\n")
    ∷ text (codes "fi\n")
    ∷ text (codes "\n")
    ∷ text (codes "# ")
    ∷ text (rule 2)
    ∷ text (codes " Step 11: Rebuild initramfs ")
    ∷ text (rule 48)
    ∷ text (codes "\n")
    ∷ text (codes "echo \"[ubo-setup] step 11/11: rebuilding initramfs\" >&2\n")
    ∷ text (codes "update-initramfs -u -k all >&2\n")
    ∷ text (codes "\n")
    ∷ text (codes "# ")
    ∷ text (rule 2)
    ∷ text (codes " Output JSON result ")
    ∷ text (rule 56)
    ∷ text (codes "\n")
    ∷ text (codes "printf '{\"dropbear_pub_key\":\"%s\"}\\n' \"$DROPBEAR_PUB\"\n")
    ∷ []
