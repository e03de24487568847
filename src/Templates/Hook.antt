-- ===== src/Templates/Hook.antt =====
-- `InitramfsHookTmpl` and `InitramfsUMASKConf` of internal/templates/templates.go, two constant files.
use tool_public_ubo.Base.{◌++◌}
use tool_public_ubo.Text.Compare.{Bytes, codes}

abbrev pub initramfs_hook_tmpl : Bytes
initramfs_hook_tmpl =
    codes "#!/bin/sh\n"
    ++ (codes "PREREQ=\"\"\n"
        ++ (codes "prereqs() { echo \"$PREREQ\"; }\n"
            ++ (codes "case \"$1\" in prereqs) prereqs; exit 0;; esac\n"
                ++ (codes ". /usr/share/initramfs-tools/hook-functions\n"
                    ++ (codes "copy_exec /usr/bin/wg\n"
                        ++ (codes "manual_add_modules wireguard\n"
                            ++ (codes "copy_exec /usr/sbin/mdadm\n"
                                ++ (codes "manual_add_modules md_mod raid1\n"
                                    ++ (codes "if command -v lvm >/dev/null 2>&1; then\n"
                                        ++ (codes "    copy_exec /sbin/lvm\n"
                                            ++ (codes "    manual_add_modules dm-mod\n"
                                                ++ (codes "fi\n"
                                                    ++ (codes
                                                          "mkdir -p \"${DESTDIR}/etc/wireguard\"\n"
                                                        ++ (codes
                                                            "cp /etc/wireguard/wg-initramfs.conf \"${DESTDIR}/etc/wireguard/\"\n"))))))))))))))

abbrev pub initramfs_umask_conf : Bytes
initramfs_umask_conf =
    codes "# Written by ubo: initramfs images embed the WireGuard private key, so restrict\n"
    ++ (codes "# them to root only (otherwise /boot exposes the key to local users).\n"
        ++ (codes "UMASK=0077\n"))
