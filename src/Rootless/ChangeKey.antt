-- ===== src/Rootless/ChangeKey.antt =====
-- `buildChangeLUKSCmd`, `sshPort`, `sshUser`, `changeKeyDirectSSH` and `handleTunnelFailure` of
-- contrib/rootless/rootless.go. `quote_go` is the verb `%q` of fmt.
use tool_public_ubo.Base.{
  List, [], ◌∷◌, ◌++◌, true, false, not, if◌then◌else◌, some, ◌≡◌, refl, arith,
}
use tool_public_ubo.Base.Int.{ℤ, pos, eq_ℕ, le_ℕ}
use tool_public_ubo.Base.Result.{Result, ok, err}
use tool_public_ubo.Config.{Config}
use tool_public_ubo.Remote.Client.{
  ConnectOptions, Client, ssh_args, interactive_sudo_cmd, escape_quotes,
}
use tool_public_ubo.Remote.Connect.{
  ConnectError, connect, connect_valid, close, validate_connect_options, apply_host_key_mode,
  new_client,
}
use tool_public_ubo.Remote.Process.{
  Ssh, interactive_session, session_of, has_failed, terminal, keep_host_key, keep_host_key-SameBut,
}
use tool_public_ubo.System.Disk.{Disk, SameBut}
use tool_public_ubo.Text.Compare.{Bytes, codes, is_empty}
use tool_public_ubo.Text.Decimal.{itoa}

abbrev pub sbin_path : Bytes
sbin_path = codes "PATH=/usr/local/sbin:/usr/sbin:/sbin:$PATH"

-- The script that looks for the device.
detect_script : Bytes
detect_script =
    codes "\n"
    ++ (codes "DEV=\"\"\n"
        ++ (codes "if [ -f /etc/crypttab ]; then\n"
            ++ (codes "    SRC=$(awk 'NF && !/^#/{print $2; exit}' /etc/crypttab)\n"
                ++ (codes "    case \"$SRC\" in\n"
                    ++ (codes
                          "      UUID=*) DEV=$(blkid -U \"${SRC#UUID=}\" 2>/dev/null); [ -z \"$DEV\" ] && DEV=\"/dev/disk/by-uuid/${SRC#UUID=}\" ;;\n"
                        ++ (codes
                              "      PARTUUID=*) DEV=\"/dev/disk/by-partuuid/${SRC#PARTUUID=}\" ;;\n"
                            ++ (codes "      LABEL=*) DEV=\"/dev/disk/by-label/${SRC#LABEL=}\" ;;\n"
                                ++ (codes
                                      "      PARTLABEL=*) DEV=\"/dev/disk/by-partlabel/${SRC#PARTLABEL=}\" ;;\n"
                                    ++ (codes "      *) DEV=\"$SRC\" ;;\n"
                                        ++ (codes "    esac\n"
                                            ++ (codes "fi\n"
                                                ++ (codes "if [ -z \"$DEV\" ]; then\n"
                                                    ++ (codes
                                                          "    _ALL=$(blkid -t TYPE=crypto_LUKS -o device 2>/dev/null)\n"
                                                        ++ (codes
                                                            "    _COUNT=$(printf '%s\\n' \"$_ALL\" | grep -c . 2>/dev/null || echo 0)\n"
                                                            ++ (codes
                                                            "    DEV=$(printf '%s\\n' \"$_ALL\" | head -1)\n"
                                                            ++ (codes
                                                            "    if [ \"$_COUNT\" -gt 1 ]; then\n"
                                                            ++ (codes
                                                            "        echo \"[ubo] WARNING: multiple LUKS devices found; using $DEV (set luks.device in config to be explicit)\" >&2\n"
                                                            ++ (codes "    fi\n"
                                                            ++ (codes "fi\n"
                                                            ++ (codes
                                                            "test -n \"$DEV\" || { echo \"could not determine LUKS device; set luks.device in config\" >&2; exit 1; }\n"
                                                            ++ (codes
                                                            "echo \"[ubo] LUKS device: $DEV\" >&2\n"
                                                            ++ (codes
                                                            "cryptsetup luksChangeKey \"$DEV\""))))))))))))))))))))))

unfoldable pub build_change_luks_cmd : (Bytes → Bytes) → Config → Bytes
unfolding detect_script
build_change_luks_cmd quote_go c =
    if not (is_empty c.luks.device)
    then sbin_path ++ (codes " cryptsetup luksChangeKey " ++ quote_go c.luks.device)
    else sbin_path ++ detect_script

unfoldable pub ssh_port : Config → ℤ
ssh_port c = if eq_ℕ c.ssh.port 0 then pos 22 else c.ssh.port

unfoldable pub ssh_user : Config → Bytes
ssh_user c = if is_empty c.ssh.user then codes "root" else c.ssh.user

abbrev pub direct_options : Config → Bytes → ConnectOptions
direct_options c out_dir = record {
  host = c.host;
  port = ssh_port c;
  user = ssh_user c;
  key_path = c.ssh.key;
  known_hosts_path = out_dir ++ codes "/known_hosts";
  pinned_key_path = [];
  sudo = c.ssh.sudo;
  proxy_jump = c.ssh.proxy_jump;
}

pub data DirectError : Type 0 where
  not_connected : ConnectError → DirectError
  session_failed : DirectError

abbrev pub session_error : Result (Unit {0}) (Unit {0}) → Result DirectError (Unit {0})
session_error (ok u) = ok u
session_error (err _) = err session_failed

-- The session on the client, which is closed behind it; ssh may record the host key.
unfoldable pub direct_session :
    Ssh → Bytes → Result ConnectError Client → Disk → Disk × Result DirectError (Unit {0})
direct_session ssh cmd (err e) d = (d, err (not_connected e))
direct_session ssh cmd (ok client) d = (
  (close client (keep_host_key ssh client d)).0.1,
  session_error (interactive_session ssh client cmd),
)

unfoldable pub change_key_direct_ssh :
    (Bytes → Bytes) → Ssh → Config → Bytes → Disk → Disk × Result DirectError (Unit {0})
unfolding direct_session ssh_port ssh_user build_change_luks_cmd
change_key_direct_ssh quote_go ssh c out_dir d =
    let (r, d') = connect (some (direct_options c out_dir)) d in
    direct_session ssh (build_change_luks_cmd quote_go c) r d'

-- The client that trusts the file known_hosts of the output directory on first use.
abbrev pub direct_client : Config → Bytes → Client
direct_client c out_dir = record (new_client (direct_options c out_dir)) {
  known_hosts_file = out_dir ++ codes "/known_hosts";
  strict_mode = codes "accept-new";
}

path_there : (out_dir : Bytes) → is_empty (out_dir ++ codes "/known_hosts") ≡ false
unfolding is_empty
path_there [] = refl
path_there (c ∷ s) = refl

user_there : (c : Config) → is_empty (ssh_user c) ≡ false
unfolding ssh_user is_empty
user_there c = ground arith

mode_direct :
    (c : Config) (out_dir : Bytes) (d : Disk)
    → apply_host_key_mode (new_client (direct_options c out_dir)) (direct_options c out_dir) d
      ≡ (ok (direct_client c out_dir), d)
unfolding apply_host_key_mode
mode_direct c out_dir d =
    let none_pinned : is_empty [] ≡ true = unfold is_empty in refl in
    rw (none_pinned, path_there out_dir) refl

valid_direct :
    (c : Config) (out_dir : Bytes)
    → is_empty c.host ≡ false
    → le_ℕ (ssh_port c) 0 ≡ false
    → validate_connect_options (some (direct_options c out_dir)) ≡ ok tt
unfolding validate_connect_options
valid_direct c out_dir host port =
    let none_pinned : is_empty [] ≡ true = unfold is_empty in refl in
    rw (host, user_there c, port, path_there out_dir, none_pinned) refl

-- Of the files, only known_hosts of the output directory may change.
direct_session-SameBut :
    (ssh : Ssh) (cmd : Bytes) (c : Config) (out_dir : Bytes) (r : Result ConnectError (Unit {0}))
    (d : Disk)
    → let x = connect_valid (some (direct_options c out_dir)) r d in
      SameBut (out_dir ++ codes "/known_hosts") d (direct_session ssh cmd x.0 x.1).0
unfolding connect_valid direct_session
direct_session-SameBut ssh cmd c out_dir (err e) d = unfold SameBut in λ q _. refl
direct_session-SameBut ssh cmd c out_dir (ok _) d = rw (mode_direct c out_dir d) (
    unfold close in unfold is_empty in keep_host_key-SameBut ssh (direct_client c out_dir) _ d refl)

pub change_key_direct_ssh-SameBut :
    (quote_go : Bytes → Bytes) (ssh : Ssh) (c : Config) (out_dir : Bytes) (d : Disk)
    → SameBut (out_dir ++ codes "/known_hosts") d (change_key_direct_ssh quote_go ssh c out_dir d).0
unfolding change_key_direct_ssh connect
change_key_direct_ssh-SameBut quote_go ssh c out_dir d =
    direct_session-SameBut ssh (build_change_luks_cmd quote_go c) c out_dir _ d

-- The arguments of the one ssh process, written out: a terminal, port 22 and the user root where the
-- configuration leaves them out, the key and the jump host if there are any, and the command under sudo if
-- it is asked for.
pub direct_args : Config → Bytes → Bytes → List Bytes
direct_args c out_dir cmd =
    (codes "-t" ∷ codes "-o" ∷ codes "LogLevel=ERROR" ∷ [])
    ++ (((codes "-p" ∷ itoa (if eq_ℕ c.ssh.port 0 then pos 22 else c.ssh.port) ∷ [])
          ++ ((if not (is_empty c.ssh.key) then codes "-i" ∷ c.ssh.key ∷ [] else [])
              ++ ((if not (is_empty c.ssh.proxy_jump)
                    then codes "-o" ∷ (codes "ProxyJump=" ++ c.ssh.proxy_jump) ∷ []
                    else [])
                  ++ (codes "-o"
                      ∷ codes "BatchMode=yes"
                      ∷ codes "-o"
                      ∷ codes "ConnectTimeout=30"
                      ∷ codes "-o"
                      ∷ (codes "UserKnownHostsFile=" ++ (out_dir ++ codes "/known_hosts"))
                      ∷ codes "-o"
                      ∷ codes "StrictHostKeyChecking=accept-new"
                      ∷ ((if is_empty c.ssh.user then codes "root" else c.ssh.user)
                          ++ (codes "@" ++ c.host))
                      ∷ []))))
        ++ (if not c.ssh.sudo
            then cmd
            else codes "sudo sh -c '" ++ (escape_quotes cmd ++ codes "'"))
          ∷ [])

-- For a host that is not empty and a port that is not negative, the change of key on a running system
-- runs one interactive ssh process with exactly the arguments that are written out, and with the LUKS
-- command; it fails just if that process does. No file changes but known_hosts of the output directory,
-- where ssh may record the host key.
pub change_key_direct_ssh-session :
    (quote_go : Bytes → Bytes) (ssh : Ssh) (c : Config) (out_dir : Bytes) (d : Disk)
    → is_empty c.host ≡ false
    → le_ℕ (ssh_port c) 0 ≡ false
    → ((change_key_direct_ssh quote_go ssh c out_dir d).1 ≡ (
        if has_failed (
          ssh.exits (record {
            args = direct_args c out_dir (build_change_luks_cmd quote_go c);
            stdin = terminal;
          }))
        then err session_failed
        else ok tt))
      × SameBut
          (out_dir ++ codes "/known_hosts")
          d
          (change_key_direct_ssh quote_go ssh c out_dir d).0
unfolding direct_args
change_key_direct_ssh-session quote_go ssh c out_dir d host port = (
  unfold change_key_direct_ssh in
      unfold connect in
      unfold direct_session in
      rw (valid_direct c out_dir host port, connect_valid, mode_direct c out_dir d)
        (unfold interactive_session in
          unfold session_of in
          unfold ssh_args in
          unfold interactive_sudo_cmd in unfold ssh_port in unfold ssh_user in ground arith),
  change_key_direct_ssh-SameBut quote_go ssh c out_dir d,
)
