-- ===== src/Remote/Client.antt =====
-- `ConnectOptions`, `Client`, and the commands that the client builds: `sudoCmd`,
-- `interactiveSudoCmd`, `sudoStdin`, `sshArgs`.
use tool_public_ubo.Base.{
  Bool, ◌||◌, not, List, [], ◌∷◌, ◌++◌, ◌==◌, if◌then◌else◌, Option, none, some,
}
use tool_public_ubo.Base.Int.{ℤ}
use tool_public_ubo.Text.Compare.{Bytes, codes, is_empty}
use tool_public_ubo.Text.Decimal.{itoa}

pub record ConnectOptions : Type 0 where
  pub host : Bytes
  pub port : ℤ
  pub user : Bytes
  pub key_path : Bytes
  pub known_hosts_path : Bytes
  pub pinned_key_path : Bytes
  pub sudo : Bool
  pub proxy_jump : Bytes

pub record Client : Type 0 where
  pub host : Bytes
  pub port : ℤ
  pub user : Bytes
  pub key_path : Bytes
  pub sudo : Bool
  pub sudo_password : Bytes
  pub proxy_jump : Bytes
  pub known_hosts_file : Bytes
  pub strict_mode : Bytes
  pub temp_known_hosts : Bytes

unfoldable pub set_sudo_password : Client → Bytes → Client
set_sudo_password c pw = record c { sudo_password = pw }

-- `strings.ReplaceAll(cmd, "'", `'\''`)`
unfoldable pub escape_quotes : Bytes → Bytes
escape_quotes [] = []
escape_quotes (c ∷ s) =
    let rest = escape_quotes s in if c == b'\'' then codes "'\\''" ++ rest else c ∷ rest

-- The flag of `sudoCmd`.
unfoldable pub sudo_flag : Bytes → Bytes
sudo_flag pw = if not (is_empty pw) then codes "-S -p ''" else codes "-n"

unfoldable pub sudo_cmd : Client → Bytes → Bytes
unfolding sudo_flag escape_quotes
sudo_cmd c cmd =
    if not c.sudo
    then cmd
    else codes "sudo "
      ++ (sudo_flag c.sudo_password ++ (codes " sh -c '" ++ (escape_quotes cmd ++ codes "'")))

unfoldable pub interactive_sudo_cmd : Client → Bytes → Bytes
unfolding escape_quotes
interactive_sudo_cmd c cmd =
    if not c.sudo then cmd else codes "sudo sh -c '" ++ (escape_quotes cmd ++ codes "'")

-- The process's standard input, `none` for nil.
unfoldable pub sudo_stdin : Client → Option Bytes → Option Bytes
sudo_stdin c base = if not c.sudo || is_empty c.sudo_password then base else elim base [
  | none ↦ some (c.sudo_password ++ codes "\n")
  | some text ↦ some (c.sudo_password ++ (codes "\n" ++ text))
]

unfoldable pub ssh_args : Client → List Bytes
unfolding itoa
ssh_args c =
    (codes "-p" ∷ itoa c.port ∷ [])
    ++ ((if not (is_empty c.key_path) then codes "-i" ∷ c.key_path ∷ [] else [])
        ++ ((if not (is_empty c.proxy_jump)
              then codes "-o" ∷ (codes "ProxyJump=" ++ c.proxy_jump) ∷ []
              else [])
            ++ (codes "-o"
                ∷ codes "BatchMode=yes"
                ∷ codes "-o"
                ∷ codes "ConnectTimeout=30"
                ∷ codes "-o"
                ∷ (codes "UserKnownHostsFile=" ++ c.known_hosts_file)
                ∷ codes "-o"
                ∷ (codes "StrictHostKeyChecking=" ++ c.strict_mode)
                ∷ (c.user ++ (codes "@" ++ c.host))
                ∷ [])))
