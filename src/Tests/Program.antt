-- ===== src/Tests/Program.antt =====
-- The theorem on `ubo run` at a concrete input: a fresh directory with keys, and a host that answers.
use tool_public_ubo.Base.{true, false, none, some, [], ◌∷◌, List, if◌then◌else◌}
use tool_public_ubo.Config.{Config}
use tool_public_ubo.Remote.Connect.{close}
use tool_public_ubo.Main.Run.{Environment}
use tool_public_ubo.System.Disk.{Disk}
use tool_public_ubo.Text.Compare.{Bytes, codes, equal}
use tool_public_ubo.System.Disk
use tool_public_ubo.Tests.Setup.{host, unmarshal}

abbrev typed_lines : List Bytes
typed_lines = codes "fd00::1\n" ∷ codes "\n" ∷ codes "2222\n" ∷ codes "\n" ∷ []

-- All files are there but ubo.toml.
abbrev key_disk : Disk
key_disk = record {
  files = λ p.
      if equal p (codes "ubo.toml")
      then none
      else some (record { content = codes "k\n"; mode = 0o600 });
  unreadable = λ _. false;
  unwritable = λ _. false;
  leftover = λ _. none;
  fixed = λ _. false;
}

abbrev env : Environment
env = record {
  on_path = λ _. true;
  makes_dir = true;
  sources = record {
    x25519 = λ s. some s;
    server_random = none;
    client_random = none;
    ssh_private = none;
    ssh_public = none;
  };
  unmarshal = unmarshal;
  ssh = host;
  lines = typed_lines;
  typed = none;
  temporary = none;
  faults = record { chmod = false; close = false; rename = false };
}
