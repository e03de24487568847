-- ===== src/Main/Locate.antt =====
-- `findConfigByHost` of main.go, and where `cmdRun` saves the configuration.
use tool_public_ubo.Base.{
  true, [], ◌∷◌, ◌++◌, if◌then◌else◌, Option, none, some, ◌≡◌, refl, arith, Lacks, ap, sym, ◌∙◌,
}
use tool_public_ubo.Config.Files.{output_dir, strip_host}
use tool_public_ubo.Config.{Config}
use tool_public_ubo.System.Disk.{Disk, exists}
use tool_public_ubo.Text.Compare.{Bytes, codes, is_empty}
use tool_public_ubo.Text.FilePath.{join}

-- The path that `ubo unlock HOST` looks for.
abbrev pub host_config : Bytes → Bytes
host_config host = join (codes "ubo-" ++ host) (codes "ubo.toml")

unfoldable pub find_config_by_host : Disk → Bytes → Option Bytes
find_config_by_host d host = if exists d (host_config host) then some (host_config host) else none

-- The path at which `cmdRun` saves the configuration.
abbrev pub run_config : Config → Bytes
run_config c = join (output_dir c) (codes "ubo.toml")

strip_host-same : (h : Bytes) → Lacks b':' h → Lacks b'[' h → Lacks b']' h → strip_host h ≡ h
unfolding strip_host
strip_host-same [] a b c = refl
strip_host-same (x ∷ h) a b c = ground (arith, strip_host-same h a.1 b.1 c.1)

output_dir-host :
    (c : Config)
    → is_empty c.output.dir ≡ true
    → strip_host c.host ≡ c.host
    → output_dir c ≡ codes "ubo-" ++ c.host
unfolding output_dir
output_dir-host c h same = rw (h, same) refl

-- `ubo unlock HOST` finds the copy of the configuration that `ubo run` saved, if the configuration
-- names no output directory and the host has no colon and no bracket, which `OutputDir` rewrites
-- and `findConfigByHost` does not.
pub find_config_by_host-run_config :
    (d : Disk) (c : Config)
    → is_empty c.output.dir ≡ true
    → Lacks b':' c.host
    → Lacks b'[' c.host
    → Lacks b']' c.host
    → exists d (run_config c) ≡ true
    → find_config_by_host d c.host ≡ some (run_config c)
unfolding find_config_by_host
find_config_by_host-run_config d c no_dir colon left right there =
    let same = output_dir-host c no_dir (strip_host-same c.host colon left right) in
    let at_host : exists d (host_config c.host) ≡ true =
      ap (λ o. exists d (join o (codes "ubo.toml"))) (sym same) ∙ there in
    rw (at_host, same) refl
