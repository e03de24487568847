-- ===== src/Config.antt =====
-- `Config` and `Default` of internal/config/config.go. Below: the TOML reader and writer of
-- internal/config/toml.go, and the validation of config.go.
pub mod Value
pub mod Put
pub mod Schema
pub mod Parse
pub mod Print
pub mod RoundTrip
pub mod Files
pub mod Atomic
pub mod Validate
pub mod Checked
pub mod Located
use tool_public_ubo.Base.{Bool, false, []}
use tool_public_ubo.Base.Int.{ℤ, pos}
use tool_public_ubo.Text.Compare.{Bytes, codes}

pub record SshConfig : Type 0 where
  pub user : Bytes
  pub port : ℤ
  pub key : Bytes
  pub sudo : Bool
  pub proxy_jump : Bytes

pub record WgConfig : Type 0 where
  pub port : ℤ
  pub server_ip : Bytes
  pub client_ip : Bytes

pub record DbConfig : Type 0 where
  pub port : ℤ

pub record OutConfig : Type 0 where
  pub dir : Bytes

pub record NetConfig : Type 0 where
  pub interface : Bytes
  pub ip : Bytes

pub record LuksConfig : Type 0 where
  pub device : Bytes

pub record Config : Type 0 where
  pub host : Bytes
  pub ssh : SshConfig
  pub wireguard : WgConfig
  pub dropbear : DbConfig
  pub output : OutConfig
  pub network : NetConfig
  pub luks : LuksConfig

abbrev pub default : Config
default = record {
  host = [];
  ssh = record { user = codes "root"; port = pos 22; key = []; sudo = false; proxy_jump = [] };
  wireguard = record {
    port = pos 51820;
    server_ip = codes "10.42.0.1/24";
    client_ip = codes "10.42.0.2/32";
  };
  dropbear = record { port = pos 22 };
  output = record { dir = [] };
  network = record { interface = []; ip = [] };
  luks = record { device = [] };
}
