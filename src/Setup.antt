-- ===== src/Setup.antt =====
-- The data of internal/setup/setup.go, and what it asks of the remote host.
pub mod Names
pub mod Netmask
pub mod Inet
pub mod Topology
pub mod Detect
pub mod Detected
pub mod Script
pub mod Built
pub mod Configure
pub mod Grub
pub mod Dropbear
pub mod Keyed
pub mod Finished
pub mod Output
use tool_public_ubo.Base.{ℕ, Bool, List}
use tool_public_ubo.Text.Compare.{Bytes}

-- `NetworkInfo`; its numbers are those of a prefix and of a VLAN, which the code takes from
-- digits only.
pub record NetworkInfo : Type 0 where
  pub interface : Bytes
  pub ip : Bytes
  pub prefix : ℕ
  pub gateway : Bytes
  pub hostname : Bytes
  pub vlan_physdev : Bytes
  pub vlan_id : ℕ
  pub bond_slaves : List Bytes
  pub bond_mode : Bytes
  pub bridge_ports : List Bytes

-- What `remote.RunCommand` returns: the output, and whether there is an error beside it.
pub record Reply : Type 0 where
  pub out : Bytes
  pub failed : Bool

-- The remote host as the detection sees it: the reply to each command.
abbrev pub Run : Type 0
Run = Bytes → Reply
