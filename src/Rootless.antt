-- ===== src/Rootless.antt =====
-- contrib/rootless: the reader of the wg-quick file, parse.go, and the unlocking, rootless.go.
pub mod Parse
pub mod RoundTrip
pub mod Ipc
pub mod Keys
pub mod Address
pub mod ServerAddr
pub mod Tunnel
pub mod Session
pub mod Trace
pub mod ChangeKey
pub mod Unlock
pub mod Whole
