-- ===== src/Main.antt =====
-- main.go: the command line, the artifacts in the output directory, and how a configuration is
-- found.
pub mod Artifacts
pub mod Load
pub mod Sudo
pub mod Trusted
pub mod Asked
pub mod Init
pub mod Command
pub mod Dispatch
pub mod Configured
pub mod Run
pub mod Unlock
pub mod Usage
pub mod Locate
pub mod Select
