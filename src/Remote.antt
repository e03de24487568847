-- ===== src/Remote.antt =====
-- internal/remote/remote.go: the options, the client, the quoting of commands, and the argument
-- lists of the `ssh` processes. `opts == nil` is `none`.
pub mod Client
pub mod Shell
pub mod Pinned
pub mod Connect
pub mod KeyLine
pub mod HostKey
pub mod Sudo
pub mod Process
pub mod Secret
