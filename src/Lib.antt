-- ===== src/Lib.antt =====
-- UBO sets up a remote host so that its encrypted disk can be unlocked over WireGuard and SSH while it
-- boots, and unlocks it. This library models the parts of the program that decide something.
--
-- Parts and files:
-- - Config: internal/config. Config holds the records of config.go with `Default`; Config/Value,
--   Schema and Parse are `parseTOML` and all it calls in toml.go, Config/Print is `Marshal`,
--   Config/Files is `Load`, `Save`, `OutputDir` and the tunnel addresses, Config/Validate is
--   `Validate`. The proofs are in Config/RoundTrip, Config/Located, Config/Atomic and Config/Checked.
-- - Remote: internal/remote/remote.go. Remote/Client has the options, the client, the argument lists
--   and the quoting for sudo; Remote/Pinned reads a pinned key and writes its known_hosts copy;
--   Remote/Connect is `Connect` and `Close`. Remote/Shell is a reader of POSIX shell words, against
--   which Remote/Sudo checks the quoting; Remote/HostKey and Remote/KeyLine are on whom a client trusts.
--   Remote/Process runs ssh: `RunCommand`, `WriteFile`, `ReadFile` and `InteractiveSession`, and
--   Remote/Secret is on where the password goes.
-- - Templates: internal/templates/templates.go. Templates/WireGuard has the `MarshalINI` methods,
--   Templates/Checks the checks; Templates/Render renders a list of texts and fields, which is what
--   Templates/Readme, Initramfs and SetupScript make of the templates. Templates/Embedded has the proof.
-- - Rootless: contrib/rootless. Rootless/Parse is parse.go, which reads the file that `MarshalINI`
--   gives. The rest is rootless.go: Rootless/Ipc is what the WireGuard device is told, Rootless/Address
--   reads addresses, Rootless/Tunnel waits for the tunnel, Rootless/Session holds the connections to
--   Dropbear and Rootless/ChangeKey the direct way; Rootless/Unlock puts them together. What happens on
--   the WireGuard device and on connections is a list of events, which Rootless/Trace compares with a step relation.
-- - Setup: internal/setup/setup.go. Setup/Detect and Setup/Topology are `detectNetwork`, with
--   Setup/Inet for the addresses and Setup/Names for the names; Setup/Script is
--   `buildSetupScriptData`, Setup/Netmask its netmask; Setup/Configure is `Configure`, Setup/Grub and
--   Setup/Dropbear what only tests call. Setup/Detected, Built, Keyed, Finished and Output hold
--   the proofs.
-- - Keygen: internal/keygen/keygen.go, the reading of existing keys and the WireGuard key pair with its
--   clean-up; Keygen/All has the SSH key pair and `GenerateAll`. Checker: internal/checker/checker.go.
-- - Tui: internal/tui/tui.go. `Run` loads, edits, validates and saves a configuration.
-- - Main: main.go. Main/Artifacts is the report of `ubo status` and what `ubo unlock` asks for,
--   Main/Command and Main/Dispatch read the command line, Main/Locate finds the configuration of a
--   host and Main/Select asks for one, Main/Load loads a configuration or asks for its fields, Main/Init
--   writes the first one, Main/Sudo connects and checks sudo, Main/Run is `ubo run` and Main/Unlock
--   `ubo unlock`. Main/Asked, Trusted, Configured and Usage hold proofs.
-- - Base, Text, Net and System are what the parts share: lists, integers, results; byte strings, white
--   space, decimals and paths as Go's strings, strconv and path/filepath treat them; addresses and
--   CIDRs as net and net/netip do; and the local disk.
--
-- Texts are lists of bytes. An `int` is an integer with its 64 bits kept where the source parses it;
-- the numbers of setup.go are natural ones, since the code reads them from digits. The disk is a
-- function from paths to files, together with which calls fail, so that every error path is taken by
-- some disk. The remote host is a function from commands to replies, which gives the same reply to the
-- same command within one detection. Functions that return an error return a `Result`, and a panic is
-- an outcome of its own. The fuel of `show_ℕ` is the number itself, which has at most as many digits;
-- the loop of an IPv6 address takes eight rounds, one for each group; a round of the wait for
-- the tunnel takes a second at least, so that its fuel of sixteen is enough for fifteen seconds; a
-- `bufio.Scanner` takes lines of 65535 bytes at most; the matches of the pattern of GRUB are sought with the length of the text as
-- fuel, each step taking a byte or more. All other loops are recursions on their lists.
--
-- The ssh program, WireGuard, the SSH library, the curve, the random sources, json.Unmarshal and the
-- verb %q of fmt are parameters: a function from what they are given to what they answer. ssh may also
-- write the known_hosts file that a client names, where accept-new records a new host key: what that
-- file holds behind the ssh processes of a step is a parameter too, and ssh writes no other file of the
-- modelled disk. `cmdRun` and `cmdUnlock` call the models of the other parts, as the source does.
--
-- Not modelled: the terminal (`runPTY`, `attachPTY`, the reading of a password without echo), the SSH
-- keys as such, what a shell makes of the scripts, and what is printed.
pub mod Base
pub mod Text
pub mod Net
pub mod System
pub mod Config
pub mod Remote
pub mod Templates
pub mod Rootless
pub mod Setup
pub mod Keygen
pub mod Checker
pub mod Tui
pub mod Main
pub mod Tests
