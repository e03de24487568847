-- ===== src/Rootless/Session.antt =====
-- `dialSSH`, `performUnlock`, `handleChangeAndUnlock`, `runUnlock` and `runChangeKey` of
-- contrib/rootless/rootless.go, as what happens on the connections to Dropbear. The SSH library is
-- given by the two parsers of keys and by how the server answers.
use tool_public_ubo.Base.{
  ℕ, Bool, true, false, ◌||◌, List, [], ◌∷◌, ◌++◌, if◌then◌else◌, Option, none, some,
}
use tool_public_ubo.Base.Result.{Result, ok, err}
use tool_public_ubo.System.Disk.{Disk, IoError, read_file}
use tool_public_ubo.Text.Compare.{Bytes, codes, is_empty, equal}
use tool_public_ubo.Text.Space.{trim_space}

-- The connections of ssh are numbered in the order in which they are made, the one of `waitTunnel` is
-- `probe`. `ran` is a call of `runPTY`, `answered` the line that the user typed; the others are calls on
-- the WireGuard device.
pub data Event : Type 0 where
  opened closed : ℕ → Event
  ran : ℕ → Bytes → Event
  answered : Bytes → Event
  device_up device_down device_closed : Event

abbrev pub probe : ℕ
probe = 2

pub data DialError : Type 0 where
  read_key read_pinned : IoError → DialError
  parse_key parse_pinned refused handshake : DialError

pub data UnlockError : Type 0 where
  dial reconnect : DialError → UnlockError
  change_failed unlock_failed : UnlockError

-- A run of the program: what happened, and how it ended.
pub record Run {ℓ} (E : Type 0) (A : Type ℓ) : Type ℓ where
  pub events : List Event
  pub result : Result E A

-- `strings.TrimSpace` of the line, and the three answers that go on.
unfoldable pub confirmed : Bytes → Bool
confirmed line =
    is_empty (trim_space line)
    || (equal (trim_space line) (codes "y") || equal (trim_space line) (codes "Y"))

-- What the program uses of the SSH library: the two kinds of keys and their parsers.
pub record SshLibrary : Type 1 where
  pub Signer : Type 0
  pub HostKey : Type 0
  pub parse_private_key : Bytes → Option Signer
  pub parse_authorized_key : Bytes → Option HostKey

-- How the other side answers: whether connection `n` is accepted, whether it completes the handshake
-- for these keys, and whether a command goes well on it.
pub record Server (lib : SshLibrary) : Type 0 where
  pub accepts : ℕ → Bool
  pub shakes : ℕ → lib.Signer → lib.HostKey → Bool
  pub succeeds : ℕ → Bytes → Bool

-- `loadSSHKey` and `loadPinnedKey` behind the reading of the file.
unfoldable pub load_key :
    {K : Type 0}
    → (Bytes → Option K)
    → (IoError → DialError)
    → DialError
    → Result IoError Bytes
    → Result DialError K
load_key parse unreadable malformed (err e) = err (unreadable e)
load_key parse unreadable malformed (ok text) = elim (parse text) [
  | none ↦ err malformed
  | some k ↦ ok k
]

-- `runUnlock` on connection `n`, its command going well or not.
unfoldable pub run_unlock : ℕ → Bool → Run UnlockError (Unit {0})
run_unlock n succeeds = record {
  events = ran n (codes "cryptroot-unlock") ∷ [];
  result = if succeeds then ok tt else err unlock_failed;
}

-- `runChangeKey` on connection `n`.
unfoldable pub run_change_key : ℕ → Bytes → Bytes → Bool → Run UnlockError Bool
unfolding confirmed
run_change_key n change_cmd line false = record {
  events = ran n change_cmd ∷ [];
  result = err change_failed;
}
run_change_key n change_cmd line true = record {
  events = ran n change_cmd ∷ answered line ∷ [];
  result = ok (confirmed line);
}

-- What comes behind a dialling, with the connection closed at the end.
unfoldable pub with_client :
    ℕ
    → (DialError → UnlockError)
    → List Event
    → Result DialError (Unit {0})
    → Run UnlockError (Unit {0})
    → Run UnlockError (Unit {0})
with_client n failed before (err e) body = record { events = before; result = err (failed e) }
with_client n failed before (ok _) body = record {
  events = before ++ (body.events ++ closed n ∷ []);
  result = body.result;
}

-- The first connection is closed in front of the error, the end and the second connection alike.
unfoldable pub after_change :
    List Event → Result UnlockError Bool → Run UnlockError (Unit {0}) → Run UnlockError (Unit {0})
after_change before (err e) again = record { events = before ++ closed 0 ∷ []; result = err e }
after_change before (ok false) again = record { events = before ++ closed 0 ∷ []; result = ok tt }
after_change before (ok true) again = record {
  events = before ++ closed 0 ∷ again.events;
  result = again.result;
}

module _ (lib : SshLibrary) (server : Server lib) (d : Disk) (out_dir change_cmd line : Bytes) where
  unfoldable pub open_connection : ℕ → lib.Signer → lib.HostKey → Run DialError (Unit {0})
  open_connection n signer host_key =
      if server.accepts n
      then (if server.shakes n signer host_key
          then record { events = opened n ∷ []; result = ok tt }
          else record { events = opened n ∷ closed n ∷ []; result = err handshake })
      else record { events = []; result = err refused }

  unfoldable pub with_pinned :
      ℕ → lib.Signer → Result DialError lib.HostKey → Run DialError (Unit {0})
  unfolding open_connection
  with_pinned n signer (err e) = record { events = []; result = err e }
  with_pinned n signer (ok host_key) = open_connection n signer host_key

  unfoldable pub with_signer : ℕ → Result DialError lib.Signer → Run DialError (Unit {0})
  unfolding with_pinned load_key
  with_signer n (err e) = record { events = []; result = err e }
  with_signer n (ok signer) = with_pinned n signer (
      load_key lib.parse_authorized_key read_pinned parse_pinned
        (read_file d (out_dir ++ codes "/dropbear_host_key.pub")))

  unfoldable pub dial_ssh : ℕ → Run DialError (Unit {0})
  unfolding with_signer load_key
  dial_ssh n = with_signer n (
      load_key lib.parse_private_key read_key parse_key
        (read_file d (out_dir ++ codes "/client_auth_ed25519")))

  unfoldable pub handle_change_and_unlock : Run UnlockError (Unit {0})
  handle_change_and_unlock =
      let change = run_change_key 0 change_cmd line (server.succeeds 0 change_cmd) in
      let unlock = run_unlock 1 (server.succeeds 1 (codes "cryptroot-unlock")) in
      after_change change.events change.result
        (with_client 1 reconnect ((dial_ssh 1).events) ((dial_ssh 1).result) unlock)

  unfoldable pub perform_unlock : Bool → Run UnlockError (Unit {0})
  perform_unlock change_key =
      let plain = run_unlock 0 (server.succeeds 0 (codes "cryptroot-unlock")) in
      with_client 0 dial ((dial_ssh 0).events) ((dial_ssh 0).result)
        (if change_key then handle_change_and_unlock else plain)
