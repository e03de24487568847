-- ===== src/Rootless/Trace.antt =====
-- The connections that `performUnlock` of contrib/rootless/rootless.go makes, against what Dropbear in
-- the initramfs allows: one connection at a time, and commands on the open one only.
use tool_public_ubo.Base.{
  ℕ, ◌≡◌, refl, ap, Bool, true, false, ◌&&◌, List, [], ◌∷◌, ◌++◌, if◌then◌else◌, Option, none, some,
  ◌∙◌, append-nil, Bool-cases, inl, inr,
}
use tool_public_ubo.Base.Result.{Result, ok, err}
use tool_public_ubo.Rootless.Session.{
  Event, opened, closed, ran, answered, device_up, device_down, device_closed, DialError,
  UnlockError, Run, SshLibrary, Server, run_unlock, run_change_key, with_client, after_change,
  open_connection, with_pinned, with_signer, dial_ssh, handle_change_and_unlock, perform_unlock,
  confirmed, dial, reconnect,
}
use tool_public_ubo.System.Disk.{Disk}
use tool_public_ubo.Text.Compare.{Bytes, codes}

-- The state is the open connection, if there is one. To close a closed connection does nothing.
pub data Step : Option ℕ → Event → Option ℕ → Type 0 where
  opens : (n : ℕ) → Step none (opened n) (some n)
  runs : (n : ℕ) (cmd : Bytes) → Step (some n) (ran n cmd) (some n)
  answers : (s : Option ℕ) (line : Bytes) → Step s (answered line) s
  closes : (n : ℕ) → Step (some n) (closed n) none
  closes_again : (n : ℕ) → Step none (closed n) none

pub data Steps : Option ℕ → List Event → Option ℕ → Type 0 where
  stop : (s : Option ℕ) → Steps s [] s
  go :
      {s t u : Option ℕ} {e : Event} {es : List Event}
      → Step s e t
      → Steps t es u
      → Steps s (e ∷ es) u

pub Steps-append :
    {s t u : Option ℕ} {es fs : List Event} → Steps s es t → Steps t fs u → Steps s (es ++ fs) u
Steps-append (stop s) q = q
Steps-append (go st p) q = go st (Steps-append p q)

-- Where a dialling leads: to the open connection if it went well, and to none otherwise.
dialled : ℕ → Result DialError (Unit {0}) → Option ℕ
dialled n (ok _) = some n
dialled n (err _) = none

with_client-Steps :
    (n : ℕ) (failed : DialError → UnlockError) (before : List Event)
    (r : Result DialError (Unit {0})) (body : Run UnlockError (Unit {0})) (t : Option ℕ)
    → Steps none before (dialled n r)
    → Steps (some n) body.events t
    → Step t (closed n) none
    → Steps none (with_client n failed before r body).events none
unfolding with_client dialled
with_client-Steps n failed before (err e) body t p q st = p
with_client-Steps n failed before (ok _) body t p q st =
    Steps-append p (Steps-append q (go st (stop none)))

after_change-Steps :
    (before : List Event) (r : Result UnlockError Bool) (again : Run UnlockError (Unit {0}))
    → Steps (some 0) before (some 0)
    → Steps none again.events none
    → Steps (some 0) (after_change before r again).events none
unfolding after_change
after_change-Steps before (err e) again p q = Steps-append p (go (closes 0) (stop none))
after_change-Steps before (ok false) again p q = Steps-append p (go (closes 0) (stop none))
after_change-Steps before (ok true) again p q = Steps-append p (go (closes 0) q)

run_unlock-Steps :
    (n : ℕ) (succeeds : Bool) → Steps (some n) (run_unlock n succeeds).events (some n)
unfolding run_unlock
run_unlock-Steps n succeeds = go (runs n _) (stop (some n))

run_change_key-Steps :
    (n : ℕ) (cmd line : Bytes) (succeeds : Bool)
    → Steps (some n) (run_change_key n cmd line succeeds).events (some n)
unfolding run_change_key
run_change_key-Steps n cmd line false = go (runs n cmd) (stop (some n))
run_change_key-Steps n cmd line true = go (runs n cmd) (go (answers (some n) line) (stop (some n)))

-- The commands that were run, in their order.
unfoldable pub commands : List Event → List Bytes
commands [] = []
commands (ran n cmd ∷ es) = cmd ∷ commands es
commands (opened n ∷ es) = commands es
commands (closed n ∷ es) = commands es
commands (answered line ∷ es) = commands es
commands (device_up ∷ es) = commands es
commands (device_down ∷ es) = commands es
commands (device_closed ∷ es) = commands es

abbrev pub is_ok {ℓ κ} : {E : Type ℓ} {A : Type κ} → Result E A → Bool
is_ok (ok _) = true
is_ok (err _) = false

commands-append : (es fs : List Event) → commands (es ++ fs) ≡ commands es ++ commands fs
unfolding commands
commands-append [] fs = refl
commands-append (ran n cmd ∷ es) fs = ap (◌∷◌ cmd) (commands-append es fs)
commands-append (opened n ∷ es) fs = commands-append es fs
commands-append (closed n ∷ es) fs = commands-append es fs
commands-append (answered line ∷ es) fs = commands-append es fs
commands-append (device_up ∷ es) fs = commands-append es fs
commands-append (device_down ∷ es) fs = commands-append es fs
commands-append (device_closed ∷ es) fs = commands-append es fs

commands-with_client :
    (n : ℕ) (failed : DialError → UnlockError) (before : List Event)
    (r : Result DialError (Unit {0})) (body : Run UnlockError (Unit {0}))
    → commands before ≡ []
    → commands (with_client n failed before r body).events
      ≡ (if is_ok r then commands body.events else [])
unfolding with_client commands
commands-with_client n failed before (err e) body h = h
commands-with_client n failed before (ok _) body h =
    rw
      (
        commands-append before (body.events ++ closed n ∷ []),
        h,
        commands-append body.events (closed n ∷ []),
      )
      (append-nil _)

-- The commands of a change and what comes behind it.
commands-after_change :
    (n : ℕ) (cmd line : Bytes) (succeeds : Bool) (again : Run UnlockError (Unit {0}))
    → commands
        (after_change
          (run_change_key n cmd line succeeds).events
          (run_change_key n cmd line succeeds).result
          again).events
      ≡ cmd ∷ (if succeeds && confirmed line then commands again.events else [])
unfolding after_change run_change_key commands
commands-after_change n cmd line false again = refl
commands-after_change n cmd line true again = elim (Bool-cases (confirmed line)) [
  | inl go_on ↦ rw go_on refl
  | inr stay ↦ rw stay refl
]

module _ (lib : SshLibrary) (server : Server lib) (d : Disk) (out_dir change_cmd line : Bytes) where
  open_connection-Steps :
      (n : ℕ) (signer : lib.Signer) (host_key : lib.HostKey)
      → let r = open_connection lib server d out_dir change_cmd line n signer host_key in
        Steps none r.events (dialled n r.result) × (commands r.events ≡ [])
  unfolding open_connection dialled commands
  open_connection-Steps n signer host_key = elim (Bool-cases (server.accepts n)) [
    | inr no' ↦ rw no' (stop none, refl)
    | inl yes' ↦ elim (Bool-cases (server.shakes n signer host_key)) [
      | inl good ↦ rw (yes', good) (go (opens n) (stop (some n)), refl)
      | inr bad ↦ rw (yes', bad) (go (opens n) (go (closes n) (stop none)), refl)
    ]
  ]

  with_pinned-Steps :
      (n : ℕ) (signer : lib.Signer) (k : Result DialError lib.HostKey)
      → let r = with_pinned lib server d out_dir change_cmd line n signer k in
        Steps none r.events (dialled n r.result) × (commands r.events ≡ [])
  unfolding with_pinned dialled commands
  with_pinned-Steps n signer (err e) = (stop none, refl)
  with_pinned-Steps n signer (ok k) = open_connection-Steps n signer k

  with_signer-Steps :
      (n : ℕ) (s : Result DialError lib.Signer)
      → let r = with_signer lib server d out_dir change_cmd line n s in
        Steps none r.events (dialled n r.result) × (commands r.events ≡ [])
  unfolding with_signer dialled commands
  with_signer-Steps n (err e) = (stop none, refl)
  with_signer-Steps n (ok signer) = with_pinned-Steps n signer _

  dial_ssh-Steps :
      (n : ℕ)
      → let r = dial_ssh lib server d out_dir change_cmd line n in
        Steps none r.events (dialled n r.result) × (commands r.events ≡ [])
  unfolding dial_ssh
  dial_ssh-Steps n = with_signer-Steps n _

  handle-Steps :
      Steps (some 0) (handle_change_and_unlock lib server d out_dir change_cmd line).events none
  unfolding handle_change_and_unlock
  handle-Steps = after_change-Steps _ _ _ (run_change_key-Steps 0 change_cmd line _) (
      with_client-Steps 1 reconnect _ _ _ (some 1) (dial_ssh-Steps 1).0 (run_unlock-Steps 1 _)
        (closes 1))

  -- Whatever Dropbear answers and the user types, `performUnlock` holds one connection at a time, runs
  -- commands on the open one only, and has closed every connection when it returns.
  pub perform_unlock-Steps :
      (change_key : Bool)
      → Steps none (perform_unlock lib server d out_dir change_cmd line change_key).events none
  unfolding perform_unlock
  perform_unlock-Steps true =
      with_client-Steps 0 dial _ _ _ none (dial_ssh-Steps 0).0 handle-Steps (closes_again 0)
  perform_unlock-Steps false =
      with_client-Steps 0 dial _ _ _ (some 0) (dial_ssh-Steps 0).0 (run_unlock-Steps 0 _) (closes 0)

  -- What a run should do: with no first connection, nothing; without a change, unlock; with one, change
  -- the key, and unlock if the change went well, the answer says so and the second connection is there.
  pub expected_commands : Bool → List Bytes
  expected_commands change_key =
      if is_ok (dial_ssh lib server d out_dir change_cmd line 0).result
      then (if change_key
          then change_cmd
            ∷ (if server.succeeds 0 change_cmd && confirmed line
                then (if is_ok (dial_ssh lib server d out_dir change_cmd line 1).result
                    then codes "cryptroot-unlock" ∷ []
                    else [])
                else [])
          else codes "cryptroot-unlock" ∷ [])
      else []

  -- `performUnlock` calls `runPTY` for exactly the commands that it should: none if the first connection fails; the
  -- unlocking alone without a change of key; with one, the change, and behind it the unlocking just if
  -- the change went well, the user confirmed, and the second connection was made.
  pub commands-perform_unlock :
      (change_key : Bool)
      → commands (perform_unlock lib server d out_dir change_cmd line change_key).events
        ≡ expected_commands change_key
  unfolding perform_unlock handle_change_and_unlock expected_commands run_unlock commands
  commands-perform_unlock false = commands-with_client 0 dial _ _ _ (dial_ssh-Steps 0).1
  commands-perform_unlock true =
      commands-with_client 0 dial _ _ _ (dial_ssh-Steps 0).1
      ∙ ap
          (λ (l : List Bytes).
            if is_ok (dial_ssh lib server d out_dir change_cmd line 0).result then l else [])
          (commands-after_change 0 change_cmd line (server.succeeds 0 change_cmd) _
            ∙ ap
                (λ (l : List Bytes).
                  change_cmd ∷ (if server.succeeds 0 change_cmd && confirmed line then l else []))
                (commands-with_client 1 reconnect _ _ _ (dial_ssh-Steps 1).1))
