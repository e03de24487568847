-- ===== src/Rootless/Whole.antt =====
-- What `Unlock` of contrib/rootless/rootless.go leaves behind, its parts put together.
use tool_public_ubo.Base.{
  ℕ, ◌≡◌, ◌⊎◌, inl, inr, refl, Bool, true, false, List, [], ◌∷◌, ◌++◌, Option, none, some,
}
use tool_public_ubo.Base.Result.{Result, ok, err}
use tool_public_ubo.Config.{Config}
use tool_public_ubo.Remote.Process.{Ssh}
use tool_public_ubo.Rootless.Address.{AddrPort}
use tool_public_ubo.Rootless.ChangeKey.{build_change_luks_cmd, change_key_direct_ssh-SameBut}
use tool_public_ubo.Rootless.Session.{
  Event, probe, device_up, device_down, device_closed, SshLibrary, Server,
}
use tool_public_ubo.Rootless.Trace.{
  Steps, stop, go, opens, closes, Steps-append, perform_unlock-Steps,
}
use tool_public_ubo.Rootless.Tunnel.{
  Round, Waited, reached, stopped, timed_out, wait_tunnel, Ended, wait_tunnel-Ends,
}
use tool_public_ubo.Rootless.Unlock.{
  Device, Failure, Outcome, handle_tunnel_failure, after_wait, addressed, shut_down, unlock_address,
  prepared, prepare_device, unlock,
}
use tool_public_ubo.System.Disk.{Disk, SameBut}
use tool_public_ubo.Text.Compare.{Bytes, codes}

-- On the connections one at a time is open and all are closed, and there was one only if the tunnel came
-- up.
unfoldable pub IsQuiet : Option Waited → List Event → Type 0
IsQuiet waited es = Steps none es none × ((es ≡ []) ⊎ ((i : ℕ) × (waited ≡ some (reached i))))

-- The device was not brought up and nothing happened, or it is brought up first, and taken down and closed
-- last.
unfoldable pub IsTidy : Option Waited → List Event → Type 0
IsTidy waited es =
    (es ≡ [])
    ⊎ ((inner : List Event) × (es ≡ device_up ∷ (inner ++ device_down ∷ device_closed ∷ []))
        × IsQuiet waited inner)

-- The disk is as it was; with a change of key, the file known_hosts may differ.
unfoldable pub IsKept : Bool → Bytes → Disk → Disk → Type 0
IsKept change_key out_dir d d' =
    (d' ≡ d) ⊎ ((change_key ≡ true) × SameBut (out_dir ++ codes "/known_hosts") d d')

unfoldable pub Clean : Bool → Bytes → Disk → Option Waited → Outcome → Type 0
Clean change_key out_dir d waited o = IsKept change_key out_dir d o.disk × IsTidy waited o.events

wait_tunnel-IsQuiet :
    (rounds : ℕ → Round) (es : List Event) (o : Option Waited) → Ended rounds 0 es o → IsQuiet o es
unfolding Ended IsQuiet
wait_tunnel-IsQuiet rounds es none e = absurd e
wait_tunnel-IsQuiet rounds es (some (reached j)) (n, at, lt, failed, early, up, shut) =
    rw shut (go (opens probe) (go (closes probe) (stop none)), inr (j, refl))
wait_tunnel-IsQuiet rounds es (some (stopped j)) (n, at, lt, failed, early, no', done, none_made) =
    rw none_made (stop none, inl refl)
wait_tunnel-IsQuiet rounds es (some (timed_out j)) (n, at, le, failed, late, none_made) =
    rw none_made (stop none, inl refl)

module _ (quote_go : Bytes → Bytes) (ssh : Ssh) (dev : Device) (rounds : ℕ → Round)
    (lib : SshLibrary) (server : Server lib) (line : Bytes) (c : Config) (out_dir : Bytes) where
  handle_tunnel_failure-Clean :
      (change_key : Bool) (es : List Event) (waited : Option Waited) (d : Disk)
      → let o =
          handle_tunnel_failure quote_go ssh dev rounds lib server line c out_dir change_key es
            waited d in
        IsKept change_key out_dir d o.disk × (o.events ≡ es)
  unfolding handle_tunnel_failure IsKept
  handle_tunnel_failure-Clean true es waited d =
      (inr (refl, change_key_direct_ssh-SameBut quote_go ssh c out_dir d), refl)
  handle_tunnel_failure-Clean false es waited d = (inl refl, refl)

  after_wait-Clean :
      (change_key : Bool) (es : List Event) (waited : Option Waited) (d : Disk)
      → IsQuiet waited es
      → let o =
          after_wait quote_go ssh dev rounds lib server line c out_dir change_key es waited d in
        IsKept change_key out_dir d o.disk × IsQuiet waited o.events
  unfolding after_wait IsQuiet
  after_wait-Clean change_key es none d q =
      let (kept, same) = handle_tunnel_failure-Clean change_key es none d in (kept, rw same q)
  after_wait-Clean change_key es (some (stopped i)) d q =
      let (kept, same) = handle_tunnel_failure-Clean change_key es (some (stopped i)) d in
      (kept, rw same q)
  after_wait-Clean change_key es (some (timed_out i)) d q =
      let (kept, same) = handle_tunnel_failure-Clean change_key es (some (timed_out i)) d in
      (kept, rw same q)
  after_wait-Clean change_key es (some (reached i)) d (closed, _) =
      unfold IsKept in
      unfold IsQuiet in
      (
        inl refl,
        (
          Steps-append closed (
              perform_unlock-Steps lib server d out_dir (build_change_luks_cmd quote_go c) line
                change_key),
          inr (i, refl),
        ),
      )

  addressed-Clean :
      (change_key : Bool) (r : Result Failure AddrPort) (d : Disk)
      → let o = addressed quote_go ssh dev rounds lib server line c out_dir change_key r d in
        IsKept change_key out_dir d o.disk × IsQuiet (wait_tunnel rounds).result o.events
  unfolding addressed
  addressed-Clean change_key (err e) d =
      unfold IsKept in unfold IsQuiet in (inl refl, (stop none, inl refl))
  addressed-Clean change_key (ok _) d =
      after_wait-Clean change_key _ _ d (wait_tunnel-IsQuiet rounds _ _ (wait_tunnel-Ends rounds))

  prepared-Clean :
      (change_key : Bool) (r : Result Failure (Unit {0})) (d : Disk)
      → Clean change_key out_dir d
          (wait_tunnel rounds).result
          (prepared quote_go ssh dev rounds lib server line c out_dir change_key r d)
  unfolding prepared shut_down Clean IsTidy
  prepared-Clean change_key (err e) d = (unfold IsKept in inl refl, inl refl)
  prepared-Clean change_key (ok _) d =
      let (kept, quiet) = addressed-Clean change_key (unlock_address c) d in
      (kept, inr (_, refl, quiet))

  -- Whatever WireGuard, the network, Dropbear and ssh do, `Unlock` leaves every file as it was, but for
  -- known_hosts of the output directory if the key is to be changed. If it brings the WireGuard device up,
  -- it takes it down and closes it at the end, and in between one connection to Dropbear is open at a time,
  -- the one that tries the tunnel included, and all are closed; there is one only if the tunnel was reached.
  pub unlock-Clean :
      (change_key : Bool) (d : Disk)
      → Clean change_key out_dir d
          (wait_tunnel rounds).result
          (unlock quote_go ssh dev rounds lib server line c out_dir change_key d)
  unfolding unlock
  unlock-Clean change_key d = prepared-Clean change_key (prepare_device dev out_dir d) d
