-- ===== src/Rootless/Unlock.antt =====
-- `Unlock`, `setupWGDevice` and `handleTunnelFailure` of contrib/rootless/rootless.go: the parts of the
-- unlocking put together. The WireGuard device is given by which of its calls go well.
use tool_public_ubo.Base.{
  List, [], ◌∷◌, ◌++◌, Bool, true, false, if◌then◌else◌, Option, none, some, ℕ,
}
use tool_public_ubo.Base.Result.{Result, ok, err, map_err, ◌>>=◌, ◌>>◌, fail_if}
use tool_public_ubo.Config.{Config}
use tool_public_ubo.Config.Files.{wg_server_tunnel_ip}
use tool_public_ubo.Net.Address.{Address}
use tool_public_ubo.Remote.Process.{Ssh}
use tool_public_ubo.Rootless.Address.{AddrPort, parse_first_addr, server_addr}
use tool_public_ubo.Rootless.ChangeKey.{DirectError, build_change_luks_cmd, change_key_direct_ssh}
use tool_public_ubo.Rootless.Ipc.{IpcError, build_ipc}
use tool_public_ubo.Rootless.Parse.{WgClientConfig, WgError, parse_wg_config}
use tool_public_ubo.Rootless.Session.{
  Event, device_up, device_down, device_closed, SshLibrary, Server, UnlockError, perform_unlock,
}
use tool_public_ubo.Rootless.Tunnel.{Round, Waited, reached, wait_tunnel}
use tool_public_ubo.System.Disk.{Disk}
use tool_public_ubo.Text.Compare.{Bytes, codes}

pub record Device : Type 0 where
  pub creates_tun : Address → Bool
  pub accepts_ipc : Bytes → Bool
  pub comes_up : Bool

pub data DeviceError : Type 0 where
  client_address tun_failed ipc_refused not_up : DeviceError
  ipc : IpcError → DeviceError

pub data Failure : Type 0 where
  wg_config : WgError → Failure
  device : DeviceError → Failure
  server_address : Failure
  not_reachable : Option Waited → Failure
  direct : DirectError → Failure
  unlocking : UnlockError → Failure

-- The disk behind the call, what happened on the device and on connections to Dropbear, and how the call
-- ended.
pub record Outcome : Type 0 where
  pub disk : Disk
  pub events : List Event
  pub result : Result Failure (Unit {0})

or_err {ℓ κ} : {E : Type ℓ} {A : Type κ} → E → Option A → Result E A
or_err e none = err e
or_err e (some a) = ok a

unfoldable pub setup_wg_device : Device → WgClientConfig → Result DeviceError (Unit {0})
unfolding or_err
setup_wg_device dev c = do
  client_ip ← or_err client_address (parse_first_addr c.address)
  fail_if (if dev.creates_tun client_ip then false else true) tun_failed
  text ← map_err ipc (build_ipc c)
  fail_if (if dev.accepts_ipc text then false else true) ipc_refused
  fail_if (if dev.comes_up then false else true) not_up

-- The steps in front of the deferred shutdown: they read the disk and change nothing.
unfoldable pub prepare_device : Device → Bytes → Disk → Result Failure (Unit {0})
prepare_device dev out_dir d = do
  wg ← map_err wg_config (parse_wg_config (out_dir ++ codes "/client_wg.conf") d)
  map_err device (setup_wg_device dev wg)

unfoldable pub unlock_address : Config → Result Failure AddrPort
unfolding or_err
unlock_address c = or_err server_address (server_addr (wg_server_tunnel_ip c) c.dropbear.port)

-- What is deferred once the device is up.
unfoldable pub shut_down : Outcome → Outcome
shut_down o = record o { events = device_up ∷ (o.events ++ device_down ∷ device_closed ∷ []) }

module _ (quote_go : Bytes → Bytes) (ssh : Ssh) (dev : Device) (rounds : ℕ → Round)
    (lib : SshLibrary) (server : Server lib) (line : Bytes) where
  -- The events are those of the wait.
  unfoldable pub handle_tunnel_failure :
      Config → Bytes → Bool → List Event → Option Waited → Disk → Outcome
  handle_tunnel_failure c out_dir change_key es waited d =
      let (d', r) = change_key_direct_ssh quote_go ssh c out_dir d in
      if change_key
      then record { disk = d'; events = es; result = map_err direct r }
      else record { disk = d; events = es; result = err (not_reachable waited) }

  unfoldable pub after_wait : Config → Bytes → Bool → List Event → Option Waited → Disk → Outcome
  unfolding handle_tunnel_failure
  after_wait c out_dir change_key es (some (reached i)) d =
      let r =
        perform_unlock lib server d out_dir (build_change_luks_cmd quote_go c) line change_key in
      record { disk = d; events = es ++ r.events; result = map_err unlocking r.result }
  after_wait c out_dir change_key es waited d =
      handle_tunnel_failure c out_dir change_key es waited d

  unfoldable pub addressed : Config → Bytes → Bool → Result Failure AddrPort → Disk → Outcome
  unfolding after_wait
  addressed c out_dir change_key (err e) d = record { disk = d; events = []; result = err e }
  addressed c out_dir change_key (ok _) d =
      let w = wait_tunnel rounds in after_wait c out_dir change_key w.events w.result d

  unfoldable pub prepared : Config → Bytes → Bool → Result Failure (Unit {0}) → Disk → Outcome
  unfolding addressed shut_down unlock_address
  prepared c out_dir change_key (err e) d = record { disk = d; events = []; result = err e }
  prepared c out_dir change_key (ok _) d =
      shut_down (addressed c out_dir change_key (unlock_address c) d)

  unfoldable pub unlock : Config → Bytes → Bool → Disk → Outcome
  unfolding prepared
  unlock c out_dir change_key d = prepared c out_dir change_key (prepare_device dev out_dir d) d
