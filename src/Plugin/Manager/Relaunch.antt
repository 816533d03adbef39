-- ===== src/Plugin/Manager/Relaunch.antt =====
-- The restarts of udhcpc in setupClient of pkg/plugin/dhcp_manager.go, down to the processes that they
-- start by NewDHCPClient and Start of pkg/udhcpc/client.go.
pub mod Attempts
pub mod Laws
use docker_network_dhcp.Base.{◌≡◌, Bool, true, false, List, [], ◌∷◌, GoString}
use docker_network_dhcp.Util.Outcome.{Outcome, ok, err, panic, Act, ◌>>◌}
use docker_network_dhcp.Plugin.Types.{DhcpManager}
use docker_network_dhcp.Plugin.Manager.{
  Managed, Loop, running, ended, finished, panicked, gave_up, forget_lease,
}
use docker_network_dhcp.Udhcpc.{DhcpClientOptions}
use docker_network_dhcp.Udhcpc.Process.{Thread, System, on_world, start, drain}
use docker_network_dhcp.Udhcpc.Client.{Pipes, new_dhcp_client}

abbrev pub restart_options : Bool → DhcpManager → DhcpClientOptions
restart_options is_v6 m = record {
  hostname = m.hostname;
  v6 = is_v6;
  once = false;
  namespace = m.ns_path;
  handler_script = [];
}

-- The select of one attempt: whether stopChan is closed before the delay is over, and the world then.
abbrev pub Select : Type 0 → Type 0
Select W = W → Bool × W

-- `iface` is the name of ctrLink.
module _ {W : Type 0} (pipes : Pipes W) (sys : System W) (iface : GoString) where
  unfoldable pub launch_client : DhcpClientOptions → Act (Thread W) (Unit {0})
  launch_client opts = on_world (new_dhcp_client pipes iface opts) >> start sys opts

  module _ (v6 : Bool) where
    abbrev pub launched :
        Managed (Thread W)
        → (Managed (Thread W) → Loop (Thread W))
        → Outcome (Unit {0}) × Thread W
        → Loop (Thread W)
    launched s again (ok _, t) = running (record { manager = forget_lease v6 s.manager; world = t })
    launched s again (err e, t) = again (record s { world = t })
    launched s again (panic, t) = ended panicked (record s { world = t })

    abbrev pub selected :
        Managed (Thread W) → (Managed (Thread W) → Loop (Thread W)) → Bool × W → Loop (Thread W)
    selected s again (true, w) = ended finished (record s { world = record s.world { world = w } })
    selected s again (false, w) =
        launched s again
          (launch_client (restart_options v6 s.manager) (record s.world { world = w }))

    -- One attempt for each delay of restartBackoffs.
    unfoldable pub relaunch : List (Select W) → Managed (Thread W) → Loop (Thread W)
    unfolding launch_client
    relaunch [] s = ended gave_up s
    relaunch (select ∷ rest) s = selected s (λ u. relaunch rest u) (select s.world.world)

    -- The channel of events is closed: Drain, then the attempts.
    unfoldable pub on_exit : List (Select W) → Managed (Thread W) → Loop (Thread W)
    unfolding relaunch drain
    on_exit selects s =
        relaunch selects (record s { world = record s.world { world = drain sys s.world.world } })
