-- ===== src/Tests/Relaunch.antt =====
-- A witness for the restarts of udhcpc: the first attempt is refused, the second is not.
use docker_network_dhcp.Base.{
  GoString-discrete, ◌≡◌, refl, false, ltb, Option, none, some, List, [], ◌∷◌, GoString, go,
  if◌then◌else◌,
}
use docker_network_dhcp.Util.Errors.{other}
use docker_network_dhcp.Util.Outcome.{ok, err}
use docker_network_dhcp.Plugin.Manager.{Managed, Loop, running, ended}
use docker_network_dhcp.Plugin.Manager.Relaunch.{Select, launch_client, relaunch, on_exit}
use docker_network_dhcp.Plugin.Manager.Relaunch.Laws.{Relaunched, on_exit_lem}
use docker_network_dhcp.Plugin.Manager.Relaunch.Attempts.{drained, IsRestart}
use docker_network_dhcp.Udhcpc.Process.{Thread, System, launch, launch_in, enter, start, drain}
use docker_network_dhcp.Udhcpc.Client.{Pipes, new_dhcp_client}
use docker_network_dhcp.Tests.World.{World, known, the_manager}
use docker_network_dhcp.Tests.Sandbox.{tick}

abbrev system : System World
system = record {
  get = known tick tt;
  get_from_path = λ path. known tick tt;
  set = λ ns. known tick tt;
  start_command = λ w. (if ltb w 8 then err (other (go "exec")) else ok tt, tick w);
  sigterm = known tick tt;
  kill = known tick tt;
  wait = λ w. (some (ok tt), tick w);
  ended = other (go "context deadline exceeded");
}

abbrev pipes : Pipes World
pipes = record { stderr_pipe = known tick tt; stdout_pipe = known tick tt }

abbrev managed : Managed (Thread World)
managed = record {
  manager = record the_manager { ns_path = go "/ns" };
  world = record { world = 0; namespace = none; handles = 2; locked = false; started = [] };
}

abbrev elapses : Select World
elapses w = (false, tick w)

abbrev selects : List (Select World)
selects = elapses ∷ elapses ∷ elapses ∷ []

-- The processes of a loop that goes on.
abbrev goes_on : Loop (Thread World) → Option (List (Option GoString))
goes_on (running u) = some u.world.started
goes_on (ended e u) = none

second_succeeds :
    goes_on (on_exit pipes system (go "veth0") false selects managed) ≡ some (some (go "/ns") ∷ [])
unfolding on_exit relaunch launch_client new_dhcp_client start launch_in enter launch drain go
    GoString-discrete
second_succeeds = refl

on_exit_lem_example :
    Relaunched pipes system
      (go "veth0")
      false
      managed
      (on_exit pipes system (go "veth0") false selects managed)
    × IsRestart pipes system
        (go "veth0")
        false
        selects
        (drained pipes system (go "veth0") false managed)
        (on_exit pipes system (go "veth0") false selects managed)
on_exit_lem_example =
    on_exit_lem pipes system (go "veth0") false (λ w. refl) selects managed refl refl
