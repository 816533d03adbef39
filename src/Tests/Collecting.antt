-- ===== src/Tests/Collecting.antt =====
-- Witnesses for GetIP and its goroutines.
use docker_network_dhcp.Base.{
  ◌≡◌, refl, true, false, none, some, List, [], ◌∷◌, GoString, go, GoString-discrete,
}
use docker_network_dhcp.Util.Errors.{sentinel, other, err_no_lease}
use docker_network_dhcp.Util.Outcome.{Outcome, ok, err}
use docker_network_dhcp.Plugin.Manager.{Event}
use docker_network_dhcp.Udhcpc.{DhcpClientOptions, is_lease, get_ip, collect}
use docker_network_dhcp.Udhcpc.Lease.{IsLast}
use docker_network_dhcp.Udhcpc.Pipe.{scan}
use docker_network_dhcp.Udhcpc.Process.{Thread, System, start, launch_in, enter, launch, finish}
use docker_network_dhcp.Udhcpc.Collecting.{
  returned, Collecting, at_start, writes, exits, reads, collects, is_told, finishes, returns, Reach,
  here, next,
}
use docker_network_dhcp.Udhcpc.Collecting.Invariant.{IsResult}
use docker_network_dhcp.Udhcpc.Collecting.Prefix.{returned-get_ip, get_ip_loses}
use docker_network_dhcp.Udhcpc.Client.{
  Pipes, get_lease, started_once, new_dhcp_client, once, StartedOnce, get_lease-ok,
}
use docker_network_dhcp.Tests.World.{World, known}
use docker_network_dhcp.Tests.Sandbox.{tick}

abbrev bound : Event
bound = record {
  kind = go "bound";
  info = record { ip = go "10.1.0.5/24"; gateway = []; domain = [] };
}

abbrev decode : GoString → Outcome Event
decode l = ok bound

abbrev line : GoString
line = go "{}"

carries_lease : is_lease bound ≡ true
unfolding go GoString-discrete
carries_lease = refl

get_ip_loses_example :
    (t : Collecting) × Reach decode at_start t
    × (t.written ≡ line ∷ [])
    × (t.exit ≡ some (ok tt))
    × (t.getter ≡ returned (err (sentinel err_no_lease)))
    × (get_ip (ok tt) (scan decode t.written) ≡ ok bound.info)
get_ip_loses_example = get_ip_loses decode line bound refl carries_lease

-- The line is read in time.
abbrev taken : Collecting
taken = record at_start {
  written = line ∷ [];
  taken = line ∷ [];
  collecting = false;
  info = some bound.info;
  exit = some (ok tt);
  getter = returned (ok bound.info);
}

taken-Reach : Reach decode at_start taken
unfolding go GoString-discrete
taken-Reach =
    next
      (next
        (next
          (next
            (next (next (next here (writes line refl)) (reads line bound refl refl refl))
              (collects line bound refl refl))
            (exits (ok tt) refl))
          (finishes [] [] refl refl refl))
        (is_told refl))
      (returns {o = ok tt} refl refl)

returned-get_ip_example : IsResult decode (ok bound.info) (line ∷ []) (some (ok tt))
returned-get_ip_example = returned-get_ip decode (ok bound.info) taken-Reach refl

abbrev system : System World
system = record {
  get = known tick tt;
  get_from_path = λ path. known tick tt;
  set = λ ns. known tick tt;
  start_command = known tick tt;
  sigterm = known tick tt;
  kill = known tick tt;
  wait = λ w. (some (ok tt), tick w);
  ended = other (go "context deadline exceeded");
}

abbrev pipes : Pipes World
pipes = record { stderr_pipe = known tick tt; stdout_pipe = known tick tt }

abbrev events : World → List Event
events w = bound ∷ []

abbrev thread : Thread World
thread = record { world = 0; namespace = none; handles = 2; locked = false; started = [] }

abbrev options : DhcpClientOptions
options = record {
  hostname = [];
  v6 = false;
  once = false;
  namespace = go "/ns";
  handler_script = [];
}

leases : (get_lease pipes system events (go "veth0") options thread).0 ≡ ok bound.info
unfolding get_lease started_once new_dhcp_client start launch_in enter launch finish get_ip collect
    go GoString-discrete
leases = refl

get_lease-ok_example :
    StartedOnce pipes system events options thread
      (get_lease pipes system events (go "veth0") options thread).1
    × IsLast bound.info (events (get_lease pipes system events (go "veth0") options thread).1.world)
    × ((finish system
          (once options)
          (started_once pipes system events (go "veth0") options thread).1.world).0
        ≡ ok tt)
get_lease-ok_example =
    get_lease-ok pipes system events (go "veth0") options thread (λ w. refl) refl refl leases
