-- ===== src/Tests/Leases.antt =====
-- Witnesses for the manager: leases, deconfig events and the event loop.
use docker_network_dhcp.Base.{
  ◌≡◌, ◌≢◌, refl, true, false, none, some, [], ◌∷◌, GoString, go, ◌==◌, GoString-discrete,
}
use docker_network_dhcp.Util.Outcome.{ok, panic}
use docker_network_dhcp.Plugin.Types.{Addr}
use docker_network_dhcp.Plugin.Env.{Info}
use docker_network_dhcp.Plugin.Manager.{
  Netns, Managed, last_of, deconfigured_of, renew, handle, gave_up, ended, fails, replace_address,
  restart, gateway_step, prime, defer_removal,
}
use docker_network_dhcp.Plugin.Manager.Lease.{
  IsRenewed, renew_lem, installed, deconfig, bound, soft_handover,
}
use docker_network_dhcp.Plugin.Manager.Steps.{event, exited, Reach, here, next, IsCalm}
use docker_network_dhcp.Tests.Sandbox.{tick}
use docker_network_dhcp.Tests.World.{World, known, nonempty, lease_addr, the_manager}

-- A namespace that accepts everything and counts the calls; a text is the address of its bytes.
abbrev addr_of : GoString → Addr
addr_of s = record { ip_net = record { ip = s; mask = 255 ∷ 0 ∷ [] } }

abbrev pub netns : Netns World
netns = record {
  parse_addr = λ s. nonempty s (addr_of s);
  addr_equal = λ a b. a.ip_net.ip == b.ip_net.ip;
  parse_ip = λ s. some s;
  ip_equal = λ a b. false;
  addr_del = λ a. known tick tt;
  addr_add = λ a. known tick tt;
  default_routes = known tick [];
  route_add = λ gw. known tick tt;
  route_replace = λ r. known tick tt;
}

abbrev pub new_lease : Info
new_lease = record { ip = 10 ∷ 9 ∷ []; gateway = []; domain = [] }

abbrev pub same_lease : Info
same_lease = record { ip = 10 ∷ 5 ∷ []; gateway = []; domain = [] }

abbrev with_lease : Managed World
with_lease = record { manager = the_manager; world = 0 }

abbrev unprimed : Managed World
unprimed = record { manager = record the_manager { primed = false }; world = 0 }

renewed : (renew netns false new_lease with_lease).0 ≡ ok tt
unfolding renew replace_address GoString-discrete
renewed = refl

renew_lem_example :
    IsRenewed netns false new_lease with_lease (renew netns false new_lease with_lease).1
renew_lem_example = renew_lem netns false new_lease with_lease renewed

soft_handover_example :
    ((handle netns false (deconfig netns new_lease) with_lease).1.world ≡ 0)
    × ((handle netns false
          (bound netns same_lease)
          (handle netns false (deconfig netns new_lease) with_lease).1).1
        ≡ (gateway_step netns false [] (
            installed netns false lease_addr lease_addr
              (record with_lease { manager = prime false (defer_removal false the_manager) }))).1)
    × (last_of false
          (handle netns false
            (bound netns same_lease)
            (handle netns false (deconfig netns new_lease) with_lease).1).1.manager
        ≡ some lease_addr)
    × (deconfigured_of false
          (handle netns false
            (bound netns same_lease)
            (handle netns false (deconfig netns new_lease) with_lease).1).1.manager
        ≡ false)
soft_handover_example =
    soft_handover netns false new_lease same_lease with_lease refl refl refl refl

nonempty-ne-panic : {A : Type 0} (s : GoString) (a : A) → nonempty s a ≢ panic
nonempty-ne-panic [] a = λ q. cc
nonempty-ne-panic (x ∷ xs) a = λ q. cc

netns-IsCalm : IsCalm netns false
netns-IsCalm = record {
  parse_addr = λ s. nonempty-ne-panic s (addr_of s);
  addr_add = λ a w q. cc;
  default_routes = λ w q. cc;
  route_add = λ gw w q. cc;
  route_replace = λ r w q. cc;
}

has_last : last_of false the_manager ≢ none
has_last q = cc

-- A deconfig, and then three restarts that fail.
given_up :
    Reach netns false with_lease
      (ended gave_up (record { manager = record the_manager { deconfigured = true }; world = 0 }))
unfolding handle restart go GoString-discrete
given_up = next (next here (event (deconfig netns new_lease))) (exited fails fails fails)
