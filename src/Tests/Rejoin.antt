-- ===== src/Tests/Rejoin.antt =====
-- Witnesses for the way from Join over a restart to Restore.
use docker_network_dhcp.Base.{
  ℕ, ◌≡◌, ◌==ℕ◌, refl, Bool, true, false, Option, none, some, List, [], ◌∷◌, All, if◌then◌else◌,
  ◌==◌, go, GoString-discrete,
}
use docker_network_dhcp.Util.Outcome.{ok, panic}
use docker_network_dhcp.Plugin.Names.{veth_pair_names}
use docker_network_dhcp.Plugin.State.{EndpointState, stamp}
use docker_network_dhcp.Plugin.Types.{Addr, DhcpManager, net_mode, network_mode_bridge}
use docker_network_dhcp.Plugin.Options.{short_options}
use docker_network_dhcp.Plugin.Join.{joined_entry}
use docker_network_dhcp.Plugin.Join.Goroutine.{with_hostname, hinted_manager}
use docker_network_dhcp.Plugin.Manager.Start.{
  Sandbox, new_manager, start_clients, setup_client, restore_client, open_handle,
}
use docker_network_dhcp.Plugin.Manager.Start.Result.{started_as}
use docker_network_dhcp.Plugin.Restore.{
  reattach, read_sandbox, find_endpoint_link, current_v4, current_v6, first_global,
}
use docker_network_dhcp.Plugin.Restore.Rejoin.{reattach-joined_entry}
use docker_network_dhcp.Plugin.Restore.Addresses.{IsListed, Local}
use docker_network_dhcp.Plugin.Restore.Unaddressed.{reattach-panic}
use docker_network_dhcp.Plugin.Manager.{handle}
use docker_network_dhcp.Plugin.Manager.Lease.{bound}
use docker_network_dhcp.Tests.World.{World, known, the_join, bridge_options, the_hint, lease_addr}
use docker_network_dhcp.Tests.Leases.{netns, new_lease}
use docker_network_dhcp.Tests.Sandbox.{tick, box, nothing_held}

-- What Join and its goroutine have left, as it is saved.
abbrev left_behind : EndpointState
left_behind = stamp (with_hostname (go "web") (joined_entry the_join bridge_options the_hint))

abbrev again : DhcpManager
again = record (new_manager the_join (short_options (go "my-bridge") (go "bridge") false)) {
  last_ip = some lease_addr;
  if_index = 5;
  ns_path = the_join.sandbox_key;
  hostname = go "web";
  started = true;
}

reattaches : (reattach box left_behind nothing_held).0 ≡ ok again
unfolding reattach read_sandbox find_endpoint_link current_v4 current_v6 first_global box
    restore_client start_clients setup_client new_manager short_options veth_pair_names open_handle
    go GoString-discrete stamp joined_entry net_mode
reattaches = refl

reattach-joined_entry_example :
    (v4 : Addr) × (v6 : Option Addr) × (index : ℕ) × (again
      ≡ record (started_as (go "web") (
          hinted_manager the_join
            (short_options bridge_options.bridge (net_mode bridge_options) bridge_options.ipv6)
            the_hint)) { last_ip = some v4; last_ipv6 = v6; if_index = index })
    × IsListed box 2 (some v4)
    × (bridge_options.ipv6 ≡ false → v6 ≡ none)
    × (bridge_options.ipv6 ≡ true → IsListed box 10 v6)
    × (net_mode bridge_options == network_mode_bridge ≡ false → index ≡ the_hint.if_index)
reattach-joined_entry_example =
    reattach-joined_entry box the_join bridge_options the_hint (go "web") nothing_held reattaches

-- The same with IPv6, in a namespace that lists IPv4 addresses only.
abbrev bare : Sandbox World
bare = record box {
  addr_list = λ l family. known tick (if family ==ℕ 10 then [] else lease_addr ∷ []);
}

abbrev with_v6 : EndpointState
with_v6 = record left_behind { ipv6 = true }

bare_at :
    (b : Bool) (w : World) (addrs : List Addr)
    → (known {W = World} tick (if b then [] else lease_addr ∷ []) w).0 ≡ ok addrs
    → b ≡ true
    → All (Local bare) addrs
bare_at true w [] e q = tt
bare_at true w (x ∷ xs) e q = cc (e)
bare_at false w xs e q = cc (q)

reattaches_bare :
    (reattach bare with_v6 nothing_held).0
    ≡ ok (record again { opts = short_options (go "my-bridge") (go "bridge") true })
unfolding reattach read_sandbox find_endpoint_link current_v4 current_v6 first_global box
    restore_client start_clients setup_client new_manager short_options veth_pair_names open_handle
    go GoString-discrete stamp joined_entry net_mode
reattaches_bare = refl

reattach-panic_example :
    (handle netns true (bound netns new_lease) (record {
      manager = record again { opts = short_options (go "my-bridge") (go "bridge") true };
      world = 0;
    })).0
    ≡ panic
reattach-panic_example =
    reattach-panic bare netns with_v6 nothing_held 0 new_lease reattaches_bare refl
      (λ link w addrs e. bare_at true w addrs e refl) refl
