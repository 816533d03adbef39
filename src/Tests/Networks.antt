-- ===== src/Tests/Networks.antt =====
-- Witnesses for the networks: CreateNetwork, its conflict check, and the options.
use docker_network_dhcp.Base.{◌≡◌, refl, ◌↔◌, [], ◌∷◌, go, All, GoString-discrete}
use docker_network_dhcp.Util.Outcome.{ok}
use docker_network_dhcp.Plugin.Types.{DhcpNetworkOptions, net_mode, CreateNetworkRequest}
use docker_network_dhcp.Plugin.Network.{
  check_networks, create_network, validate_network, is_valid_mode, check_ipam, check_bridge,
}
use docker_network_dhcp.Plugin.Network.Conflicts.{IsFree, check_networks-ok}
use docker_network_dhcp.Plugin.Options.{short_options, net_options}
use docker_network_dhcp.Plugin.Options.Laws.{net_options-create_network}
use docker_network_dhcp.Tests.World.{sim_of, sim, fresh, net_id, lease_addr, other_network}

abbrev the_creation : CreateNetworkRequest
the_creation = record {
  network_id = net_id;
  options = [];
  ipv4_data = record { address_space = go "null"; pool = go "0.0.0.0/0" } ∷ [];
}

check_networks-ok_example :
    (check_networks sim (go "my-bridge") (lease_addr ∷ []) (other_network ∷ []) ≡ ok tt)
    ↔ All (IsFree sim (go "my-bridge") (lease_addr ∷ [])) (other_network ∷ [])
check_networks-ok_example =
    check_networks-ok sim (go "my-bridge") (lease_addr ∷ []) (other_network ∷ [])

created : (create_network sim the_creation fresh).0 ≡ ok tt
unfolding create_network validate_network is_valid_mode check_ipam check_bridge net_mode sim sim_of
    go GoString-discrete
created = refl

net_options-create_network_example :
    (opts : DhcpNetworkOptions) × (sim.decode_opts the_creation.options ≡ ok opts)
    × (net_options sim the_creation.network_id (create_network sim the_creation fresh).1 ≡ (
      ok (short_options opts.bridge (net_mode opts) opts.ipv6),
      (create_network sim the_creation fresh).1,
    ))
net_options-create_network_example = net_options-create_network sim the_creation fresh created
