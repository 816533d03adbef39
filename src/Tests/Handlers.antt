-- ===== src/Tests/Handlers.antt =====
-- Witnesses for the handlers of endpoints: CreateEndpoint, Join, Leave and DeleteEndpoint.
use docker_network_dhcp.Base.{◌≡◌, refl, false, none, some, [], ◌∷◌, go, GoString-discrete}
use docker_network_dhcp.Base.GoMap.{lookup}
use docker_network_dhcp.Util.Outcome.{ok, panic}
use docker_network_dhcp.Plugin.Names.{veth_pair_names, slice12}
use docker_network_dhcp.Plugin.Types.{
  DhcpNetworkOptions, net_mode, CreateEndpointRequest, JoinHint, JoinResponse,
}
use docker_network_dhcp.Plugin.Table.{add_entry}
use docker_network_dhcp.Plugin.Options.{short_options, net_options}
use docker_network_dhcp.Plugin.Endpoint.{
  has_address, create_veth, wanted_mac, set_up_veth, write_back_mac, initial_ips, initial_ip,
  drop_hint, empty_interface,
}
use docker_network_dhcp.Plugin.Endpoint.Create.{create_endpoint}
use docker_network_dhcp.Plugin.Endpoint.{initial_timeout}
use docker_network_dhcp.Plugin.Endpoint.Hints.{IsLeased, create_endpoint-IsLeased}
use docker_network_dhcp.Plugin.Endpoint.Missing.{without_interface, create_endpoint_panic}
use docker_network_dhcp.Plugin.Join.{
  join, join_with, interface_name, joined_entry, take_hint, add_routes, route_loop, empty_response,
}
use docker_network_dhcp.Plugin.Join.Laws.{join_records}
use docker_network_dhcp.Plugin.Join.Routes.{route_loop_lem, with_routes}
use docker_network_dhcp.Plugin.Leave.{leave, join_finish}
use docker_network_dhcp.Plugin.Leave.Laws.{leave_clears, join_finish_after_leave}
use docker_network_dhcp.Tests.World.{
  sim_of, sim, fresh, hinted, joined, net_id, endpoint_id, bridge_options, lease_addr, the_join,
  the_hint, the_request, the_manager, routes, the_bridge,
}

abbrev creation : CreateEndpointRequest
creation = record {
  network_id = net_id;
  endpoint_id = endpoint_id;
  interface = some empty_interface;
}

created :
    (create_endpoint sim creation fresh).0
    ≡ ok (record { address = go "10.5.0.2/8"; address_ipv6 = []; mac_address = 2 ∷ [] })
unfolding create_endpoint net_options create_veth wanted_mac set_up_veth write_back_mac initial_ips
    initial_ip net_mode veth_pair_names lookup sim sim_of go GoString-discrete
created = refl

create_endpoint-IsLeased_example :
    (opts : DhcpNetworkOptions) × ((net_options sim net_id fresh).0 ≡ ok opts)
    × (has_address (some empty_interface) ≡ false)
    × IsLeased sim
        (initial_timeout opts)
        endpoint_id
        opts.ipv6
        (create_endpoint sim creation fresh).1.plugin
create_endpoint-IsLeased_example = create_endpoint-IsLeased sim creation _ fresh created

create_endpoint_panic_example :
    (create_endpoint sim (without_interface sim endpoint_id net_id) fresh).0 ≡ panic
unfolding net_options lookup sim sim_of go
create_endpoint_panic_example =
    create_endpoint_panic sim endpoint_id net_id bridge_options the_bridge fresh refl refl

named :
    interface_name (short_options (go "my-bridge") (go "bridge") false) endpoint_id
    ≡ ok (record {
      src_name = 1 ∷ 2 ∷ 3 ∷ 4 ∷ 5 ∷ 6 ∷ 7 ∷ 8 ∷ 9 ∷ 10 ∷ 11 ∷ 12 ∷ go "-dh";
      dst_prefix = go "my-bridge";
    })
unfolding interface_name short_options net_mode veth_pair_names go GoString-discrete
named = refl

abbrev answer : JoinResponse
answer = record {
  interface_name = record {
    src_name = 1 ∷ 2 ∷ 3 ∷ 4 ∷ 5 ∷ 6 ∷ 7 ∷ 8 ∷ 9 ∷ 10 ∷ 11 ∷ 12 ∷ go "-dh";
    dst_prefix = go "my-bridge";
  };
  gateway = go "10.1.0.1";
  gateway_ipv6 = [];
  static_routes =
      record { destination = 192 ∷ 168 ∷ []; route_type = 0; next_hop = 10 ∷ 1 ∷ [] } ∷ [];
}

answered : (join sim the_join hinted).0 ≡ ok answer
unfolding join net_options interface_name short_options net_mode veth_pair_names lookup take_hint
    join_with slice12 add_routes route_loop sim go GoString-discrete
answered = refl

join_records_example :
    (hint : JoinHint) × (lookup endpoint_id hinted.plugin.join_hints ≡ some hint)
    × ((join sim the_join hinted).1.plugin
        ≡ add_entry
            (joined_entry the_join (short_options (go "my-bridge") (go "bridge") false) hint)
            (drop_hint endpoint_id hinted.plugin))
unfolding lookup GoString-discrete
join_records_example = join_records sim the_join hinted refl named answered

route_loop_lem_example :
    route_loop sim false false the_hint routes empty_response
    ≡ ok (with_routes sim false false lease_addr routes empty_response)
route_loop_lem_example =
    route_loop_lem sim false false the_hint lease_addr routes empty_response refl

leave_clears_example :
    (lookup endpoint_id (leave sim the_request joined).1.plugin.state ≡ none)
    × (lookup endpoint_id (leave sim the_request joined).1.plugin.persistent_dhcp ≡ none)
    × (lookup endpoint_id (leave sim the_request joined).1.plugin.left_endpoints ≡ none)
leave_clears_example = leave_clears sim the_request joined

join_finish_after_leave_example :
    lookup endpoint_id
      (join_finish sim endpoint_id
        (ok the_manager)
        (leave sim the_request joined).1).plugin.persistent_dhcp
    ≡ some the_manager
join_finish_after_leave_example = join_finish_after_leave sim the_request joined the_manager
