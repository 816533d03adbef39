-- ===== src/Plugin/Endpoint/Create.antt =====
-- CreateEndpoint of pkg/plugin/network.go: the sub-interface of a macvlan or ipvlan network, and
-- the whole handler.
use docker_network_dhcp.Base.{ℕ, ◌&&◌, Option, [], ◌++◌, GoString, go, ◌==◌, if◌then◌else◌}
use docker_network_dhcp.Util.Errors.{sentinel, err_ipam, err_mac_address}
use docker_network_dhcp.Util.Outcome.{
  Outcome, ok, err, panic, Act, ◌>>=◌, ◌>>◌, wrapping, pure, fail, lift, modify,
}
use docker_network_dhcp.Plugin.Names.{slice12}
use docker_network_dhcp.Plugin.Types.{
  DhcpNetworkOptions, net_mode, network_mode_bridge, network_mode_macvlan, network_mode_ipvlan,
  Link, EndpointInterface, CreateEndpointRequest,
}
use docker_network_dhcp.Plugin.Env.{Env, Sys, outside, locked}
use docker_network_dhcp.Plugin.Options.{net_options}
use docker_network_dhcp.Plugin.Endpoint.{
  change_hint, empty_interface, mac_of, has_address, initial_ips, cleaning_up, wanted_mac,
  create_veth,
}

abbrev pub refused : Outcome GoString → Outcome (Unit {0})
refused (ok mac) = if mac == [] then ok tt else err (sentinel err_mac_address)
refused (err e) = err e
refused panic = panic

-- An ipvlan interface shares the address of its parent: none can be given.
unfoldable pub refuse_mac : DhcpNetworkOptions → CreateEndpointRequest → Outcome (Unit {0})
refuse_mac opts r =
    if net_mode opts == network_mode_ipvlan then refused (mac_of r.interface) else ok tt

module _ {W : Type 0} (env : Env W) where
  -- Only the address of a macvlan interface that libnetwork did not choose is written back.
  abbrev pub sub_interface : DhcpNetworkOptions → GoString → Link → EndpointInterface
  sub_interface opts mac ctr =
      if net_mode opts == network_mode_macvlan && mac == []
      then record empty_interface { mac_address = env.mac_string ctr.hardware_addr }
      else empty_interface

  -- What follows the creation of the sub-interface.
  unfoldable pub set_up_sub :
      GoString → DhcpNetworkOptions → GoString → GoString → Act (Sys W) EndpointInterface
  unfolding initial_ips change_hint
  set_up_sub id opts mac if_name = do
    ctr ←
        wrapping (go "failed to get " ++ (net_mode opts ++ go " interface after creation"))
          (outside (env.link_by_name if_name))
    wrapping (go "failed to set " ++ (net_mode opts ++ go " interface up"))
        (outside (env.link_set_up ctr.name))
    modify (locked (change_hint id (λ hint. record hint { if_index = ctr.index })))
    initial_ips env id opts if_name (sub_interface opts mac ctr)

  abbrev pub add_sub : DhcpNetworkOptions → GoString → ℕ → Option GoString → Act W (Unit {0})
  add_sub opts if_name parent addr =
      if net_mode opts == network_mode_macvlan
      then env.link_add_macvlan if_name parent addr
      else env.link_add_ipvlan if_name parent addr

  unfoldable pub create_sub :
      CreateEndpointRequest → DhcpNetworkOptions → Act (Sys W) EndpointInterface
  unfolding refuse_mac wanted_mac set_up_sub slice12
  create_sub r opts = do
    lift (refuse_mac opts r)
    parent ←
        wrapping (go "failed to get parent interface " ++ opts.bridge)
          (outside (env.link_by_name opts.bridge))
    cut ← lift (slice12 r.endpoint_id)
    mac ← lift (mac_of r.interface)
    addr ← lift (wanted_mac env mac)
    wrapping (go "failed to create " ++ (net_mode opts ++ go " interface"))
        (outside (add_sub opts (go "dh-" ++ cut) parent.index addr))
    cleaning_up env r.endpoint_id (go "dh-" ++ cut)
        (set_up_sub r.endpoint_id opts mac (go "dh-" ++ cut))

  unfoldable pub create_endpoint : CreateEndpointRequest → Act (Sys W) EndpointInterface
  create_endpoint r = do
    if has_address r.interface then fail (sentinel err_ipam) else pure tt
    opts ← wrapping (go "failed to get network options") (net_options env r.network_id)
    if net_mode opts == network_mode_bridge then create_veth env r opts else create_sub r opts
