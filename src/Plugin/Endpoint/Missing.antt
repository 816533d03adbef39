-- ===== src/Plugin/Endpoint/Missing.antt =====
-- CreateEndpoint of pkg/plugin/network.go for a request whose Interface is nil.
use docker_network_dhcp.Base.{
  ◌≡◌, refl, none, GoString, ◌==◌, length, arith, Bool-cases, inl, inr, ltb,
}
use docker_network_dhcp.Util.Outcome.{ok, panic}
use docker_network_dhcp.Plugin.Types.{
  DhcpNetworkOptions, CreateEndpointRequest, Link, net_mode, network_mode_bridge,
  network_mode_ipvlan,
}
use docker_network_dhcp.Plugin.Env.{Env, Sys}
use docker_network_dhcp.Plugin.Names.{veth_pair_names, slice12}
use docker_network_dhcp.Plugin.Options.{net_options}
use docker_network_dhcp.Plugin.Endpoint.{create_veth}
use docker_network_dhcp.Plugin.Endpoint.Create.{create_sub, create_endpoint, refuse_mac}

module _ {W : Type 0} (env : Env W) (id net : GoString) where
  -- The request of a daemon that lets the driver choose everything.
  abbrev pub without_interface : CreateEndpointRequest
  without_interface = record { network_id = net; endpoint_id = id; interface = none }

  veth_panics :
      (opts : DhcpNetworkOptions) (link : Link) (s : Sys W)
      → (env.link_by_name opts.bridge s.world).0 ≡ ok link
      → (create_veth env without_interface opts s).0 ≡ panic
  unfolding create_veth veth_pair_names
  veth_panics opts link s found = rw found (ground arith)

  sub_panics :
      (opts : DhcpNetworkOptions) (link : Link) (s : Sys W)
      → (env.link_by_name opts.bridge s.world).0 ≡ ok link
      → (create_sub env without_interface opts s).0 ≡ panic
  unfolding create_sub refuse_mac slice12
  sub_panics opts link s found = elim (Bool-cases (net_mode opts == network_mode_ipvlan)) [
    | inl ipvlan ↦ rw ipvlan refl
    | inr macvlan ↦
        rw (macvlan, found)
          (elim (Bool-cases (ltb (length id) 12)) [
            | inl short ↦ rw short refl
            | inr long ↦ rw long refl
          ])
  ]

  -- Where the network has options and its bridge or parent is there, CreateEndpoint without an Interface
  -- panics, whatever the mode and the length of the identifier.
  pub create_endpoint_panic :
      (opts : DhcpNetworkOptions) (link : Link) (s : Sys W)
      → (net_options env net s).0 ≡ ok opts
      → (env.link_by_name opts.bridge (net_options env net s).1.world).0 ≡ ok link
      → (create_endpoint env without_interface s).0 ≡ panic
  unfolding create_endpoint
  create_endpoint_panic opts link s given found =
      rw given (elim (Bool-cases (net_mode opts == network_mode_bridge)) [
        | inl veth ↦ rw veth (veth_panics opts link (net_options env net s).1 found)
        | inr sub ↦ rw sub (sub_panics opts link (net_options env net s).1 found)
      ])
