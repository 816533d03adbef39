-- ===== src/Plugin/Network.antt =====
-- CreateNetwork and DeleteNetwork of pkg/plugin/network.go.
pub mod Conflicts
pub mod Laws
use docker_network_dhcp.Base.{
  ℕ, Bool, true, false, ◌&&◌, ◌||◌, not, Option, List, [], ◌∷◌, ◌++◌, GoString, go, ◌==◌,
  if◌then◌else◌,
}
use docker_network_dhcp.Util.Errors.{
  sentinel, wrapped, err_invalid_mode, err_bridge_required, err_ipam, err_not_bridge,
  err_bridge_used,
}
use docker_network_dhcp.Util.Outcome.{
  Outcome, ok, err, panic, Act, ◌>>=◌, ◌>>◌, wrap, wrapping, pure, fail, lift, modify,
}
use docker_network_dhcp.Plugin.Driver.{is_dhcp_plugin}
use docker_network_dhcp.Plugin.State.{NetworkState}
use docker_network_dhcp.Plugin.Types.{
  DhcpNetworkOptions, net_mode, network_mode_bridge, network_mode_macvlan, network_mode_ipvlan,
  Addr, Link, IpamData, CreateNetworkRequest, IpNet, EndpointRequest,
}
use docker_network_dhcp.Plugin.Env.{Env, DockerNetwork, Sys, outside}
use docker_network_dhcp.Plugin.Table.{add_network, remove_network}

abbrev pub family_v4 : ℕ
family_v4 = 2

abbrev pub family_v6 : ℕ
family_v6 = 10

unfoldable pub is_valid_mode : GoString → Bool
is_valid_mode mode =
    mode == network_mode_bridge || mode == network_mode_macvlan || mode == network_mode_ipvlan

-- The loop over r.IPv4Data.
unfoldable pub check_ipam : List IpamData → Outcome (Unit {0})
check_ipam [] = ok tt
check_ipam (d ∷ ds) =
    let rest = check_ipam ds in
    if not (d.address_space == go "null") || not (d.pool == go "0.0.0.0/0")
    then err (sentinel err_ipam)
    else rest

-- net.CIDRMask(0, 32) and net.CIDRMask(0, 128)
unfoldable pub is_zero_mask : GoString → Bool
is_zero_mask mask =
    mask == (0 ∷ 0 ∷ 0 ∷ 0 ∷ [])
    || mask == (0 ∷ 0 ∷ 0 ∷ 0 ∷ 0 ∷ 0 ∷ 0 ∷ 0 ∷ 0 ∷ 0 ∷ 0 ∷ 0 ∷ 0 ∷ 0 ∷ 0 ∷ 0 ∷ [])

-- What CreateNetwork and netOptions remember of a network.
unfoldable pub network_record : GoString → DhcpNetworkOptions → NetworkState
network_record id opts = record {
  network_id = id;
  bridge = opts.bridge;
  mode = net_mode opts;
  ipv6 = opts.ipv6;
}

abbrev pub and_then : Outcome (Unit {0}) → Outcome (Unit {0}) → Outcome (Unit {0})
and_then (ok _) o = o
and_then (err e) o = err e
and_then panic o = panic

module _ {W : Type 0} (env : Env W) where
  -- The innermost loop, over the addresses of the bridge.
  unfoldable pub check_addrs : IpNet → List Addr → Outcome (Unit {0})
  check_addrs n [] = ok tt
  check_addrs n (a ∷ addrs) =
      let rest = check_addrs n addrs in
      if env.contains a.ip_net n.ip || env.contains n a.ip_net.ip
      then err (sentinel err_bridge_used)
      else rest

  abbrev pub check_parsed : GoString → GoString → List Addr → Outcome IpNet → Outcome (Unit {0})
  check_parsed id subnet addrs (err e) =
      err (wrapped (go "failed to parse subnet " ++ (subnet ++ (go " on Docker network " ++ id))) e)
  check_parsed id subnet addrs panic = panic
  check_parsed id subnet addrs (ok n) = if is_zero_mask n.mask then ok tt else check_addrs n addrs

  -- The loop over n.IPAM.Config.
  unfoldable pub check_subnets : GoString → List Addr → List GoString → Outcome (Unit {0})
  unfolding check_addrs is_zero_mask
  check_subnets id addrs [] = ok tt
  check_subnets id addrs (c ∷ cs) =
      let rest = check_subnets id addrs cs in
      and_then (check_parsed id c addrs (env.parse_cidr c)) rest

  -- Another network of this plugin, by its options; options that do not decode are only logged.
  abbrev pub same_bridge : GoString → Outcome DhcpNetworkOptions → Outcome (Unit {0})
  same_bridge bridge (err e) = ok tt
  same_bridge bridge panic = panic
  same_bridge bridge (ok other) =
      if other.bridge == bridge then err (sentinel err_bridge_used) else ok tt

  unfoldable pub check_network : GoString → List Addr → DockerNetwork → Outcome (Unit {0})
  unfolding check_subnets
  check_network bridge addrs n =
      and_then
        (if is_dhcp_plugin n.driver then same_bridge bridge (env.decode_opts n.options) else ok tt)
        (if n.ipam_driver == go "null" then ok tt else check_subnets n.id addrs n.subnets)

  -- The loop over the networks that Docker lists.
  unfoldable pub check_networks : GoString → List Addr → List DockerNetwork → Outcome (Unit {0})
  unfolding check_network
  check_networks bridge addrs [] = ok tt
  check_networks bridge addrs (n ∷ ns) =
      let rest = check_networks bridge addrs ns in and_then (check_network bridge addrs n) rest

  unfoldable pub check_conflicts : DhcpNetworkOptions → Link → Act W (Unit {0})
  check_conflicts opts link = do
    v4 ←
        wrapping (go "failed to retrieve IPv4 addresses for " ++ opts.bridge)
          (env.addr_list link family_v4)
    v6 ←
        wrapping (go "failed to retrieve IPv6 addresses for " ++ opts.bridge)
          (env.addr_list link family_v6)
    nets ← wrapping (go "failed to retrieve list of networks from Docker") env.network_list
    lift (check_networks opts.bridge (v4 ++ v6) nets)

  unfoldable pub check_bridge : DhcpNetworkOptions → Link → Act W (Unit {0})
  unfolding check_conflicts
  check_bridge opts link =
      if not (link.kind == go "bridge")
      then fail (sentinel err_not_bridge)
      else if opts.ignore_conflicts
      then pure tt
      else check_conflicts opts link

  -- The tests, up to the record of the network.
  unfoldable pub validate_network : CreateNetworkRequest → Act W DhcpNetworkOptions
  validate_network r = do
    opts ← lift (wrap (go "failed to decode network options") (env.decode_opts r.options))
    if is_valid_mode (net_mode opts) then pure tt else fail (sentinel err_invalid_mode)
    if opts.bridge == [] then fail (sentinel err_bridge_required) else pure tt
    lift (check_ipam r.ipv4_data)
    link ← wrapping (go "failed to lookup interface " ++ opts.bridge) (env.link_by_name opts.bridge)
    if net_mode opts == network_mode_bridge then check_bridge opts link else pure tt
    pure opts

  unfoldable pub create_network : CreateNetworkRequest → Act (Sys W) (Unit {0})
  create_network r = do
    opts ← outside (validate_network r)
    modify (add_network env (network_record r.network_id opts))

  unfoldable pub delete_network : GoString → Act (Sys W) (Unit {0})
  delete_network id = modify (remove_network env id)
