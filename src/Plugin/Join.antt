-- ===== src/Plugin/Join.antt =====
-- addRoutes and Join of pkg/plugin/network.go.
pub mod Routes
pub mod Laws
pub mod Goroutine
use docker_network_dhcp.Base.{
  ℕ, Bool, true, false, ◌&&◌, ◌||◌, not, Option, none, some, List, [], ◌∷◌, ◌++◌, GoString, go,
  ◌==◌, ◌==ℕ◌, if◌then◌else◌,
}
use docker_network_dhcp.Base.GoMap.{lookup}
use docker_network_dhcp.Util.Errors.{sentinel, err_no_hint}
use docker_network_dhcp.Util.Outcome.{
  Outcome, ok, err, panic, Act, ◌>>=◌, ◌>>◌, wrapping, pure, fail, lift, modify, gets,
}
use docker_network_dhcp.Plugin.Names.{veth_pair_names, slice12}
use docker_network_dhcp.Plugin.State.{EndpointState}
use docker_network_dhcp.Plugin.Types.{
  DhcpNetworkOptions, net_mode, network_mode_bridge, Addr, IpNet, Link, JoinHint, JoinRequest,
  JoinResponse, StaticRoute, InterfaceName, Plugin,
}
use docker_network_dhcp.Plugin.Env.{Env, Route, Sys, outside, locked}
use docker_network_dhcp.Plugin.Options.{net_options}
use docker_network_dhcp.Plugin.Endpoint.{drop_hint}
use docker_network_dhcp.Plugin.Table.{add_state_entry}
use docker_network_dhcp.Plugin.Network.{family_v4, family_v6}

abbrev pub rtprot_kernel : ℕ
rtprot_kernel = 2

abbrev pub family : Bool → ℕ
family v6 = if v6 then family_v6 else family_v4

abbrev pub empty_response : JoinResponse
empty_response = record {
  interface_name = record { src_name = []; dst_prefix = [] };
  gateway = [];
  gateway_ipv6 = [];
  static_routes = [];
}

abbrev pub veth_name : GoString → Outcome (GoString × GoString) → Outcome InterfaceName
veth_name bridge (ok names) = ok (record { src_name = names.1; dst_prefix = bridge })
veth_name bridge (err e) = err e
veth_name bridge panic = panic

abbrev pub sub_name : Outcome GoString → Outcome InterfaceName
sub_name (ok cut) = ok (record { src_name = go "dh-" ++ cut; dst_prefix = go "eth" })
sub_name (err e) = err e
sub_name panic = panic

-- The name of the interface on the host, and the prefix of its name in the container.
unfoldable pub interface_name : DhcpNetworkOptions → GoString → Outcome InterfaceName
interface_name opts id =
    if net_mode opts == network_mode_bridge
    then veth_name opts.bridge (veth_pair_names id)
    else sub_name (slice12 id)

-- The record that Join keeps of the endpoint; the hostname is not known yet.
unfoldable pub joined_entry : JoinRequest → DhcpNetworkOptions → JoinHint → EndpointState
joined_entry r opts hint = record {
  schema_version = 0;
  network_id = r.network_id;
  endpoint_id = r.endpoint_id;
  sandbox_key = r.sandbox_key;
  mode = net_mode opts;
  bridge = opts.bridge;
  ipv6 = opts.ipv6;
  if_index = hint.if_index;
  hostname = [];
}

module _ {W : Type 0} (env : Env W) where
  -- net.IP.String, which prints a nil address too.
  abbrev pub gw_string : Option GoString → GoString
  gw_string none = go "<nil>"
  gw_string (some ip) = env.ip_string ip

  -- A default route is taken for the gateway only if there is none yet.
  abbrev pub set_gateway : Bool → Option GoString → JoinResponse → JoinResponse
  set_gateway false gw res =
      if res.gateway == [] then record res { gateway = gw_string gw } else res
  set_gateway true gw res =
      if res.gateway_ipv6 == [] then record res { gateway_ipv6 = gw_string gw } else res

  -- `route.Dst.Contains(hint.IPv4.IP)`: a nil address in the hint panics.
  abbrev pub contains_lease : IpNet → Option Addr → Outcome Bool
  contains_lease dst none = panic
  contains_lease dst (some a) = ok (env.contains dst a.ip_net.ip)

  abbrev pub lease_of : Bool → JoinHint → Option Addr
  lease_of false hint = hint.ipv4
  lease_of true hint = hint.ipv6

  -- The on-link routes, which the kernel made, are left out.
  abbrev pub is_left_out : Bool → JoinHint → IpNet → ℕ → Outcome Bool
  is_left_out v6 hint dst protocol =
      if protocol ==ℕ rtprot_kernel then ok true else contains_lease dst (lease_of v6 hint)

  abbrev pub static_route : IpNet → Option GoString → StaticRoute
  static_route dst none = record { destination = env.net_string dst; route_type = 1; next_hop = [] }
  static_route dst (some gw) = record {
    destination = env.net_string dst;
    route_type = 0;
    next_hop = env.ip_string gw;
  }

  abbrev pub add_static :
      IpNet → Option GoString → JoinResponse → Outcome Bool → Outcome JoinResponse
  add_static dst gw res (ok true) = ok res
  add_static dst gw res (ok false) =
      ok (record res { static_routes = res.static_routes ++ (static_route dst gw ∷ []) })
  add_static dst gw res (err e) = err e
  add_static dst gw res panic = panic

  abbrev pub add_route :
      Bool
      → Bool
      → JoinHint
      → Option IpNet
      → Option GoString
      → ℕ
      → JoinResponse
      → Outcome JoinResponse
  add_route skip v6 hint none gw protocol res = ok (set_gateway v6 gw res)
  add_route skip v6 hint (some dst) gw protocol res =
      if skip then ok res else add_static dst gw res (is_left_out v6 hint dst protocol)

  abbrev pub bind :
      Outcome JoinResponse → (JoinResponse → Outcome JoinResponse) → Outcome JoinResponse
  bind (ok res) f = f res
  bind (err e) f = err e
  bind panic f = panic

  -- The loop over the routes.
  unfoldable pub route_loop :
      Bool → Bool → JoinHint → List Route → JoinResponse → Outcome JoinResponse
  route_loop skip v6 hint [] res = ok res
  route_loop skip v6 hint (t ∷ routes) res =
      bind (add_route skip v6 hint t.dst t.gw t.protocol res) (route_loop skip v6 hint routes)

  -- The fields of the log lines cut both identifiers.
  unfoldable pub add_routes :
      DhcpNetworkOptions → Bool → Link → JoinRequest → JoinHint → JoinResponse → Act W JoinResponse
  add_routes opts v6 bridge r hint res = do
    routes ← wrapping (go "failed to list routes") (env.route_list (family v6) bridge.index)
    lift (slice12 r.network_id)
    lift (slice12 r.endpoint_id)
    lift (route_loop opts.skip_routes v6 hint routes res)

  -- The hint is taken out of the map.
  abbrev pub taken_hint : GoString → Option JoinHint → Act (Sys W) JoinHint
  taken_hint id none s = (err (sentinel err_no_hint), s)
  taken_hint id (some hint) s = (ok hint, locked (drop_hint id) s)

  unfoldable pub take_hint : GoString → Act (Sys W) JoinHint
  unfolding drop_hint
  take_hint id s = taken_hint id (lookup id s.plugin.join_hints) s

  -- From the hint on.
  unfoldable pub join_with :
      JoinRequest → DhcpNetworkOptions → InterfaceName → JoinHint → Act (Sys W) JoinResponse
  join_with r opts names hint = do
    if hint.gateway == [] then pure tt else (lift (slice12 r.network_id) >> pure tt)
    bridge ← wrapping (go "failed to get bridge interface") (outside (env.link_by_name opts.bridge))
    res4 ← outside (
        add_routes opts false bridge r hint
          (record empty_response { interface_name = names; gateway = hint.gateway }))
    res6 ← (if opts.ipv6 then outside (add_routes opts true bridge r hint res4) else pure res4)
    modify (add_state_entry env (joined_entry r opts hint))
    pure res6

  -- Up to the goroutine, whose parts are join_begin and join_finish.
  unfoldable pub join : JoinRequest → Act (Sys W) JoinResponse
  join r = do
    opts ← wrapping (go "failed to get network options") (net_options env r.network_id)
    names ← lift (interface_name opts r.endpoint_id)
    hint ← take_hint r.endpoint_id
    join_with r opts names hint
