-- ===== src/Plugin/Options.antt =====
-- netOptions of pkg/plugin/network.go: where the options of a network come from.
pub mod Laws
use docker_network_dhcp.Base.{
  Bool, true, false, Option, none, some, List, [], ◌∷◌, GoString, go, ◌==◌, if◌then◌else◌,
}
use docker_network_dhcp.Base.Int.{pos}
use docker_network_dhcp.Base.GoMap.{GoMap, lookup, values}
use docker_network_dhcp.Util.Errors.{GoError, wrapped}
use docker_network_dhcp.Util.Outcome.{Outcome, ok, err, panic, Act, wrap}
use docker_network_dhcp.Plugin.State.{EndpointState, NetworkState}
use docker_network_dhcp.Plugin.Types.{DhcpNetworkOptions, net_mode}
use docker_network_dhcp.Plugin.Env.{Env, Sys}
use docker_network_dhcp.Plugin.Table.{add_network}
use docker_network_dhcp.Plugin.Network.{network_record}

-- Options with no more than a bridge, a mode and IPv6; all else is the zero value.
unfoldable pub short_options : GoString → GoString → Bool → DhcpNetworkOptions
short_options bridge mode ipv6 = record {
  bridge = bridge;
  mode = mode;
  ipv6 = ipv6;
  lease_timeout = pos 0;
  ignore_conflicts = false;
  skip_routes = false;
}

-- The first endpoint of the network, in the order of iteration.
unfoldable pub find_endpoint : GoString → List EndpointState → Option EndpointState
find_endpoint id [] = none
find_endpoint id (e ∷ es) = if e.network_id == id then some e else find_endpoint id es

abbrev pub of_endpoint : GoError → Option EndpointState → Outcome DhcpNetworkOptions
of_endpoint api_err (some e) = ok (short_options e.bridge e.mode e.ipv6)
of_endpoint api_err none = err (wrapped (go "failed to get network info from Docker") api_err)

module _ {W : Type 0} (env : Env W) where
  abbrev pub back_fill : GoString → Outcome DhcpNetworkOptions → Act (Sys W) DhcpNetworkOptions
  back_fill id (ok opts) s = (ok opts, add_network env (network_record id opts) s)
  back_fill id (err e) s = (err (wrapped (go "failed to parse options") e), s)
  back_fill id panic s = (panic, s)

  abbrev pub of_inspect : GoString → Outcome (GoMap GoString) → Act (Sys W) DhcpNetworkOptions
  of_inspect id (ok options) s = back_fill id (env.decode_opts options) s
  of_inspect id (err api_err) s =
      (of_endpoint api_err (find_endpoint id (env.range_state (values s.plugin.state))), s)
  of_inspect id panic s = (panic, s)

  abbrev pub of_cache : GoString → Option NetworkState → Act (Sys W) DhcpNetworkOptions
  of_cache id (some ns) s = (ok (short_options ns.bridge ns.mode ns.ipv6), s)
  of_cache id none s =
      let (r, w) = env.network_inspect id s.world in of_inspect id r (record s { world = w })

  -- The cache of networks first, then the Docker API, then a persisted endpoint.
  unfoldable pub net_options : GoString → Act (Sys W) DhcpNetworkOptions
  unfolding short_options find_endpoint
  net_options id s = of_cache id (lookup id s.plugin.networks) s
