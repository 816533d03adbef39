-- ===== src/Plugin/Env.antt =====
-- What the plugin calls and does not implement: netlink, the Docker API, mapstructure, the
-- functions of package net, and the two saves. `W` is the state of the world outside the plugin.
use docker_network_dhcp.Base.{ℕ, Bool, Option, List, GoString}
use docker_network_dhcp.Base.GoMap.{GoMap}
use docker_network_dhcp.Base.Int.{ℤ}
use docker_network_dhcp.Util.Outcome.{Outcome, Act}
use docker_network_dhcp.Plugin.State.{EndpointState, NetworkState}
use docker_network_dhcp.Plugin.Types.{DhcpNetworkOptions, Addr, IpNet, Link, Plugin, DhcpManager}

-- netlink.Route; no destination is the default route.
pub record Route : Type 0 where
  pub dst : Option IpNet
  pub gw : Option GoString
  pub protocol : ℕ

-- A network as the Docker API lists it, with the subnets of its IPAM configuration as texts.
pub record DockerNetwork : Type 0 where
  pub id : GoString
  pub driver : GoString
  pub options : GoMap GoString
  pub ipam_driver : GoString
  pub subnets : List GoString

-- udhcpc.Info
pub record Info : Type 0 where
  pub ip : GoString
  pub gateway : GoString
  pub domain : GoString

pub record Env (W : Type 0) : Type 0 where
  -- package net and netlink.ParseAddr
  pub parse_cidr : GoString → Outcome IpNet
  pub parse_mac : GoString → Outcome GoString
  pub parse_addr : GoString → Outcome Addr
  pub contains : IpNet → GoString → Bool
  pub addr_equal : Addr → Addr → Bool
  pub ip_string : GoString → GoString
  pub net_string : IpNet → GoString
  pub mac_string : GoString → GoString
  -- netlink, in the host's namespace
  pub link_by_name : GoString → Act W Link
  pub link_add_veth : GoString → GoString → Option GoString → Act W (Unit {0})
  pub link_add_macvlan : GoString → ℕ → Option GoString → Act W (Unit {0})
  pub link_add_ipvlan : GoString → ℕ → Option GoString → Act W (Unit {0})
  pub link_set_up : GoString → Act W (Unit {0})
  pub link_set_hardware_addr : Link → GoString → Act W (Unit {0})
  pub link_set_master : GoString → Link → Act W (Unit {0})
  pub link_del : GoString → Act W (Unit {0})
  pub addr_list : Link → ℕ → Act W (List Addr)
  -- RouteListFiltered with the family and the index of the link
  pub route_list : ℕ → ℕ → Act W (List Route)
  -- the Docker API
  pub network_list : Act W (List DockerNetwork)
  pub network_inspect : GoString → Act W (GoMap GoString)
  -- mapstructure, for decodeOpts
  pub decode_opts : GoMap GoString → Outcome DhcpNetworkOptions
  -- udhcpc.GetIP under a timeout, in nanoseconds
  pub get_ip : ℤ → GoString → Bool → Act W Info
  -- the order in which Go ranges over the values of p.state
  pub range_state : List EndpointState → List EndpointState
  -- what a stopped manager's clients report on errChan
  pub client_exit : DhcpManager → Bool → Act W (Unit {0})
  -- saveState and saveNetworks
  pub save_state : GoMap EndpointState → Act W (Unit {0})
  pub save_networks : GoMap NetworkState → Act W (Unit {0})

-- The plugin and the world around it.
pub record Sys (W : Type 0) : Type 0 where
  pub plugin : Plugin
  pub world : W

module _ {W : Type 0} where
  -- A call out of the plugin.
  abbrev pub outside : {A : Type 0} → Act W A → Act (Sys W) A
  outside m s = let (r, w) = m s.world in (r, record s { world = w })

  -- A critical section of `mu`.
  abbrev pub locked : (Plugin → Plugin) → Sys W → Sys W
  locked f s = record s { plugin = f s.plugin }

  -- A call whose error is only logged.
  abbrev pub best_effort : Act W (Unit {0}) → Sys W → Sys W
  best_effort m s = record s { world = (m s.world).1 }
