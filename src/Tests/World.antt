-- ===== src/Tests/World.antt =====
-- A small world: one bridge, one parent interface, one lease, and Docker with one network.
use docker_network_dhcp.Base.{
  ℕ, ◌+◌, true, false, none, some, List, [], ◌∷◌, GoString, go, ◌==◌, ◌==ℕ◌,
}
use docker_network_dhcp.Base.Int.{pos}
use docker_network_dhcp.Util.Errors.{other}
use docker_network_dhcp.Util.Outcome.{Outcome, ok, err}
use docker_network_dhcp.Plugin.State.{EndpointState, NetworkState}
use docker_network_dhcp.Plugin.Types.{
  DhcpNetworkOptions, Addr, Link, Plugin, DhcpManager, JoinRequest, EndpointRequest, JoinHint,
}
use docker_network_dhcp.Plugin.Env.{Env, Route, DockerNetwork, Sys}

-- The world counts the calls that reach it.
abbrev pub World : Type 0
World = ℕ

abbrev pub bridge_options : DhcpNetworkOptions
bridge_options = record {
  bridge = go "my-bridge";
  mode = [];
  ipv6 = false;
  lease_timeout = pos 7;
  ignore_conflicts = true;
  skip_routes = true;
}

abbrev pub the_bridge : Link
the_bridge = record { name = go "my-bridge"; index = 3; hardware_addr = 2 ∷ []; kind = go "bridge" }

abbrev pub lease_addr : Addr
lease_addr = record { ip_net = record { ip = 10 ∷ 5 ∷ []; mask = 255 ∷ 0 ∷ [] } }

abbrev pub lan_route : Route
lan_route = record {
  dst = some (record { ip = 192 ∷ 168 ∷ []; mask = 255 ∷ 0 ∷ [] });
  gw = some (10 ∷ 1 ∷ []);
  protocol = 3;
}

abbrev pub default_route : Route
default_route = record { dst = none; gw = some (10 ∷ 1 ∷ []); protocol = 3 }

abbrev pub kernel_route : Route
kernel_route = record {
  dst = some (record { ip = 10 ∷ 0 ∷ []; mask = 255 ∷ 0 ∷ [] });
  gw = none;
  protocol = 2;
}

abbrev pub routes : List Route
routes = kernel_route ∷ default_route ∷ lan_route ∷ []

abbrev pub other_network : DockerNetwork
other_network = record {
  id = go "other";
  driver = go "bridge";
  options = [];
  ipam_driver = go "default";
  subnets = (172 ∷ 17 ∷ []) ∷ [];
}

-- A call that is known to succeed; `tick` counts it.
abbrev pub known : {W A : Type 0} → (W → W) → A → W → Outcome A × W
known tick a w = (ok a, tick w)

-- An empty text does not parse, and an empty name is not found.
abbrev pub nonempty : {A : Type 0} → GoString → A → Outcome A
nonempty [] a = err (other (go "empty"))
nonempty (x ∷ xs) a = ok a

abbrev first_byte : GoString → ℕ
first_byte [] = 0
first_byte (x ∷ xs) = x

unfoldable pub sim_of : {W : Type 0} → (W → W) → Env W
sim_of tick = record {
  parse_cidr = λ s. nonempty s (record { ip = s; mask = 255 ∷ 0 ∷ [] });
  parse_mac = λ s. nonempty s s;
  parse_addr = λ s. nonempty s lease_addr;
  contains = λ n a. first_byte n.ip ==ℕ first_byte a;
  addr_equal = λ a b. a.ip_net.ip == b.ip_net.ip;
  ip_string = λ a. a;
  net_string = λ n. n.ip;
  mac_string = λ a. a;
  link_by_name = λ name w. (nonempty name the_bridge, tick w);
  link_add_veth = λ a b mac. known tick tt;
  link_add_macvlan = λ name parent mac. known tick tt;
  link_add_ipvlan = λ name parent mac. known tick tt;
  link_set_up = λ name. known tick tt;
  link_set_hardware_addr = λ l mac. known tick tt;
  link_set_master = λ name l. known tick tt;
  link_del = λ name. known tick tt;
  addr_list = λ l family. known tick (lease_addr ∷ []);
  route_list = λ family index. known tick routes;
  network_list = known tick (other_network ∷ []);
  network_inspect = λ id w. (nonempty id [], tick w);
  decode_opts = λ m. ok bridge_options;
  get_ip = λ timeout name v6.
      known tick (record { ip = go "10.5.0.2/8"; gateway = go "10.1.0.1"; domain = [] });
  range_state = λ es. es;
  client_exit = λ m v6. known tick tt;
  save_state = λ m. known tick tt;
  save_networks = λ m. known tick tt;
}

unfoldable pub sim : Env World
unfolding sim_of
sim = sim_of (λ w. w + 1)

abbrev pub net_id : GoString
net_id = 7 ∷ 7 ∷ 7 ∷ 7 ∷ 7 ∷ 7 ∷ 7 ∷ 7 ∷ 7 ∷ 7 ∷ 7 ∷ 7 ∷ []

abbrev pub endpoint_id : GoString
endpoint_id = 1 ∷ 2 ∷ 3 ∷ 4 ∷ 5 ∷ 6 ∷ 7 ∷ 8 ∷ 9 ∷ 10 ∷ 11 ∷ 12 ∷ 13 ∷ []

abbrev pub empty_plugin : Plugin
empty_plugin = record {
  join_hints = [];
  persistent_dhcp = [];
  state = [];
  cancel_join = [];
  left_endpoints = [];
  networks = [];
  cancelled = [];
}

abbrev pub the_network : NetworkState
the_network = record {
  network_id = net_id;
  bridge = go "my-bridge";
  mode = go "bridge";
  ipv6 = false;
}

abbrev pub the_hint : JoinHint
the_hint = record { ipv4 = some lease_addr; ipv6 = none; gateway = go "10.1.0.1"; if_index = 0 }

abbrev pub the_endpoint : EndpointState
the_endpoint = record {
  schema_version = 1;
  network_id = net_id;
  endpoint_id = endpoint_id;
  sandbox_key = [];
  mode = go "bridge";
  bridge = go "my-bridge";
  ipv6 = false;
  if_index = 0;
  hostname = [];
}

abbrev pub the_join : JoinRequest
the_join = record { network_id = net_id; endpoint_id = endpoint_id; sandbox_key = 5 ∷ [] }

abbrev pub the_request : EndpointRequest
the_request = record { network_id = net_id; endpoint_id = endpoint_id }

abbrev pub the_manager : DhcpManager
the_manager = record {
  join_req = the_join;
  opts = bridge_options;
  last_ip = some lease_addr;
  last_ipv6 = none;
  if_index = 3;
  ns_path = [];
  hostname = go "host";
  primed = true;
  primed_v6 = false;
  deconfigured = false;
  deconfigured_v6 = false;
  started = true;
  stop_closed = false;
}

-- The plugin knows its network and has a hint, or a record, or a pending Join.
abbrev pub hinted : Sys World
hinted = record {
  plugin = record empty_plugin {
    networks = (net_id, the_network) ∷ [];
    join_hints = (endpoint_id, the_hint) ∷ [];
  };
  world = 0;
}

abbrev pub joined : Sys World
joined = record {
  plugin = record empty_plugin {
    networks = (net_id, the_network) ∷ [];
    state = (endpoint_id, the_endpoint) ∷ [];
    cancel_join = (endpoint_id, 4) ∷ [];
  };
  world = 0;
}

abbrev pub fresh : Sys World
fresh = record { plugin = empty_plugin; world = 0 }
