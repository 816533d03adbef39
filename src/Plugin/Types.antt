-- ===== src/Plugin/Types.antt =====
-- The data of pkg/plugin: options and modes (plugin.go), requests and responses (endpoints.go),
-- the hints, the manager's fields (dhcp_manager.go) and the fields of Plugin.
use docker_network_dhcp.Base.{ℕ, Bool, Option, List, [], GoString, go, ◌==◌, if◌then◌else◌}
use docker_network_dhcp.Base.Int.{ℤ}
use docker_network_dhcp.Base.GoMap.{GoMap}
use docker_network_dhcp.Plugin.State.{EndpointState, NetworkState}

abbrev pub network_mode_bridge : GoString
network_mode_bridge = go "bridge"

abbrev pub network_mode_macvlan : GoString
network_mode_macvlan = go "macvlan"

abbrev pub network_mode_ipvlan : GoString
network_mode_ipvlan = go "ipvlan"

pub record DhcpNetworkOptions : Type 0 where
  pub bridge : GoString
  pub mode : GoString
  pub ipv6 : Bool
  pub lease_timeout : ℤ
  pub ignore_conflicts : Bool
  pub skip_routes : Bool

unfoldable pub net_mode : DhcpNetworkOptions → GoString
net_mode opts = if opts.mode == [] then network_mode_bridge else opts.mode

-- net.IPNet; an address and a mask are byte strings.
pub record IpNet : Type 0 where
  pub ip : GoString
  pub mask : GoString

-- netlink.Addr, which embeds a net.IPNet.
pub record Addr : Type 0 where
  pub ip_net : IpNet

-- What the code reads of a netlink.Link: Attrs().Name, Index and HardwareAddr, and Type().
pub record Link : Type 0 where
  pub name : GoString
  pub index : ℕ
  pub hardware_addr : GoString
  pub kind : GoString

pub record JoinHint : Type 0 where
  pub ipv4 : Option Addr
  pub ipv6 : Option Addr
  pub gateway : GoString
  pub if_index : ℕ

pub record JoinRequest : Type 0 where
  pub network_id : GoString
  pub endpoint_id : GoString
  pub sandbox_key : GoString

-- dhcpManager, without its handles and channels: whether it has started and been told to stop.
pub record DhcpManager : Type 0 where
  pub join_req : JoinRequest
  pub opts : DhcpNetworkOptions
  pub last_ip : Option Addr
  pub last_ipv6 : Option Addr
  pub if_index : ℕ
  pub ns_path : GoString
  pub hostname : GoString
  pub primed : Bool
  pub primed_v6 : Bool
  pub deconfigured : Bool
  pub deconfigured_v6 : Bool
  pub started : Bool
  pub stop_closed : Bool

-- The maps of Plugin that the mutex `mu` guards. A CancelFunc is the identity of its context.
pub record Plugin : Type 0 where
  pub join_hints : GoMap JoinHint
  pub persistent_dhcp : GoMap DhcpManager
  pub state : GoMap EndpointState
  pub cancel_join : GoMap ℕ
  pub left_endpoints : GoMap (Unit {0})
  pub networks : GoMap NetworkState
  -- the contexts whose CancelFunc has been called
  pub cancelled : List ℕ

pub record IpamData : Type 0 where
  pub address_space : GoString
  pub pool : GoString

pub record EndpointInterface : Type 0 where
  pub address : GoString
  pub address_ipv6 : GoString
  pub mac_address : GoString

pub record CreateEndpointRequest : Type 0 where
  pub network_id : GoString
  pub endpoint_id : GoString
  pub interface : Option EndpointInterface

-- DeleteEndpointRequest, LeaveRequest and InfoRequest.
pub record EndpointRequest : Type 0 where
  pub network_id : GoString
  pub endpoint_id : GoString

pub record InterfaceName : Type 0 where
  pub src_name : GoString
  pub dst_prefix : GoString

pub record StaticRoute : Type 0 where
  pub destination : GoString
  pub route_type : ℕ
  pub next_hop : GoString

pub record JoinResponse : Type 0 where
  pub interface_name : InterfaceName
  pub gateway : GoString
  pub gateway_ipv6 : GoString
  pub static_routes : List StaticRoute

-- The generic options are the value at OptionsKeyGeneric; a request without them has none.
pub record CreateNetworkRequest : Type 0 where
  pub network_id : GoString
  pub options : GoMap GoString
  pub ipv4_data : List IpamData
