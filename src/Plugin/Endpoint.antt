-- ===== src/Plugin/Endpoint.antt =====
-- CreateEndpoint, EndpointOperInfo and DeleteEndpoint of pkg/plugin/network.go.
pub mod Delete
pub mod Create
pub mod Hints
pub mod Missing
use docker_network_dhcp.Base.{
  ℕ, Bool, true, false, ◌&&◌, ◌||◌, not, Option, none, some, List, [], ◌∷◌, ◌++◌, GoString, go,
  ◌==◌, if◌then◌else◌,
}
use docker_network_dhcp.Base.Int.{ℤ, pos, is_zero}
use docker_network_dhcp.Base.GoMap.{lookup, insert, delete}
use docker_network_dhcp.Util.Errors.{GoError, sentinel, wrapped, err_ipam, err_mac_address}
use docker_network_dhcp.Util.Outcome.{
  Outcome, ok, err, panic, Act, ◌>>=◌, ◌>>◌, wrap, wrapping, pure, fail, lift, gets,
}
use docker_network_dhcp.Plugin.Names.{veth_pair_names, slice12}
use docker_network_dhcp.Plugin.Types.{
  DhcpNetworkOptions, net_mode, network_mode_bridge, network_mode_macvlan, network_mode_ipvlan,
  Addr, Link, JoinHint, Plugin, EndpointInterface, CreateEndpointRequest, EndpointRequest,
}
use docker_network_dhcp.Plugin.Env.{Env, Info, Sys, outside, locked, best_effort}
use docker_network_dhcp.Plugin.Options.{net_options}
use docker_network_dhcp.Plugin.Leave.{removing_entry}

-- The zero value of joinHint, which a missing key of the map gives.
abbrev pub empty_hint : JoinHint
empty_hint = record { ipv4 = none; ipv6 = none; gateway = []; if_index = 0 }

abbrev pub hint_or_empty : Option JoinHint → JoinHint
hint_or_empty none = empty_hint
hint_or_empty (some h) = h

-- `hint := p.joinHints[id]; …; p.joinHints[id] = hint`
unfoldable pub change_hint : GoString → (JoinHint → JoinHint) → Plugin → Plugin
change_hint id f p = record p {
  join_hints = insert id (f (hint_or_empty (lookup id p.join_hints))) p.join_hints;
}

unfoldable pub drop_hint : GoString → Plugin → Plugin
drop_hint id p = record p { join_hints = delete id p.join_hints }

abbrev pub empty_interface : EndpointInterface
empty_interface = record { address = []; address_ipv6 = []; mac_address = [] }

abbrev pub default_lease_timeout : ℤ
default_lease_timeout = pos 10_000_000_000

abbrev pub initial_timeout : DhcpNetworkOptions → ℤ
initial_timeout opts =
    if is_zero opts.lease_timeout then default_lease_timeout else opts.lease_timeout

-- `r.Interface.MacAddress`: a nil Interface panics.
abbrev pub mac_of : Option EndpointInterface → Outcome GoString
mac_of none = panic
mac_of (some i) = ok i.mac_address

-- A static address is refused.
abbrev pub has_address : Option EndpointInterface → Bool
has_address none = false
has_address (some i) = not (i.address == []) || not (i.address_ipv6 == [])

module _ {W : Type 0} (env : Env W) where
  abbrev pub lease_address : Bool → GoString → EndpointInterface → EndpointInterface
  lease_address true ip res = record res { address_ipv6 = ip }
  lease_address false ip res = record res { address = ip }

  abbrev pub lease_hint : Bool → Addr → GoString → JoinHint → JoinHint
  lease_hint true ip gateway hint = record hint { ipv6 = some ip }
  lease_hint false ip gateway hint = record hint { ipv4 = some ip; gateway = gateway }

  abbrev pub v6_str : Bool → GoString
  v6_str v6 = if v6 then go "v6" else []

  -- The closure initialIP: one lease, entered in the response and in the hint.
  unfoldable pub initial_ip :
      GoString → ℤ → GoString → Bool → EndpointInterface → Act (Sys W) EndpointInterface
  unfolding change_hint
  initial_ip id timeout if_name v6 res = do
    info ←
        wrapping
          (go "failed to get initial IP" ++ (v6_str v6 ++ (go " address via DHCP" ++ v6_str v6)))
          (outside (env.get_ip timeout if_name v6))
    ip ← lift (
        wrap (go "failed to parse initial IP" ++ (v6_str v6 ++ go " address"))
          (env.parse_addr info.ip))
    λ s. (
      ok (lease_address v6 info.ip res),
      locked (change_hint id (lease_hint v6 ip info.gateway)) s,
    )

  -- IPv4, and IPv6 if the network has it.
  unfoldable pub initial_ips :
      GoString → DhcpNetworkOptions → GoString → EndpointInterface → Act (Sys W) EndpointInterface
  unfolding initial_ip
  initial_ips id opts if_name res = do
    res4 ← initial_ip id (initial_timeout opts) if_name false res
    if opts.ipv6 then initial_ip id (initial_timeout opts) if_name true res4 else pure res4

  -- `if err := func() error {…}(); err != nil { netlink.LinkDel(link); delete(p.joinHints, id) }`
  abbrev pub cleaning_up :
      GoString → GoString → Act (Sys W) EndpointInterface → Act (Sys W) EndpointInterface
  cleaning_up id link m s =
      let (r, s') = m s in
      elim r [
        | ok res ↦ (ok res, s')
        | err e ↦ (err e, locked (drop_hint id) (best_effort (env.link_del link) s'))
        | panic ↦ (panic, s')
      ]

  -- net.ParseMAC, if an address is given; whatever its error, it is ErrMACAddress.
  abbrev pub parsed_mac : Outcome GoString → Outcome (Option GoString)
  parsed_mac (ok a) = ok (some a)
  parsed_mac (err e) = err (sentinel err_mac_address)
  parsed_mac panic = panic

  unfoldable pub wanted_mac : GoString → Outcome (Option GoString)
  wanted_mac mac = if mac == [] then ok none else parsed_mac (env.parse_mac mac)

  -- Only an address that libnetwork did not give is written back.
  unfoldable pub write_back_mac : GoString → Link → Act W EndpointInterface
  write_back_mac mac ctr =
      if mac == []
      then (wrapping (go "failed to set container side of veth pair's MAC address")
            (env.link_set_hardware_addr ctr ctr.hardware_addr)
          >> pure (record empty_interface { mac_address = env.mac_string ctr.hardware_addr }))
      else pure empty_interface

  -- What follows the creation of the veth pair.
  unfoldable pub set_up_veth :
      GoString
      → DhcpNetworkOptions
      → GoString
      → GoString
      → GoString
      → Link
      → Act (Sys W) EndpointInterface
  unfolding write_back_mac initial_ips
  set_up_veth id opts mac host ctr_name bridge = do
    wrapping (go "failed to set host side link of veth pair up") (outside (env.link_set_up host))
    ctr ←
        wrapping (go "failed to find container side of veth pair")
          (outside (env.link_by_name ctr_name))
    wrapping (go "failed to set container side link of veth pair up")
        (outside (env.link_set_up ctr.name))
    res ← outside (write_back_mac mac ctr)
    wrapping (go "failed to attach host side link of veth peer to bridge")
        (outside (env.link_set_master host bridge))
    initial_ips id opts ctr_name res

  unfoldable pub create_veth :
      CreateEndpointRequest → DhcpNetworkOptions → Act (Sys W) EndpointInterface
  unfolding wanted_mac set_up_veth drop_hint veth_pair_names
  create_veth r opts = do
    bridge ← wrapping (go "failed to get bridge interface") (outside (env.link_by_name opts.bridge))
    names ← lift (veth_pair_names r.endpoint_id)
    mac ← lift (mac_of r.interface)
    peer ← lift (wanted_mac mac)
    wrapping (go "failed to create veth pair") (outside (env.link_add_veth names.0 names.1 peer))
    cleaning_up r.endpoint_id names.0 (set_up_veth r.endpoint_id opts mac names.0 names.1 bridge)
