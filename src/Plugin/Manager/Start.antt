-- ===== src/Plugin/Manager/Start.antt =====
-- Start, fetchHostname, startClients and RestoreClient of pkg/plugin/dhcp_manager.go. The handles
-- of a manager, on the container's namespace and for netlink in it, are counted while they are
-- open.
pub mod Handles
pub mod Result
use docker_network_dhcp.Base.{
  ℕ, ◌+◌, ◌-◌, ◌==ℕ◌, Bool, true, false, ◌&&◌, not, Option, none, some, List, [], ◌∷◌, ◌++◌,
  GoString, go, ◌==◌, if◌then◌else◌,
}
use docker_network_dhcp.Util.Errors.{GoError, sentinel, err_not_veth, other}
use docker_network_dhcp.Util.Outcome.{
  Outcome, ok, err, panic, Act, ◌>>=◌, ◌>>◌, wrapping, pure, fail, lift,
}
use docker_network_dhcp.Util.Await.{Context, await_condition, await_value, await_container_inspect}
use docker_network_dhcp.Plugin.Names.{veth_pair_names, slice12}
use docker_network_dhcp.Plugin.Driver.{strip_prefix}
use docker_network_dhcp.Plugin.Types.{
  Addr, DhcpManager, DhcpNetworkOptions, JoinRequest, Link, net_mode, network_mode_bridge,
}

-- The world, and how many handles of each kind the plugin holds open.
pub record Held (W : Type 0) : Type 0 where
  pub world : W
  pub namespaces : ℕ
  pub netlinks : ℕ

-- netns, netlink on the host and in a namespace, udhcpc and the Docker API.
pub record Sandbox (W : Type 0) : Type 0 where
  pub get_from_path : GoString → Act W (Unit {0})
  pub new_handle_at : Act W (Unit {0})
  pub link_by_name : GoString → Act W Link
  pub veth_peer_index : Link → Act W ℕ
  pub link_by_index : ℕ → Act W Link
  pub addr_list : Link → ℕ → Act W (List Addr)
  pub is_global_unicast : Addr → Bool
  -- NewDHCPClient and Start, at the link's name, with the manager's hostname and namespace
  pub new_client : Bool → DhcpManager → Link → Act W (Unit {0})
  pub start_client : Bool → DhcpManager → Link → Act W (Unit {0})
  -- the containers of a network with their endpoints, as Go ranges over them, and a hostname
  pub containers : GoString → Act W (List (GoString × GoString))
  pub container_hostname : GoString → Act W GoString
  -- fmt's %d
  pub decimal : ℕ → GoString

abbrev pub v6_part : Bool → GoString
v6_part v6 = if v6 then go "v6" else []

-- newDHCPManager
unfoldable pub new_manager : JoinRequest → DhcpNetworkOptions → DhcpManager
new_manager r opts = record {
  join_req = r;
  opts = opts;
  last_ip = none;
  last_ipv6 = none;
  if_index = 0;
  ns_path = [];
  hostname = [];
  primed = false;
  primed_v6 = false;
  deconfigured = false;
  deconfigured_v6 = false;
  started = false;
  stop_closed = false;
}

-- The text of the error is in UTF-8, with a dash.
abbrev pub peer_destroyed : GoError
peer_destroyed =
    other (go "veth peer index is 0 " ++ (226 ∷ 128 ∷ 148 ∷ go " peer may be destroyed"))

module _ {W : Type 0} where
  abbrev pub within : {A : Type 0} → Act W A → Act (Held W) A
  within m h = let (r, w) = m h.world in (r, record h { world = w })

  abbrev pub close_namespace : Held W → Held W
  close_namespace h = record h { namespaces = h.namespaces - 1 }

  -- `m.netHandle.Delete(); m.nsHandle.Close()`
  abbrev pub release : Held W → Held W
  release h = close_namespace (record h { netlinks = h.netlinks - 1 })

  -- `if err != nil { …; return err }` around a step
  abbrev pub or_else : {A : Type 0} → (Held W → Held W) → Outcome A × Held W → Outcome A × Held W
  or_else undo (ok a, h) = (ok a, h)
  or_else undo (err e, h) = (err e, undo h)
  or_else undo (panic, h) = (panic, h)

  abbrev pub undoing : {A : Type 0} → (Held W → Held W) → Act (Held W) A → Act (Held W) A
  undoing undo m h = or_else undo (m h)

  abbrev pub got_namespace : Outcome (Unit {0}) × Held W → Outcome (Unit {0}) × Held W
  got_namespace (ok _, h) = (ok tt, record h { namespaces = h.namespaces + 1 })
  got_namespace (err e, h) = (err e, h)
  got_namespace (panic, h) = (panic, h)

  abbrev pub got_handle : Outcome (Unit {0}) × Held W → Outcome (Unit {0}) × Held W
  got_handle (ok _, h) = (ok tt, record h { netlinks = h.netlinks + 1 })
  got_handle (err e, h) = (err e, h)
  got_handle (panic, h) = (panic, h)

module _ {W : Type 0} (box : Sandbox W) where
  -- netlink.NewHandleAt, after which the namespace is closed if it fails.
  unfoldable pub open_handle : GoString → Act (Held W) (Unit {0})
  open_handle text h =
      or_else close_namespace (got_handle (wrapping text (within box.new_handle_at) h))

  -- The start of setupClient: what it launches is the event loop of Manager/Steps.
  unfoldable pub setup_client : Bool → DhcpManager → Link → Act W (Unit {0})
  setup_client v6 m link = do
    wrapping (go "failed to create DHCP" ++ (v6_part v6 ++ go " client")) (box.new_client v6 m link)
    wrapping (go "failed to start DHCP" ++ (v6_part v6 ++ go " client"))
        (box.start_client v6 m link)

  -- The manager is returned with what the call has set; an error closes stopChan, which ends the
  -- loops that have been launched.
  unfoldable pub start_clients : DhcpManager → Link → Act W DhcpManager
  unfolding setup_client
  start_clients m link = do
    setup_client false m link
    if m.opts.ipv6 then setup_client true m link else pure tt
    pure (record m { started = true })

  unfoldable pub restore_client : DhcpManager → Link → Act (Held W) DhcpManager
  unfolding start_clients
  restore_client m link = undoing release (within (start_clients m link))

  -- The container of the endpoint: the first in the order of the range, or an empty text.
  unfoldable pub find_container : GoString → List (GoString × GoString) → GoString
  find_container id [] = []
  find_container id ((ctr, endpoint) ∷ rest) =
      let later = find_container id rest in if endpoint == id then ctr else later

  abbrev pub has_prefix : Option GoString → Bool
  has_prefix none = false
  has_prefix (some _) = true

  -- A container that is still a placeholder for the endpoint is not ready.
  abbrev pub ready : GoString → Option GoString
  ready ctr =
      if not (ctr == []) && not (has_prefix (strip_prefix (go "ep-") ctr)) then some ctr else none

  -- An error of NetworkInspect means "not yet".
  abbrev pub listed :
      GoString → Outcome (List (GoString × GoString)) × W → Outcome (Option GoString) × W
  listed id (ok cs, w) = (ok (ready (find_container id cs)), w)
  listed id (err e, w) = (ok none, w)
  listed id (panic, w) = (panic, w)

  abbrev pub or_empty : Outcome GoString × W → Outcome GoString × W
  or_empty (ok name, w) = (ok name, w)
  or_empty (err e, w) = (ok [], w)
  or_empty (panic, w) = (panic, w)

  -- Without the hostname an empty text; the context has five seconds.
  unfoldable pub fetch_hostname : Context W → DhcpManager → Act W GoString
  unfolding find_container
  fetch_hostname short m w = or_empty (
      (await_condition short
            (λ v. listed m.join_req.endpoint_id (box.containers m.join_req.network_id v))
          >>= λ ctr. await_container_inspect short (box.container_hostname ctr))
        w)

  -- The index of the container's interface, and the name that it has until Docker renames it.
  unfoldable pub locate : DhcpManager → Act W (ℕ × GoString)
  unfolding veth_pair_names slice12
  locate m =
      if net_mode m.opts == network_mode_bridge
      then (do
        names ← lift (veth_pair_names m.join_req.endpoint_id)
        host ← wrapping (go "failed to find host side of veth pair") (box.link_by_name names.0)
        if host.kind == go "veth" then pure tt else fail (sentinel err_not_veth)
        index ←
            wrapping (go "failed to get container side of veth's index") (box.veth_peer_index host)
        if index ==ℕ 0 then fail peer_destroyed else pure tt
        pure (index, names.1))
      else (lift (slice12 m.join_req.endpoint_id) >>= λ cut. pure (m.if_index, go "dh-" ++ cut))

  -- The link, once it is in the namespace under another name.
  abbrev pub renamed : GoString → Link → Option Link
  renamed old link = if link.name == old then none else some link

  unfoldable pub await_link : Context W → ℕ → GoString → Act W Link
  await_link ctx index old = await_condition ctx (
      wrapping (go "failed to get link for container interface")
        (await_value ctx (box.link_by_index index))
      >>= λ link. pure (renamed old link))

  unfoldable pub attach : Context W → DhcpManager → Act W DhcpManager
  unfolding locate await_link start_clients
  attach ctx m = do found ← locate m; link ← await_link ctx found.0 found.1; start_clients m link

  -- Start, with the two contexts that it uses.
  unfoldable pub start : Context W → Context W → DhcpManager → Act (Held W) DhcpManager
  unfolding fetch_hostname open_handle attach
  start ctx short m0 = do
    hostname ← within (fetch_hostname short m0)
    (λ h. got_namespace (
        wrapping (go "failed to await container netns " ++ m0.join_req.sandbox_key)
          (within (await_value ctx (box.get_from_path m0.join_req.sandbox_key))) h))
    open_handle (go "failed to open netlink handle in sandbox namespace")
    undoing release
        (within (attach ctx (record m0 { ns_path = m0.join_req.sandbox_key; hostname = hostname })))
