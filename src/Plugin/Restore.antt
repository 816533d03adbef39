-- ===== src/Plugin/Restore.antt =====
-- Restore, restoreFromState and findEndpointLinkFromState of pkg/plugin/plugin.go.
pub mod Endpoint
pub mod Settled
pub mod Addresses
pub mod Rejoin
pub mod Unaddressed
use docker_network_dhcp.Base.{
  ℕ, ◌==ℕ◌, Bool, true, false, Option, none, some, List, [], ◌∷◌, ◌++◌, GoString, go, ◌==◌,
  if◌then◌else◌,
}
use docker_network_dhcp.Base.GoMap.{lookup, insert, delete}
use docker_network_dhcp.Util.Errors.{GoError, sentinel, err_not_veth, other}
use docker_network_dhcp.Util.Outcome.{
  Outcome, ok, err, panic, Act, ◌>>=◌, ◌>>◌, wrapping, pure, fail, lift,
}
use docker_network_dhcp.Plugin.Names.{veth_pair_names}
use docker_network_dhcp.Plugin.State.{EndpointState}
use docker_network_dhcp.Plugin.Types.{
  Addr, DhcpManager, DhcpNetworkOptions, JoinRequest, Link, Plugin, network_mode_bridge,
}
use docker_network_dhcp.Plugin.Env.{Env, Sys, outside, locked}
use docker_network_dhcp.Plugin.Network.{family_v4, family_v6}
use docker_network_dhcp.Plugin.Options.{short_options}
use docker_network_dhcp.Plugin.Table.{remove_state_entry}
use docker_network_dhcp.Plugin.Leave.{stop}
use docker_network_dhcp.Plugin.Manager.Start.{
  Held, Sandbox, within, release, undoing, got_namespace, open_handle, new_manager, peer_destroyed,
  restore_client,
}

abbrev pub mode_of : EndpointState → GoString
mode_of e = if e.mode == [] then network_mode_bridge else e.mode

abbrev pub join_request_of : EndpointState → JoinRequest
join_request_of e = record {
  network_id = e.network_id;
  endpoint_id = e.endpoint_id;
  sandbox_key = e.sandbox_key;
}

abbrev pub no_index : EndpointState → GoError
no_index e = other (go "no interface index recorded for " ++ (mode_of e ++ go " endpoint"))

abbrev pub left_during_restore : GoError
left_during_restore = other (go "endpoint was left during restore")

abbrev pub clear_mark : GoString → Plugin → Plugin
clear_mark id p = record p { left_endpoints = delete id p.left_endpoints }

-- What else happens to the plugin around one attempt: whether the context has ended before it,
-- what other calls do before it, and what they do while it runs.
pub record Turn : Type 0 where
  pub cancelled : Bool
  pub before : Plugin → Plugin
  pub during : Plugin → Plugin

-- The first attempt, and one behind each of the three delays.
pub record Turns : Type 0 where
  pub first : Turn
  pub second : Turn
  pub third : Turn
  pub fourth : Turn

pub data Verdict : Type 0 where
  restored dropped cancelled panicked : Verdict

module _ {W : Type 0} (box : Sandbox W) where
  -- The first address that is global unicast.
  unfoldable pub first_global : List Addr → Option Addr
  first_global [] = none
  first_global (a ∷ rest) =
      let later = first_global rest in if box.is_global_unicast a then some a else later

  abbrev pub found_or : {A : Type 0} → GoError → Option A → Outcome A
  found_or e none = err e
  found_or e (some a) = ok a

  abbrev pub by_index : GoString → ℕ → GoString
  by_index text index = text ++ (go " by index " ++ (box.decimal index ++ go " in netns"))

  unfoldable pub find_endpoint_link : EndpointState → Act W (Link × ℕ)
  unfolding veth_pair_names
  find_endpoint_link e =
      if mode_of e == network_mode_bridge
      then (do
        names ← lift (veth_pair_names e.endpoint_id)
        host ←
            wrapping (go "find host veth " ++ (34 ∷ (names.0 ++ (34 ∷ []))))
              (box.link_by_name names.0)
        if host.kind == go "veth" then pure tt else fail (sentinel err_not_veth)
        index ← wrapping (go "get veth peer index") (box.veth_peer_index host)
        if index ==ℕ 0 then fail peer_destroyed else pure tt
        link ← wrapping (by_index (go "find peer link") index) (box.link_by_index index)
        pure (link, index))
      else (do
        if e.if_index ==ℕ 0 then fail (no_index e) else pure tt
        link ← wrapping (by_index (go "find link") e.if_index) (box.link_by_index e.if_index)
        pure (link, e.if_index))

  unfoldable pub current_v4 : Link → Act W Addr
  unfolding first_global
  current_v4 link = do
    addrs ← wrapping (go "list v4 addrs") (box.addr_list link family_v4)
    lift (found_or (other (go "no IPv4 address on interface")) (first_global addrs))

  -- Without IPv6, or without such an address, none.
  unfoldable pub current_v6 : Bool → Link → Act W (Option Addr)
  unfolding first_global
  current_v6 ipv6 link =
      if ipv6
      then (do
        addrs ← wrapping (go "list v6 addrs") (box.addr_list link family_v6)
        pure (first_global addrs))
      else pure none

  -- What is read in the namespace, as a manager with its link.
  unfoldable pub read_sandbox : EndpointState → Act W (DhcpManager × Link)
  unfolding find_endpoint_link current_v4 current_v6 new_manager
  read_sandbox e = do
    found ← wrapping (go "find endpoint interface") (find_endpoint_link e)
    v4 ← current_v4 found.0
    v6 ← current_v6 e.ipv6 found.0
    let m = new_manager (join_request_of e) (short_options e.bridge e.mode e.ipv6)
    pure (
      record m {
        last_ip = some v4;
        last_ipv6 = v6;
        if_index = found.1;
        ns_path = e.sandbox_key;
        hostname = e.hostname;
      },
      found.0,
    )

  -- From the namespace to the started clients.
  unfoldable pub reattach : EndpointState → Act (Held W) DhcpManager
  unfolding read_sandbox open_handle restore_client
  reattach e = do
    (λ h.
        got_namespace (
          wrapping (go "open netns " ++ e.sandbox_key) (within (box.get_from_path e.sandbox_key))
            h))
    open_handle box (go "open netlink in netns")
    read ← undoing release (within (read_sandbox e))
    wrapping (go "start clients") (restore_client box read.0 read.1)

module _ {W : Type 0} (env : Env (Held W)) (box : Sandbox W) where
  -- `_ = m.Stop()`, which also closes the handles.
  unfoldable pub discard : DhcpManager → Held W → Held W
  unfolding stop
  discard m h = if m.started then release (stop env m h).1 else h

  -- A Join that came first keeps its manager; a mark of Leave is taken away.
  abbrev pub enlist :
      GoString
      → DhcpManager
      → Option DhcpManager
      → Option (Unit {0})
      → Act (Sys (Held W)) (Unit {0})
  enlist id m (some _) left s = (ok tt, record s { world = discard m s.world })
  enlist id m none (some _) s = (
    err left_during_restore,
    record s { plugin = clear_mark id s.plugin; world = discard m s.world },
  )
  enlist id m none none s =
      (ok tt, locked (λ p. record p { persistent_dhcp = insert id m p.persistent_dhcp }) s)

  -- The second look, under `mu`, once the clients have started.
  unfoldable pub register_restored : GoString → DhcpManager → Act (Sys (Held W)) (Unit {0})
  unfolding discard
  register_restored id m s =
      enlist id m (lookup id s.plugin.persistent_dhcp) (lookup id s.plugin.left_endpoints) s

  abbrev pub unless_there :
      Option DhcpManager → Act (Sys (Held W)) (Unit {0}) → Act (Sys (Held W)) (Unit {0})
  unless_there (some _) m s = (ok tt, s)
  unless_there none m s = m s

  -- restoreFromState, with what other calls do to the plugin meanwhile.
  unfoldable pub restore_from_state :
      (Plugin → Plugin) → EndpointState → Act (Sys (Held W)) (Unit {0})
  unfolding reattach register_restored
  restore_from_state during e s =
      unless_there (lookup e.endpoint_id s.plugin.persistent_dhcp)
        (outside (reattach box e) >>= λ m t. register_restored e.endpoint_id m (locked during t)) s

  -- After the last attempt the record is removed.
  abbrev pub next_attempt :
      EndpointState
      → Outcome (Unit {0}) × Sys (Held W)
      → (Sys (Held W) → Verdict × Sys (Held W))
      → Verdict × Sys (Held W)
  next_attempt e (ok _, s) later = (restored, s)
  next_attempt e (err x, s) later = later s
  next_attempt e (panic, s) later = (panicked, s)

  unfoldable pub attempts : EndpointState → List Turn → Sys (Held W) → Verdict × Sys (Held W)
  unfolding restore_from_state
  attempts e [] s = (dropped, remove_state_entry env e.endpoint_id s)
  attempts e (t ∷ ts) s =
      if t.cancelled
      then (cancelled, s)
      else next_attempt e (restore_from_state t.during e (locked t.before s)) (attempts e ts)

  unfoldable pub restore_endpoint : EndpointState → Turns → Sys (Held W) → Verdict × Sys (Held W)
  unfolding attempts
  restore_endpoint e t = attempts e (t.first ∷ t.second ∷ t.third ∷ t.fourth ∷ [])

  -- The loop over the snapshot: it stops where the context ends.
  abbrev pub go_on :
      Verdict × Sys (Held W) → (Sys (Held W) → Verdict × Sys (Held W)) → Verdict × Sys (Held W)
  go_on (restored, s) later = later s
  go_on (dropped, s) later = later s
  go_on (cancelled, s) later = (cancelled, s)
  go_on (panicked, s) later = (panicked, s)

  unfoldable pub restore_all :
      (EndpointState → Turns) → List EndpointState → Sys (Held W) → Verdict × Sys (Held W)
  unfolding restore_endpoint
  restore_all turns [] s = (restored, s)
  restore_all turns (e ∷ es) s = go_on (restore_endpoint e (turns e) s) (restore_all turns es)
