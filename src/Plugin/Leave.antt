-- ===== src/Plugin/Leave.antt =====
-- Leave of pkg/plugin/network.go, the two locked parts of the goroutine that Join starts, and
-- dhcpManager.Stop of pkg/plugin/dhcp_manager.go.
pub mod Laws
use docker_network_dhcp.Base.{
  ℕ, Bool, true, false, not, Option, none, some, List, [], ◌∷◌, GoString, go, ◌==◌, if◌then◌else◌,
}
use docker_network_dhcp.Base.GoMap.{lookup, insert, delete}
use docker_network_dhcp.Util.Outcome.{Outcome, ok, err, panic, Act, ◌>>=◌, ◌>>◌, wrapping, pure}
use docker_network_dhcp.Plugin.Types.{DhcpManager, Plugin, EndpointRequest}
use docker_network_dhcp.Plugin.Env.{Env, Sys, outside, locked, best_effort}
use docker_network_dhcp.Plugin.Table.{remove_state_entry, update_state_entry}

module _ {W : Type 0} (env : Env W) where
  stop_v6 : DhcpManager → Act W (Unit {0})
  stop_v6 m =
      if m.opts.ipv6
      then wrapping (go "failed shut down DHCPv6 client") (env.client_exit m true)
      else pure tt

  -- A manager that never started has nothing to stop.
  unfoldable pub stop : DhcpManager → Act W (Unit {0})
  unfolding stop_v6
  stop m =
      if not m.started
      then pure tt
      else (wrapping (go "failed shut down DHCP client") (env.client_exit m false) >> stop_v6 m)

  -- The cancellation of a Join that is under way: its context, if the goroutine has stored it.
  abbrev pub cancel_pending : GoString → Option ℕ → Plugin → Plugin
  cancel_pending id none p = p
  cancel_pending id (some ctx) p = record p {
    cancelled = ctx ∷ p.cancelled;
    cancel_join = delete id p.cancel_join;
  }

  unfoldable pub mark_left : GoString → Plugin → Plugin
  mark_left id p =
      let p' = cancel_pending id (lookup id p.cancel_join) p in
      record p' { left_endpoints = insert id tt p'.left_endpoints }

  -- What Leave does before the deferred removal of the entry.
  abbrev pub leave_manager : GoString → Option DhcpManager → Act (Sys W) (Unit {0})
  leave_manager id (some m) s =
      outside (stop m) (locked (λ p. record p { persistent_dhcp = delete id p.persistent_dhcp }) s)
  leave_manager id none s = (ok tt, locked (mark_left id) s)

  -- `defer p.removeStateEntry(r.EndpointID)`
  abbrev pub removing_entry : {A : Type 0} → GoString → Act (Sys W) A → Act (Sys W) A
  removing_entry id m s = let (r, s') = m s in (r, remove_state_entry env id s')

  unfoldable pub leave : EndpointRequest → Act (Sys W) (Unit {0})
  unfolding stop mark_left
  leave r =
      removing_entry r.endpoint_id
        (λ s. leave_manager r.endpoint_id (lookup r.endpoint_id s.plugin.persistent_dhcp) s)

  -- The goroutine stores the CancelFunc of its context before it starts the manager.
  unfoldable pub join_begin : GoString → ℕ → Sys W → Sys W
  join_begin id ctx = locked (λ p. record p { cancel_join = insert id ctx p.cancel_join })

  -- The deferred removal of the CancelFunc.
  unfoldable pub join_end : GoString → Sys W → Sys W
  join_end id = locked (λ p. record p { cancel_join = delete id p.cancel_join })

  abbrev pub name_host : GoString → DhcpManager → Sys W → Sys W
  name_host id m s =
      if m.hostname == []
      then s
      else update_state_entry env id (λ e. record e { hostname = m.hostname }) s

  -- The manager has started: was the endpoint left in the meantime?
  abbrev pub register : GoString → DhcpManager → Option (Unit {0}) → Sys W → Sys W
  register id m (some _) s =
      best_effort (stop m)
        (locked (λ p. record p { left_endpoints = delete id p.left_endpoints }) s)
  register id m none s =
      name_host id m (locked (λ p. record p { persistent_dhcp = insert id m p.persistent_dhcp }) s)

  -- The rest of the goroutine, with what m.Start returned.
  abbrev pub after_start : GoString → Outcome DhcpManager → Sys W → Sys W
  after_start id (ok m) s = register id m (lookup id s.plugin.left_endpoints) s
  after_start id _ s = s

  unfoldable pub join_finish : GoString → Outcome DhcpManager → Sys W → Sys W
  unfolding join_end stop
  join_finish id started s = join_end id (after_start id started s)
