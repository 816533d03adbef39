-- ===== src/Plugin/Service/Managers.antt =====
-- What every manager of the table is, as a predicate that requests and goroutines keep.
use docker_network_dhcp.Base.{◌≡◌, true, some, GoString, ◌==◌, arith, inl, inr, Bool-cases}
use docker_network_dhcp.Base.GoMap.{lookup, insert, lookup-insert, lookup-delete}
use docker_network_dhcp.Plugin.Types.{DhcpManager, Plugin}
use docker_network_dhcp.Util.Outcome.{Outcome, ok}
use docker_network_dhcp.Plugin.Env.{Env, Sys}
use docker_network_dhcp.Plugin.Table.{add_entry, update_entry, remove_entry}
use docker_network_dhcp.Plugin.Table.Laws.{
  plugin-add_state_entry, plugin-update_state_entry, plugin-remove_state_entry,
  networks-add_network, networks-remove_network,
}
use docker_network_dhcp.Plugin.Leave.{join_finish}
use docker_network_dhcp.Plugin.Service.Actions.{Stable}
use docker_network_dhcp.Plugin.Service.Handlers.{join_finish_keeps}

-- Every manager of the table satisfies `Q`.
abbrev pub Within : (DhcpManager → Type 0) → Plugin → Type 0
Within Q p = (id : GoString) (m : DhcpManager) → lookup id p.persistent_dhcp ≡ some m → Q m

module _ {W : Type 0} (env : Env W) (Q : DhcpManager → Type 0) where
  pub Within-Stable : Stable env (Within Q)
  unfolding add_entry update_entry remove_entry
  Within-Stable = record {
    same = λ s n e h id m k. h id m (rw e k);
    manager_left = λ id p h j m k. h j m (ground (arith, lookup-delete id j p.persistent_dhcp));
    entry_added = λ e s h. rw (plugin-add_state_entry env e s) h;
    entry_updated = λ id f s same h. rw (plugin-update_state_entry env id f s) h;
    entry_removed = λ id s h. rw (plugin-remove_state_entry env id s) h;
    network_added = λ ns s h. rw (networks-add_network env ns s) h;
    network_removed = λ id s h. rw (networks-remove_network env id s) h;
  }

  pub insert-Within :
      (id : GoString) (m : DhcpManager) (p : Plugin)
      → Q m
      → Within Q p
      → Within Q (record p { persistent_dhcp = insert id m p.persistent_dhcp })
  insert-Within id m p q h j x k = elim (Bool-cases (id == j)) [
    | inl same ↦ let e : m ≡ x = cc (found same) in rw (← e) q
    | inr other ↦ h j x (ground (arith, lookup-insert id j m p.persistent_dhcp))
  ]
    where
      found : id == j ≡ true → some m ≡ some x
      found same = ground (arith, lookup-insert id j m p.persistent_dhcp)

  pub join_finish-Within :
      (id : GoString) (o : Outcome DhcpManager) (s : Sys W)
      → ((m : DhcpManager) → o ≡ ok m → Q m)
      → Within Q s.plugin
      → Within Q (join_finish env id o s).plugin
  join_finish-Within id o s q h =
      join_finish_keeps env (Within Q) Within-Stable id o s
        (λ m e p k. insert-Within id m p (q m e) k) h
