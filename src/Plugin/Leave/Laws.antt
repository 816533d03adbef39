-- ===== src/Plugin/Leave/Laws.antt =====
-- Leave and the goroutine of Join.
use docker_network_dhcp.Base.{◌≡◌, refl, Option, none, some, GoString, arith}
use docker_network_dhcp.Base.GoMap.{lookup, lookup-delete_self, lookup-insert_self}
use docker_network_dhcp.Util.Outcome.{ok}
use docker_network_dhcp.Plugin.Types.{DhcpManager, EndpointRequest}
use docker_network_dhcp.Plugin.Env.{Env, Sys}
use docker_network_dhcp.Plugin.Table.{remove_entry, update_state_entry}
use docker_network_dhcp.Plugin.Table.Laws.{plugin-remove_state_entry}
use docker_network_dhcp.Plugin.Leave.{stop, leave, leave_manager, mark_left, join_finish, name_host}

module _ {W : Type 0} (env : Env W) where
  -- The plugin after Leave, with the state removed last.
  plugin-leave :
      (r : EndpointRequest) (s : Sys W)
      → (leave env r s).1.plugin
        ≡ remove_entry r.endpoint_id
            (leave_manager env r.endpoint_id
              (lookup r.endpoint_id s.plugin.persistent_dhcp)
              s).1.plugin
  unfolding leave
  plugin-leave r s = plugin-remove_state_entry env r.endpoint_id _

  manager_gone :
      (id : GoString) (o : Option DhcpManager) (s : Sys W)
      → lookup id s.plugin.persistent_dhcp ≡ o
      → lookup id (leave_manager env id o s).1.plugin.persistent_dhcp ≡ none
  unfolding mark_left
  manager_gone id (some m) s e = lookup-delete_self id s.plugin.persistent_dhcp
  manager_gone id none s e = ground arith

  -- Leave drops the record of its endpoint and its manager, and no mark of the endpoint in
  -- leftEndpoints outlives it: the deferred removal of the record takes the mark away again.
  pub leave_clears :
      (r : EndpointRequest) (s : Sys W)
      → (lookup r.endpoint_id (leave env r s).1.plugin.state ≡ none)
        × (lookup r.endpoint_id (leave env r s).1.plugin.persistent_dhcp ≡ none)
        × (lookup r.endpoint_id (leave env r s).1.plugin.left_endpoints ≡ none)
  unfolding remove_entry
  leave_clears r s = rw (plugin-leave r s) (
    lookup-delete_self r.endpoint_id _,
    manager_gone r.endpoint_id (lookup r.endpoint_id s.plugin.persistent_dhcp) s refl,
    lookup-delete_self r.endpoint_id _,
  )

  name_host-managers :
      (id : GoString) (m : DhcpManager) (s : Sys W)
      → (name_host env id m s).plugin.persistent_dhcp ≡ s.plugin.persistent_dhcp
  unfolding update_state_entry
  name_host-managers id m s = ground arith

  -- A goroutine that finds no mark of its endpoint registers its manager.
  pub lookup-join_finish :
      (id : GoString) (m : DhcpManager) (s : Sys W)
      → lookup id s.plugin.left_endpoints ≡ none
      → lookup id (join_finish env id (ok m) s).plugin.persistent_dhcp ≡ some m
  unfolding join_finish
  lookup-join_finish id m s unmarked =
      rw (unmarked, name_host-managers) (lookup-insert_self id m s.plugin.persistent_dhcp)

  -- A goroutine of Join that comes to its end after Leave has returned registers its manager all
  -- the same: the manager of an endpoint that has left keeps running.
  pub join_finish_after_leave :
      (r : EndpointRequest) (s : Sys W) (m : DhcpManager)
      → lookup r.endpoint_id
          (join_finish env r.endpoint_id (ok m) (leave env r s).1).plugin.persistent_dhcp
        ≡ some m
  join_finish_after_leave r s m =
      let (_, _, unmarked) = leave_clears r s in
      lookup-join_finish r.endpoint_id m (leave env r s).1 unmarked

  -- A goroutine that finds the mark of its endpoint registers nothing and takes the mark away.
  pub join_finish_of_left :
      (id : GoString) (m : DhcpManager) (s : Sys W)
      → lookup id s.plugin.left_endpoints ≡ some tt
      → (lookup id (join_finish env id (ok m) s).plugin.left_endpoints ≡ none)
        × ((join_finish env id (ok m) s).plugin.persistent_dhcp ≡ s.plugin.persistent_dhcp)
        × ((join_finish env id (ok m) s).plugin.state ≡ s.plugin.state)
        × ((join_finish env id (ok m) s).world ≡ (stop env m s.world).1)
  unfolding join_finish
  join_finish_of_left id m s e =
      rw e (lookup-delete_self id s.plugin.left_endpoints, refl, refl, refl)
