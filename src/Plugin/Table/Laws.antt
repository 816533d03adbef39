-- ===== src/Plugin/Table/Laws.antt =====
-- What each table operation does to the plugin, whether or not its save succeeds.
use docker_network_dhcp.Base.{◌≡◌, refl, GoString, arith}
use docker_network_dhcp.Base.GoMap.{insert, delete}
use docker_network_dhcp.Plugin.State.{EndpointState, NetworkState}
use docker_network_dhcp.Plugin.Env.{Env, Sys}
use docker_network_dhcp.Plugin.Table.{
  add_entry, update_entry, remove_entry, add_state_entry, update_state_entry, remove_state_entry,
  add_network, remove_network,
}

module _ {W : Type 0} (env : Env W) where
  pub plugin-add_state_entry :
      (e : EndpointState) (s : Sys W) → (add_state_entry env e s).plugin ≡ add_entry e s.plugin
  unfolding add_state_entry
  plugin-add_state_entry e s = refl

  pub plugin-update_state_entry :
      (id : GoString) (f : EndpointState → EndpointState) (s : Sys W)
      → (update_state_entry env id f s).plugin ≡ update_entry id f s.plugin
  unfolding update_state_entry
  plugin-update_state_entry id f s = refl

  pub plugin-remove_state_entry :
      (id : GoString) (s : Sys W) → (remove_state_entry env id s).plugin ≡ remove_entry id s.plugin
  unfolding remove_state_entry
  plugin-remove_state_entry id s = ground arith

  pub networks-add_network :
      (ns : NetworkState) (s : Sys W)
      → (add_network env ns s).plugin
        ≡ record s.plugin { networks = insert ns.network_id ns s.plugin.networks }
  unfolding add_network
  networks-add_network ns s = refl

  pub networks-remove_network :
      (id : GoString) (s : Sys W)
      → (remove_network env id s).plugin
        ≡ record s.plugin { networks = delete id s.plugin.networks }
  unfolding remove_network
  networks-remove_network id s = ground arith
