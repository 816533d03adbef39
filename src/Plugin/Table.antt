-- ===== src/Plugin/Table.antt =====
-- The tables of endpoints and networks: addStateEntry, updateStateEntry, removeStateEntry,
-- addNetwork and removeNetwork of pkg/plugin/plugin.go. Each changes a map under `mu`, takes a
-- snapshot there, and saves the snapshot afterwards under `saveMu`.
pub mod Laws
pub mod Race
use docker_network_dhcp.Base.{Option, none, some, GoString, Bool}
use docker_network_dhcp.Base.GoMap.{GoMap, lookup, insert, delete}
use docker_network_dhcp.Plugin.State.{EndpointState, NetworkState}
use docker_network_dhcp.Plugin.Types.{Plugin}
use docker_network_dhcp.Plugin.Env.{Env, Sys, locked, best_effort}

-- The changes of p.state, as each makes it under `mu`.
abbrev pub updated :
    GoString
    → (EndpointState → EndpointState)
    → Option EndpointState
    → GoMap EndpointState
    → GoMap EndpointState
updated id update none m = m
updated id update (some e) m = insert id (update e) m

unfoldable pub add_entry : EndpointState → Plugin → Plugin
add_entry e p = record p { state = insert e.endpoint_id e p.state }

unfoldable pub update_entry : GoString → (EndpointState → EndpointState) → Plugin → Plugin
update_entry id update p = record p { state = updated id update (lookup id p.state) p.state }

-- The endpoint's mark in leftEndpoints goes too, whether or not there was an entry.
unfoldable pub remove_entry : GoString → Plugin → Plugin
remove_entry id p = record p {
  state = delete id p.state;
  left_endpoints = delete id p.left_endpoints;
}

-- A snapshot is a copy of the map.
unfoldable pub copy_state : Plugin → GoMap EndpointState
copy_state p = p.state

unfoldable pub copy_networks : Plugin → GoMap NetworkState
copy_networks p = p.networks

-- `if !exists { return }` before the save.
abbrev pub if_existed : {V S : Type 0} → Option V → (S → S) → S → S
if_existed none f s = s
if_existed (some v) f s = f s

module _ {W : Type 0} (env : Env W) where
  save : Sys W → Sys W
  unfolding copy_state
  save s = best_effort (env.save_state (copy_state s.plugin)) s

  unfoldable pub add_state_entry : EndpointState → Sys W → Sys W
  unfolding add_entry save
  add_state_entry e s = save (locked (add_entry e) s)

  unfoldable pub update_state_entry : GoString → (EndpointState → EndpointState) → Sys W → Sys W
  unfolding update_entry save
  update_state_entry id update s = save (locked (update_entry id update) s)

  unfoldable pub remove_state_entry : GoString → Sys W → Sys W
  unfolding remove_entry save
  remove_state_entry id s = if_existed (lookup id s.plugin.state) save (locked (remove_entry id) s)

  save_nets : Sys W → Sys W
  unfolding copy_networks
  save_nets s = best_effort (env.save_networks (copy_networks s.plugin)) s

  unfoldable pub add_network : NetworkState → Sys W → Sys W
  unfolding save_nets
  add_network ns s =
      save_nets (locked (λ p. record p { networks = insert ns.network_id ns p.networks }) s)

  unfoldable pub remove_network : GoString → Sys W → Sys W
  unfolding save_nets
  remove_network id s =
      if_existed (lookup id s.plugin.networks) save_nets
        (locked (λ p. record p { networks = delete id p.networks }) s)
