-- ===== src/Plugin/Service/Sections.antt =====
-- The critical sections of mu: what any number of requests and goroutines do to the plugin, in
-- whatever order their sections come.
use docker_network_dhcp.Base.{◌≡◌, GoString}
use docker_network_dhcp.Base.GoMap.{insert, delete}
use docker_network_dhcp.Plugin.State.{EndpointState, NetworkState}
use docker_network_dhcp.Plugin.Types.{DhcpManager, Plugin}
use docker_network_dhcp.Plugin.Env.{Env}
use docker_network_dhcp.Plugin.Table.{add_entry, update_entry, remove_entry}
use docker_network_dhcp.Plugin.Table.Laws.{
  plugin-add_state_entry, plugin-update_state_entry, plugin-remove_state_entry,
  networks-add_network, networks-remove_network,
}
use docker_network_dhcp.Plugin.Service.Actions.{Stable}

-- One section, by what it does to the tables and the managers; with the marks, hints and CancelFuncs
-- it may do anything.
pub data Section (p : Plugin) : Plugin → Type 0 where
  touches :
      {q : Plugin}
      → p.state ≡ q.state
      → p.networks ≡ q.networks
      → p.persistent_dhcp ≡ q.persistent_dhcp
      → Section p q
  registers :
      (id : GoString) (m : DhcpManager)
      → Section p (record p { persistent_dhcp = insert id m p.persistent_dhcp })
  unregisters :
      (id : GoString) → Section p (record p { persistent_dhcp = delete id p.persistent_dhcp })
  adds : (e : EndpointState) → Section p (add_entry e p)
  updates :
      (id : GoString) (f : EndpointState → EndpointState)
      → ((e : EndpointState) → (f e).endpoint_id ≡ e.endpoint_id)
      → Section p (update_entry id f p)
  removes : (id : GoString) → Section p (remove_entry id p)
  adds_network :
      (ns : NetworkState) → Section p (record p { networks = insert ns.network_id ns p.networks })
  removes_network : (id : GoString) → Section p (record p { networks = delete id p.networks })

pub data Sections (p : Plugin) : Plugin → Type 0 where
  none_yet : Sections p p
  then_one : {q r : Plugin} → Sections p q → Section q r → Sections p r

-- Every request is a sequence of sections.
pub Sections-Stable : {W : Type 0} (env : Env W) (p : Plugin) → Stable env (Sections p)
Sections-Stable env p = record {
  same = λ s n m h. then_one h (touches s n m);
  manager_left = λ id q h. then_one h (unregisters id);
  entry_added = λ e s h. rw (plugin-add_state_entry env e s) (then_one h (adds e));
  entry_updated =
      λ id f s same h. rw (plugin-update_state_entry env id f s) (then_one h (updates id f same));
  entry_removed = λ id s h. rw (plugin-remove_state_entry env id s) (then_one h (removes id));
  network_added = λ ns s h. rw (networks-add_network env ns s) (then_one h (adds_network ns));
  network_removed =
      λ id s h. rw (networks-remove_network env id s) (then_one h (removes_network id));
}
