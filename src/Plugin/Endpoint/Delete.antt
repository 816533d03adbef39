-- ===== src/Plugin/Endpoint/Delete.antt =====
-- DeleteEndpoint, EndpointOperInfo and endpointModeAndBridge of pkg/plugin/network.go.
use docker_network_dhcp.Base.{
  Bool, false, ◌&&◌, not, Option, none, some, [], ◌++◌, GoString, go, ◌==◌, if◌then◌else◌, ◌≡◌, ◌≢◌,
  ◌≤◌, length, take, arith, ◌∙◌, ap,
}
use docker_network_dhcp.Base.GoMap.{lookup}
use docker_network_dhcp.Util.Errors.{GoError}
use docker_network_dhcp.Util.Outcome.{
  Outcome, ok, err, panic, Act, ◌>>=◌, ◌>>◌, wrapping, pure, lift,
}
use docker_network_dhcp.Plugin.Names.{veth_pair_names, slice12}
use docker_network_dhcp.Plugin.State.{EndpointState}
use docker_network_dhcp.Plugin.Types.{network_mode_bridge, EndpointRequest, Link}
use docker_network_dhcp.Plugin.Env.{Env, Sys, outside}
use docker_network_dhcp.Plugin.Leave.{removing_entry}
use docker_network_dhcp.Plugin.Table.{remove_entry}
use docker_network_dhcp.Plugin.Table.Laws.{plugin-remove_state_entry}

pub record OperInfo : Type 0 where
  pub bridge : GoString
  pub host_veth : GoString
  pub host_veth_mac : GoString

-- The mode and the bridge of an endpoint: empty texts if there is no record of it.
abbrev pub mode_and_bridge : Option EndpointState → GoString × GoString
mode_and_bridge none = ([], [])
mode_and_bridge (some e) = (if e.mode == [] then network_mode_bridge else e.mode, e.bridge)

-- An interface in the container's namespace goes with that namespace.
abbrev pub lives_in_container : Option EndpointState → Bool
lives_in_container none = false
lives_in_container (some e) = not (e.mode == []) && not (e.mode == network_mode_bridge)

module _ {W : Type 0} (env : Env W) where
  -- The host's end of the pair, if it is there; an error is only logged.
  abbrev pub delete_found : Outcome Link → Act W (Unit {0})
  delete_found (ok link) w = (ok tt, (env.link_del link.name w).1)
  delete_found (err e) w = (ok tt, w)
  delete_found panic w = (panic, w)

  abbrev pub delete_veth : GoString × GoString → Act W (Unit {0})
  delete_veth names w = let (r, w') = env.link_by_name names.0 w in delete_found r w'

  -- The handler without its deferred call.
  unfoldable pub delete_interface : EndpointRequest → Act (Sys W) (Unit {0})
  delete_interface r s =
      if lives_in_container (lookup r.endpoint_id s.plugin.state)
      then (ok tt, s)
      else (lift (veth_pair_names r.endpoint_id) >>= λ names. outside (delete_veth names)) s

  unfoldable pub delete_endpoint : EndpointRequest → Act (Sys W) (Unit {0})
  unfolding delete_interface
  delete_endpoint r = removing_entry env r.endpoint_id (delete_interface r)

  -- No information where there is no record; the log line cuts both identifiers.
  unfoldable pub endpoint_oper_info : EndpointRequest → Act (Sys W) (Option OperInfo)
  unfolding veth_pair_names slice12
  endpoint_oper_info r s =
      let found = mode_and_bridge (lookup r.endpoint_id s.plugin.state) in
      (if found.0 == []
          then (do lift (slice12 r.network_id); lift (slice12 r.endpoint_id); pure none)
          else (if found.0 == network_mode_bridge
              then (do
                names ← lift (veth_pair_names r.endpoint_id)
                host ←
                    wrapping (go "failed to find host side of veth pair")
                      (outside (env.link_by_name names.0))
                pure (
                    some (record {
                      bridge = found.1;
                      host_veth = names.0;
                      host_veth_mac = env.mac_string host.hardware_addr;
                    })))
              else pure (some (record { bridge = found.1; host_veth = []; host_veth_mac = [] }))))
        s

  delete_interface-ne-err :
      (r : EndpointRequest) (s : Sys W) (e : GoError) → (delete_interface r s).0 ≢ err e
  unfolding delete_interface veth_pair_names
  delete_interface-ne-err r s e = ground arith

  plugin-delete_interface :
      (r : EndpointRequest) (s : Sys W) → (delete_interface r s).1.plugin ≡ s.plugin
  unfolding delete_interface veth_pair_names
  plugin-delete_interface r s = ground arith

  delete_interface-ok :
      (r : EndpointRequest) (s : Sys W)
      → 12 ≤ length r.endpoint_id
      → ((name : GoString) → (env.link_by_name name s.world).0 ≢ panic)
      → (delete_interface r s).0 ≡ ok tt
  unfolding delete_interface veth_pair_names
  delete_interface-ok r s long safe = ground (arith, safe (go "dh-" ++ take 12 r.endpoint_id))

  -- DeleteEndpoint never returns an error, so that dockerd does not repeat it; and it takes the
  -- record of the endpoint and its mark in leftEndpoints away, and changes nothing else of the
  -- plugin.
  delete_endpoint_lem :
      (r : EndpointRequest) (s : Sys W) (e : GoError)
      → ((delete_endpoint r s).0 ≢ err e)
        × ((delete_endpoint r s).1.plugin ≡ remove_entry r.endpoint_id s.plugin)
  unfolding delete_endpoint
  delete_endpoint_lem r s e = (
    delete_interface-ne-err r s e,
    plugin-remove_state_entry env r.endpoint_id _
        ∙ ap (remove_entry r.endpoint_id) (plugin-delete_interface r s),
  )

  -- On an identifier of at least twelve bytes, and where netlink does not panic, DeleteEndpoint
  -- succeeds, whatever netlink answers.
  delete_endpoint_succeeds :
      (r : EndpointRequest) (s : Sys W)
      → 12 ≤ length r.endpoint_id
      → ((name : GoString) → (env.link_by_name name s.world).0 ≢ panic)
      → (delete_endpoint r s).0 ≡ ok tt
  unfolding delete_endpoint
  delete_endpoint_succeeds r s long safe = delete_interface-ok r s long safe
