-- ===== src/Plugin/Service/Handlers.antt =====
-- The handlers of an endpoint that is there, Join and the goroutine of Join keep
-- what every change of the tables keeps.
use docker_network_dhcp.Base.{
  ℕ, ◌≡◌, refl, true, false, Option, none, some, [], GoString, ◌==◌, if◌then◌else◌, Bool-cases, inl,
  inr,
}
use docker_network_dhcp.Base.GoMap.{lookup, insert}
use docker_network_dhcp.Util.Outcome.{Outcome, ok, err, panic, Act, ◌>>◌, wrapping, pure, lift}
use docker_network_dhcp.Plugin.Names.{slice12, veth_pair_names}
use docker_network_dhcp.Plugin.Types.{
  DhcpManager, Plugin, DhcpNetworkOptions, EndpointRequest, JoinRequest, JoinHint, InterfaceName,
  network_mode_bridge,
}
use docker_network_dhcp.Plugin.Env.{Env, Sys, outside}
use docker_network_dhcp.Plugin.Options.{net_options}
use docker_network_dhcp.Plugin.Endpoint.{drop_hint}
use docker_network_dhcp.Plugin.Endpoint.Delete.{
  delete_interface, delete_endpoint, lives_in_container, endpoint_oper_info, delete_veth,
  mode_and_bridge,
}
use docker_network_dhcp.Plugin.Leave.{
  removing_entry, leave_manager, mark_left, cancel_pending, leave, register, after_start, join_end,
  join_finish,
}
use docker_network_dhcp.Plugin.Join.{
  interface_name, joined_entry, add_routes, empty_response, taken_hint, take_hint, join_with, join,
}
use docker_network_dhcp.Plugin.Service.Endpoints.{net_options-Preserves}
use docker_network_dhcp.Plugin.Service.Actions.{Stable, Preserves, step_keeps, if-Preserves}

module _ {W : Type 0} (env : Env W) (P : Plugin → Type 0) (stable : Stable env P) where
  removing_entry-Preserves :
      {A : Type 0} (id : GoString) (m : Act (Sys W) A)
      → Preserves P m
      → Preserves P (removing_entry env id m)
  removing_entry-Preserves id m keeps s h = stable.entry_removed id (m s).1 (keeps s h)

  delete_interface-Preserves : (r : EndpointRequest) → Preserves P (delete_interface env r)
  unfolding delete_interface
  delete_interface-Preserves r s h =
      elim (Bool-cases (lives_in_container (lookup r.endpoint_id s.plugin.state))) [
        | inl inside ↦ rw inside h
        | inr host ↦ rw host (
            step_keeps P (lift (veth_pair_names r.endpoint_id))
              (λ names. outside (delete_veth env names)) s h
              λ names t k. stable.same refl refl refl k)
      ]

  pub delete_endpoint-Preserves : (r : EndpointRequest) → Preserves P (delete_endpoint env r)
  unfolding delete_endpoint
  delete_endpoint-Preserves r =
      removing_entry-Preserves r.endpoint_id (delete_interface env r) (delete_interface-Preserves r)

  leave_manager-Preserves :
      (id : GoString) (o : Option DhcpManager) → Preserves P (leave_manager env id o)
  unfolding mark_left
  leave_manager-Preserves id (some m) s h = stable.manager_left id s.plugin h
  leave_manager-Preserves id none s h =
      stable.same refl refl refl (marked (lookup id s.plugin.cancel_join))
    where
      marked : (c : Option ℕ) → P (cancel_pending env id c s.plugin)
      marked (some ctx) = stable.same refl refl refl h
      marked none = h

  pub leave-Preserves : (r : EndpointRequest) → Preserves P (leave env r)
  unfolding leave
  leave-Preserves r =
      removing_entry-Preserves r.endpoint_id
        (λ s. leave_manager env r.endpoint_id (lookup r.endpoint_id s.plugin.persistent_dhcp) s)
        (λ s.
          leave_manager-Preserves r.endpoint_id (lookup r.endpoint_id s.plugin.persistent_dhcp) s)

  pub endpoint_oper_info-Preserves : (r : EndpointRequest) → Preserves P (endpoint_oper_info env r)
  unfolding endpoint_oper_info
  endpoint_oper_info-Preserves r s h = elim (Bool-cases (found.0 == [])) [
    | inl unknown ↦ rw unknown (
        step_keeps P (lift (slice12 r.network_id)) _ s h
          λ _ s1 h1. step_keeps P (lift (slice12 r.endpoint_id)) _ s1 h1 λ _ s2 h2. h2)
    | inr known ↦ rw known (elim (Bool-cases (found.0 == network_mode_bridge)) [
      | inl bridge ↦ rw bridge (
          step_keeps P (lift (veth_pair_names r.endpoint_id)) _ s h λ names s1 h1.
            step_keeps P (wrapping _ (outside (env.link_by_name names.0))) _ s1 h1 λ host s2 h2. h2)
      | inr sub ↦ rw sub h
    ])
  ]
    where
      found : GoString × GoString
      found = mode_and_bridge (lookup r.endpoint_id s.plugin.state)

  taken_hint-Preserves : (id : GoString) (o : Option JoinHint) → Preserves P (taken_hint env id o)
  unfolding drop_hint
  taken_hint-Preserves id none s h = h
  taken_hint-Preserves id (some hint) s h = stable.same refl refl refl h

  join_with-Preserves :
      (r : JoinRequest) (opts : DhcpNetworkOptions) (names : InterfaceName) (hint : JoinHint)
      → Preserves P (join_with env r opts names hint)
  unfolding join_with
  join_with-Preserves r opts names hint s h =
      step_keeps P
        (if hint.gateway == [] then pure tt else (lift (slice12 r.network_id) >> pure tt)) _ s
        (if-Preserves P (hint.gateway == []) (pure tt) (lift (slice12 r.network_id) >> pure tt)
          (λ t k. k)
          (λ t k. step_keeps P (lift (slice12 r.network_id)) (λ _. pure tt) t k λ _ t1 k1. k1) s h)
        λ _ s1 h1.
          step_keeps P (wrapping _ (outside (env.link_by_name opts.bridge))) _ s1 h1 λ bridge s2 h2.
            step_keeps P
              (outside (
                add_routes env opts false bridge r hint
                  (record empty_response { interface_name = names; gateway = hint.gateway })))
              _ s2 h2
              λ res4 s3 h3.
                step_keeps P
                  (if opts.ipv6
                    then outside (add_routes env opts true bridge r hint res4)
                    else pure res4)
                  _ s3
                  (if-Preserves P opts.ipv6 (outside (add_routes env opts true bridge r hint res4))
                    (pure res4) (λ t k. stable.same refl refl refl k) (λ t k. k) s3 h3)
                  λ res6 s4 h4. stable.entry_added (joined_entry r opts hint) s4 h4

  pub join-Preserves : (r : JoinRequest) → Preserves P (join env r)
  unfolding join take_hint
  join-Preserves r s h =
      step_keeps P (wrapping _ (net_options env r.network_id)) _ s
        (net_options-Preserves env P stable r.network_id s h)
        λ opts s1 h1. step_keeps P (lift (interface_name opts r.endpoint_id)) _ s1 h1 λ names s2 h2.
          step_keeps P (take_hint env r.endpoint_id) _ s2
            (taken_hint-Preserves r.endpoint_id (lookup r.endpoint_id s2.plugin.join_hints) s2 h2)
            λ hint s3 h3. join_with-Preserves r opts names hint s3 h3

  -- To register a manager keeps it.
  abbrev pub Admits : GoString → DhcpManager → Type 0
  Admits id m =
      (p : Plugin) → P p → P (record p { persistent_dhcp = insert id m p.persistent_dhcp })

  -- The parts of the goroutine of Join.
  register_keeps :
      (id : GoString) (m : DhcpManager) (o : Option (Unit {0})) (s : Sys W)
      → Admits id m
      → P s.plugin
      → P (register env id m o s).plugin
  register_keeps id m (some x) s admits h = stable.same refl refl refl h
  register_keeps id m none s admits h = elim (Bool-cases (m.hostname == [])) [
    | inl unnamed ↦ rw unnamed (admits s.plugin h)
    | inr named ↦ rw named (stable.entry_updated id _ _ (λ e. refl) (admits s.plugin h))
  ]

  after_start_keeps :
      (id : GoString) (o : Outcome DhcpManager) (s : Sys W)
      → ((m : DhcpManager) → o ≡ ok m → Admits id m)
      → P s.plugin
      → P (after_start env id o s).plugin
  after_start_keeps id (ok m) s admits h =
      register_keeps id m (lookup id s.plugin.left_endpoints) s (admits m refl) h
  after_start_keeps id (err e) s admits h = h
  after_start_keeps id panic s admits h = h

  pub join_finish_keeps :
      (id : GoString) (o : Outcome DhcpManager) (s : Sys W)
      → ((m : DhcpManager) → o ≡ ok m → Admits id m)
      → P s.plugin
      → P (join_finish env id o s).plugin
  unfolding join_finish join_end
  join_finish_keeps id o s admits h = stable.same refl refl refl (after_start_keeps id o s admits h)
