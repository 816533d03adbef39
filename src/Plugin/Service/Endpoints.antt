-- ===== src/Plugin/Service/Endpoints.antt =====
-- CreateNetwork, DeleteNetwork, netOptions and CreateEndpoint keep what every change of the tables keeps.
use docker_network_dhcp.Base.{
  refl, Bool, true, false, Option, none, some, GoString, go, ◌++◌, ◌==◌, if◌then◌else◌,
}
use docker_network_dhcp.Base.Int.{ℤ}
use docker_network_dhcp.Base.GoMap.{GoMap, lookup}
use docker_network_dhcp.Util.Errors.{sentinel, err_ipam}
use docker_network_dhcp.Util.Outcome.{
  Outcome, ok, err, panic, Act, wrapping, pure, fail, lift, wrap,
}
use docker_network_dhcp.Plugin.State.{NetworkState}
use docker_network_dhcp.Plugin.Names.{slice12, veth_pair_names}
use docker_network_dhcp.Plugin.Types.{
  DhcpNetworkOptions, CreateNetworkRequest, CreateEndpointRequest, EndpointInterface, Link,
  net_mode, network_mode_bridge, Plugin,
}
use docker_network_dhcp.Plugin.Env.{Env, Sys, outside}
use docker_network_dhcp.Plugin.Network.{
  network_record, validate_network, create_network, delete_network,
}
use docker_network_dhcp.Plugin.Options.{back_fill, of_inspect, of_cache, net_options}
use docker_network_dhcp.Plugin.Endpoint.{
  change_hint, drop_hint, initial_ip, initial_ips, initial_timeout, cleaning_up, has_address,
  mac_of, wanted_mac, write_back_mac, set_up_veth, create_veth,
}
use docker_network_dhcp.Plugin.Endpoint.Create.{
  refuse_mac, sub_interface, add_sub, set_up_sub, create_sub, create_endpoint,
}
use docker_network_dhcp.Plugin.Service.Actions.{Stable, Preserves, step_keeps, if-Preserves}

module _ {W : Type 0} (env : Env W) (P : Plugin → Type 0) (stable : Stable env P) where
  pub create_network-Preserves : (r : CreateNetworkRequest) → Preserves P (create_network env r)
  unfolding create_network
  create_network-Preserves r = λ s h.
      step_keeps P (outside (validate_network env r)) _ s h
        λ opts t k. stable.network_added (network_record r.network_id opts) t k

  pub delete_network-Preserves : (id : GoString) → Preserves P (delete_network env id)
  unfolding delete_network
  delete_network-Preserves id s h = stable.network_removed id s h

  back_fill-Preserves :
      (id : GoString) (o : Outcome DhcpNetworkOptions) → Preserves P (back_fill env id o)
  back_fill-Preserves id (ok opts) s h = stable.network_added (network_record id opts) s h
  back_fill-Preserves id (err e) s h = h
  back_fill-Preserves id panic s h = h

  of_inspect-Preserves :
      (id : GoString) (o : Outcome (GoMap GoString)) → Preserves P (of_inspect env id o)
  of_inspect-Preserves id (ok options) s h = back_fill-Preserves id (env.decode_opts options) s h
  of_inspect-Preserves id (err e) s h = h
  of_inspect-Preserves id panic s h = h

  of_cache-Preserves : (id : GoString) (o : Option NetworkState) → Preserves P (of_cache env id o)
  of_cache-Preserves id (some ns) s h = h
  of_cache-Preserves id none s h =
      of_inspect-Preserves id (env.network_inspect id s.world).0
        (record s { world = (env.network_inspect id s.world).1 }) h

  pub net_options-Preserves : (id : GoString) → Preserves P (net_options env id)
  unfolding net_options
  net_options-Preserves id s h = of_cache-Preserves id (lookup id s.plugin.networks) s h

  initial_ip-Preserves :
      (id : GoString) (timeout : ℤ) (name : GoString) (v6 : Bool) (res : EndpointInterface)
      → Preserves P (initial_ip env id timeout name v6 res)
  unfolding initial_ip change_hint
  initial_ip-Preserves id timeout name v6 res s h =
      step_keeps P (wrapping _ (outside (env.get_ip timeout name v6))) _ s h λ info s1 h1.
        step_keeps P (lift (wrap _ (env.parse_addr info.ip))) _ s1 h1
          λ ip s2 h2. stable.same refl refl refl h2

  initial_ips-Preserves :
      (id : GoString) (opts : DhcpNetworkOptions) (name : GoString) (res : EndpointInterface)
      → Preserves P (initial_ips env id opts name res)
  unfolding initial_ips
  initial_ips-Preserves id opts name res s h =
      step_keeps P (initial_ip env id (initial_timeout opts) name false res) _ s
        (initial_ip-Preserves id (initial_timeout opts) name false res s h)
        λ res4 s1 h1.
          if-Preserves P opts.ipv6 _ _
            (initial_ip-Preserves id (initial_timeout opts) name true res4) (λ t k. k) s1 h1

  cleaning_up-Preserves :
      (id link : GoString) (m : Act (Sys W) EndpointInterface)
      → Preserves P m
      → Preserves P (cleaning_up env id link m)
  unfolding drop_hint
  cleaning_up-Preserves id link m keeps s h = of_end (m s).0 (m s).1 (keeps s h)
    where
      of_end :
          (o : Outcome EndpointInterface) (t : Sys W)
          → P t.plugin
          → P (cleaning_up env id link (λ _. (o, t)) s).1.plugin
      of_end (ok x) t k = k
      of_end (err x) t k = stable.same refl refl refl k
      of_end panic t k = k

  set_up_veth-Preserves :
      (id : GoString) (opts : DhcpNetworkOptions) (mac host ctr : GoString) (bridge : Link)
      → Preserves P (set_up_veth env id opts mac host ctr bridge)
  unfolding set_up_veth
  set_up_veth-Preserves id opts mac host ctr bridge s h =
      step_keeps P (wrapping _ (outside (env.link_set_up host))) _ s h λ _ s1 h1.
        step_keeps P (wrapping _ (outside (env.link_by_name ctr))) _ s1 h1 λ link s2 h2.
          step_keeps P (wrapping _ (outside (env.link_set_up link.name))) _ s2 h2 λ _ s3 h3.
            step_keeps P (outside (write_back_mac env mac link)) _ s3 h3 λ res s4 h4.
              step_keeps P (wrapping _ (outside (env.link_set_master host bridge))) _ s4 h4
                λ _ s5 h5. initial_ips-Preserves id opts ctr res s5 h5

  create_veth-Preserves :
      (r : CreateEndpointRequest) (opts : DhcpNetworkOptions) → Preserves P (create_veth env r opts)
  unfolding create_veth
  create_veth-Preserves r opts s h =
      step_keeps P (wrapping _ (outside (env.link_by_name opts.bridge))) _ s h λ bridge s1 h1.
        step_keeps P (lift (veth_pair_names r.endpoint_id)) _ s1 h1 λ names s2 h2.
          step_keeps P (lift (mac_of r.interface)) _ s2 h2 λ mac s3 h3.
            step_keeps P (lift (wanted_mac env mac)) _ s3 h3 λ peer s4 h4.
              step_keeps P (wrapping _ (outside (env.link_add_veth names.0 names.1 peer))) _ s4 h4
                λ _ s5 h5.
                  cleaning_up-Preserves r.endpoint_id names.0
                    (set_up_veth env r.endpoint_id opts mac names.0 names.1 bridge)
                    (set_up_veth-Preserves r.endpoint_id opts mac names.0 names.1 bridge) s5 h5

  set_up_sub-Preserves :
      (id : GoString) (opts : DhcpNetworkOptions) (mac name : GoString)
      → Preserves P (set_up_sub env id opts mac name)
  unfolding set_up_sub change_hint
  set_up_sub-Preserves id opts mac name s h =
      step_keeps P (wrapping _ (outside (env.link_by_name name))) _ s h λ ctr s1 h1.
        step_keeps P (wrapping _ (outside (env.link_set_up ctr.name))) _ s1 h1 λ _ s2 h2.
          initial_ips-Preserves id opts name (sub_interface env opts mac ctr) _
            (stable.same refl refl refl h2)

  create_sub-Preserves :
      (r : CreateEndpointRequest) (opts : DhcpNetworkOptions) → Preserves P (create_sub env r opts)
  unfolding create_sub
  create_sub-Preserves r opts s h = step_keeps P (lift (refuse_mac opts r)) _ s h λ _ s1 h1.
      step_keeps P (wrapping _ (outside (env.link_by_name opts.bridge))) _ s1 h1 λ parent s2 h2.
        step_keeps P (lift (slice12 r.endpoint_id)) _ s2 h2 λ cut s3 h3.
          step_keeps P (lift (mac_of r.interface)) _ s3 h3 λ mac s4 h4.
            step_keeps P (lift (wanted_mac env mac)) _ s4 h4 λ addr s5 h5.
              step_keeps P
                (wrapping _ (outside (add_sub env opts (go "dh-" ++ cut) parent.index addr))) _ s5
                h5
                λ _ s6 h6.
                  cleaning_up-Preserves r.endpoint_id (go "dh-" ++ cut)
                    (set_up_sub env r.endpoint_id opts mac (go "dh-" ++ cut))
                    (set_up_sub-Preserves r.endpoint_id opts mac (go "dh-" ++ cut)) s6 h6

  pub create_endpoint-Preserves : (r : CreateEndpointRequest) → Preserves P (create_endpoint env r)
  unfolding create_endpoint
  create_endpoint-Preserves r s h =
      step_keeps P (if has_address r.interface then fail (sentinel err_ipam) else pure tt) _ s
        (if-Preserves P (has_address r.interface) (fail (sentinel err_ipam)) (pure tt) (λ t k. k)
          (λ t k. k) s h)
        λ _ s1 h1.
          step_keeps P (wrapping _ (net_options env r.network_id)) _ s1
            (net_options-Preserves r.network_id s1 h1)
            λ opts s2 h2.
              if-Preserves P (net_mode opts == network_mode_bridge) (create_veth env r opts)
                (create_sub env r opts) (create_veth-Preserves r opts) (create_sub-Preserves r opts)
                s2 h2
