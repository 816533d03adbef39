-- ===== src/Plugin/Endpoint/Hints.antt =====
-- What CreateEndpoint leaves for Join.
use docker_network_dhcp.Base.{
  ◌≡◌, refl, ◌⊎◌, inl, inr, Bool, true, false, some, ◌++◌, GoString, go, ◌==◌, if◌then◌else◌,
  Bool-cases,
}
use docker_network_dhcp.Base.Int.{ℤ}
use docker_network_dhcp.Base.GoMap.{lookup, lookup-insert_self}
use docker_network_dhcp.Util.Outcome.{
  Outcome, ok, err, panic, Act, continue, >>=-eq-ok, wrapping, wrap, wrap-ok, lift, after_step,
}
use docker_network_dhcp.Plugin.Types.{
  DhcpNetworkOptions, Addr, JoinHint, Plugin, EndpointInterface, CreateEndpointRequest, Link,
  net_mode, network_mode_bridge,
}
use docker_network_dhcp.Plugin.Env.{Env, Info, Sys, outside}
use docker_network_dhcp.Plugin.Names.{veth_pair_names, slice12}
use docker_network_dhcp.Plugin.Options.{net_options}
use docker_network_dhcp.Plugin.Endpoint.{
  mac_of, wanted_mac, has_address, change_hint, hint_or_empty, initial_ip, initial_ips,
  write_back_mac, set_up_veth, create_veth, cleaning_up, initial_timeout, lease_hint,
}
use docker_network_dhcp.Plugin.Endpoint.Create.{
  sub_interface, refuse_mac, add_sub, set_up_sub, create_sub, create_endpoint,
}

abbrev pub hint_of : GoString → Plugin → JoinHint
hint_of id p = hint_or_empty (lookup id p.join_hints)

hint_of-change_hint :
    (id : GoString) (f : JoinHint → JoinHint) (p : Plugin)
    → hint_of id (change_hint id f p) ≡ f (hint_of id p)
unfolding change_hint
hint_of-change_hint id f p =
    rw (lookup-insert_self id (f (hint_or_empty (lookup id p.join_hints))) p.join_hints)

module _ {W : Type 0} (env : Env W) (t : ℤ) where
  -- udhcpc has returned `info` for a link, within the timeout `t`, and its address is `ip`.
  abbrev pub IsObtained : Bool → Info → Addr → Type 0
  IsObtained v6 info ip =
      (name : GoString) × (w : W) × ((env.get_ip t name v6 w).0 ≡ ok info)
      × (env.parse_addr info.ip ≡ ok ip)

  -- The hint has the address and the gateway of an IPv4 lease that was obtained, and, with IPv6, the
  -- address of an IPv6 lease that was obtained.
  pub record IsLeased (id : GoString) (v6 : Bool) (p : Plugin) : Type 0 where
    pub info : Info
    pub ip : Addr
    pub lease : IsObtained false info ip
    pub ipv4 : (hint_of id p).ipv4 ≡ some ip
    pub gateway : (hint_of id p).gateway ≡ info.gateway
    pub lease_v6 :
        (v6 ≡ false)
        ⊎ ((info6 : Info) × (ip6 : Addr) × IsObtained true info6 ip6
            × ((hint_of id p).ipv6 ≡ some ip6))

module _ {W : Type 0} (env : Env W) (id : GoString) where
  enter_v4 :
      (t : ℤ) (info : Info) (ip : Addr) (p : Plugin)
      → IsObtained env t false info ip
      → IsLeased env t id false (change_hint id (lease_hint env false ip info.gateway) p)
  enter_v4 t info ip p got = record {
    info = info;
    ip = ip;
    lease = got;
    ipv4 = rw (hint_of-change_hint id (lease_hint env false ip info.gateway) p) refl;
    gateway = rw (hint_of-change_hint id (lease_hint env false ip info.gateway) p) refl;
    lease_v6 = inl refl;
  }

  enter_v6 :
      (t : ℤ) (info : Info) (ip : Addr) (p : Plugin)
      → IsObtained env t true info ip
      → IsLeased env t id false p
      → IsLeased env t id true (change_hint id (lease_hint env true ip info.gateway) p)
  enter_v6 t info ip p got l = record {
    info = l.info;
    ip = l.ip;
    lease = l.lease;
    ipv4 = rw (hint_of-change_hint id (lease_hint env true ip info.gateway) p) l.ipv4;
    gateway = rw (hint_of-change_hint id (lease_hint env true ip info.gateway) p) l.gateway;
    lease_v6 =
        inr
          (info, ip, got, rw (hint_of-change_hint id (lease_hint env true ip info.gateway) p) refl);
  }

  initial_ip-v4 :
      (t : ℤ) (name : GoString) (res res' : EndpointInterface) (s : Sys W)
      → (initial_ip env id t name false res s).0 ≡ ok res'
      → IsLeased env t id false (initial_ip env id t name false res s).1.plugin
  unfolding initial_ip
  initial_ip-v4 t name res res' s h =
      let (info, got, k, st) = >>=-eq-ok (wrapping _ (outside (env.get_ip t name false))) _ s h in
      let (ip, parsed, _, st') = >>=-eq-ok (lift (wrap _ (env.parse_addr info.ip))) _ _ k in
      rw st
        (rw st' (enter_v4 t info ip s.plugin (name, s.world, wrap-ok _ _ got, wrap-ok _ _ parsed)))

  initial_ip-v6 :
      (t : ℤ) (name : GoString) (res res' : EndpointInterface) (s : Sys W)
      → IsLeased env t id false s.plugin
      → (initial_ip env id t name true res s).0 ≡ ok res'
      → IsLeased env t id true (initial_ip env id t name true res s).1.plugin
  unfolding initial_ip
  initial_ip-v6 t name res res' s l h =
      let (info, got, k, st) = >>=-eq-ok (wrapping _ (outside (env.get_ip t name true))) _ s h in
      let (ip, parsed, _, st') = >>=-eq-ok (lift (wrap _ (env.parse_addr info.ip))) _ _ k in
      rw st (
        rw st' (enter_v6 t info ip s.plugin (name, s.world, wrap-ok _ _ got, wrap-ok _ _ parsed) l))

  abbrev Leased : DhcpNetworkOptions → Sys W → Type 0
  Leased opts t = IsLeased env (initial_timeout opts) id opts.ipv6 t.plugin

  initial_ips-Leased :
      (opts : DhcpNetworkOptions) (name : GoString) (res res' : EndpointInterface) (s : Sys W)
      → (initial_ips env id opts name res s).0 ≡ ok res'
      → Leased opts (initial_ips env id opts name res s).1
  unfolding initial_ips
  initial_ips-Leased opts name res res' s h =
      let (res4, e, k, st) =
        >>=-eq-ok (initial_ip env id (initial_timeout opts) name false res) _ s h in
      let l = initial_ip-v4 (initial_timeout opts) name res res4 s e in
      rw st (elim (Bool-cases opts.ipv6) [
        | inl v6 ↦ rw v6 (initial_ip-v6 (initial_timeout opts) name res4 res' _ l (rw v6 at k))
        | inr v4 ↦ rw v4 l
      ])

  set_up_veth-Leased :
      (opts : DhcpNetworkOptions) (mac host ctr : GoString) (bridge : Link)
      (res : EndpointInterface) (s : Sys W)
      → (set_up_veth env id opts mac host ctr bridge s).0 ≡ ok res
      → Leased opts (set_up_veth env id opts mac host ctr bridge s).1
  unfolding set_up_veth
  set_up_veth-Leased opts mac host ctr bridge res s h =
      after_step (Leased opts) (wrapping _ (outside (env.link_set_up host))) _ s h λ _ s1 h1.
        after_step (Leased opts) (wrapping _ (outside (env.link_by_name ctr))) _ s1 h1 λ link s2 h2.
          after_step (Leased opts) (wrapping _ (outside (env.link_set_up link.name))) _ s2 h2
            λ _ s3 h3.
              after_step (Leased opts) (outside (write_back_mac env mac link)) _ s3 h3 λ res4 s4 h4.
                after_step (Leased opts) (wrapping _ (outside (env.link_set_master host bridge))) _
                  s4 h4 λ _ s5 h5. initial_ips-Leased opts ctr res4 res s5 h5

  set_up_sub-Leased :
      (opts : DhcpNetworkOptions) (mac name : GoString) (res : EndpointInterface) (s : Sys W)
      → (set_up_sub env id opts mac name s).0 ≡ ok res
      → Leased opts (set_up_sub env id opts mac name s).1
  unfolding set_up_sub
  set_up_sub-Leased opts mac name res s h =
      after_step (Leased opts) (wrapping _ (outside (env.link_by_name name))) _ s h λ ctr s1 h1.
        after_step (Leased opts) (wrapping _ (outside (env.link_set_up ctr.name))) _ s1 h1
          λ _ s2 h2. initial_ips-Leased opts name (sub_interface env opts mac ctr) res _ h2

  cleaning_up-ok :
      (opts : DhcpNetworkOptions) (link : GoString) (m : Act (Sys W) EndpointInterface)
      (res : EndpointInterface) (s : Sys W)
      → ((m s).0 ≡ ok res → Leased opts (m s).1)
      → (cleaning_up env id link m s).0 ≡ ok res
      → Leased opts (cleaning_up env id link m s).1
  cleaning_up-ok opts link m res s l h = of_end (m s).0 (m s).1 l h
    where
      of_end :
          (o : Outcome EndpointInterface) (t : Sys W)
          → (o ≡ ok res → Leased opts t)
          → (cleaning_up env id link (λ _. (o, t)) s).0 ≡ ok res
          → Leased opts (cleaning_up env id link (λ _. (o, t)) s).1
      of_end (ok x) t l h = l h
      of_end (err x) t l h = cc
      of_end panic t l h = cc

module _ {W : Type 0} (env : Env W) (r : CreateEndpointRequest) where
  abbrev Kept : DhcpNetworkOptions → Sys W → Type 0
  Kept opts t = IsLeased env (initial_timeout opts) r.endpoint_id opts.ipv6 t.plugin

  create_veth-Kept :
      (opts : DhcpNetworkOptions) (res : EndpointInterface) (s : Sys W)
      → (create_veth env r opts s).0 ≡ ok res
      → Kept opts (create_veth env r opts s).1
  unfolding create_veth
  create_veth-Kept opts res s h =
      after_step (Kept opts) (wrapping _ (outside (env.link_by_name opts.bridge))) _ s h
        λ bridge s1 h1.
          after_step (Kept opts) (lift (veth_pair_names r.endpoint_id)) _ s1 h1 λ names s2 h2.
            after_step (Kept opts) (lift (mac_of r.interface)) _ s2 h2 λ mac s3 h3.
              after_step (Kept opts) (lift (wanted_mac env mac)) _ s3 h3 λ peer s4 h4.
                after_step (Kept opts)
                  (wrapping _ (outside (env.link_add_veth names.0 names.1 peer))) _ s4 h4
                  λ _ s5 h5.
                    cleaning_up-ok env r.endpoint_id opts names.0
                      (set_up_veth env r.endpoint_id opts mac names.0 names.1 bridge) res s5
                      (set_up_veth-Leased env r.endpoint_id opts mac names.0 names.1 bridge res s5)
                      h5

  create_sub-Kept :
      (opts : DhcpNetworkOptions) (res : EndpointInterface) (s : Sys W)
      → (create_sub env r opts s).0 ≡ ok res
      → Kept opts (create_sub env r opts s).1
  unfolding create_sub
  create_sub-Kept opts res s h = after_step (Kept opts) (lift (refuse_mac opts r)) _ s h λ _ s1 h1.
      after_step (Kept opts) (wrapping _ (outside (env.link_by_name opts.bridge))) _ s1 h1
        λ parent s2 h2. after_step (Kept opts) (lift (slice12 r.endpoint_id)) _ s2 h2 λ cut s3 h3.
          after_step (Kept opts) (lift (mac_of r.interface)) _ s3 h3 λ mac s4 h4.
            after_step (Kept opts) (lift (wanted_mac env mac)) _ s4 h4 λ addr s5 h5.
              after_step (Kept opts)
                (wrapping _ (outside (add_sub env opts (go "dh-" ++ cut) parent.index addr))) _ s5
                h5
                λ _ s6 h6.
                  cleaning_up-ok env r.endpoint_id opts (go "dh-" ++ cut)
                    (set_up_sub env r.endpoint_id opts mac (go "dh-" ++ cut)) res s6
                    (set_up_sub-Leased env r.endpoint_id opts mac (go "dh-" ++ cut) res s6) h6

  abbrev chosen : DhcpNetworkOptions → Act (Sys W) EndpointInterface
  chosen opts =
      if net_mode opts == network_mode_bridge then create_veth env r opts else create_sub env r opts

  chosen-Kept :
      (opts : DhcpNetworkOptions) (res : EndpointInterface) (s : Sys W)
      → (chosen opts s).0 ≡ ok res
      → Kept opts (chosen opts s).1
  chosen-Kept opts res s h = elim (Bool-cases (net_mode opts == network_mode_bridge)) [
    | inl veth ↦ rw veth (create_veth-Kept opts res s (rw veth at h))
    | inr sub ↦ rw sub (create_sub-Kept opts res s (rw sub at h))
  ]

  with_options :
      (txt : GoString) (o : Outcome DhcpNetworkOptions) (res : EndpointInterface) (t : Sys W)
      → (continue (wrap txt o) chosen t).0 ≡ ok res
      → (opts : DhcpNetworkOptions) × (o ≡ ok opts) × Kept opts (continue (wrap txt o) chosen t).1
  with_options txt (ok opts) res t h = (opts, refl, chosen-Kept opts res t h)
  with_options txt (err x) res t h = cc
  with_options txt panic res t h = cc

  -- A CreateEndpoint that succeeds had the network's options, gave no static address, and leaves
  -- a hint with the address and the gateway of an IPv4 lease that udhcpc returned, and, if the options
  -- have IPv6, with the address of an IPv6 lease that udhcpc returned, within their lease timeout.
  pub create_endpoint-IsLeased :
      (res : EndpointInterface) (s : Sys W)
      → (create_endpoint env r s).0 ≡ ok res
      → (opts : DhcpNetworkOptions) × ((net_options env r.network_id s).0 ≡ ok opts)
        × (has_address r.interface ≡ false)
        × IsLeased env
            (initial_timeout opts)
            r.endpoint_id
            opts.ipv6
            (create_endpoint env r s).1.plugin
  unfolding create_endpoint
  create_endpoint-IsLeased res s h = elim (Bool-cases (has_address r.interface)) [
    | inl given ↦ cc (rw given at h)
    | inr absent ↦
        let (opts, e, kept) = with_options _ _ res _ (rw absent at h) in
        (opts, e, absent, rw absent kept)
  ]
