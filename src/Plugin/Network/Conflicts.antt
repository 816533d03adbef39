-- ===== src/Plugin/Network/Conflicts.antt =====
-- What the bridge-conflict check of CreateNetwork accepts.
use docker_network_dhcp.Base.{
  ◌≡◌, refl, ◌≢◌, ◌↔◌, ◌⊎◌, inl, inr, true, List, [], ◌∷◌, GoString, GoString-discrete, go, ◌==◌,
  arith, All, if◌then◌else◌, Bool-cases, ap, ◌∙◌,
}
use docker_network_dhcp.Util.Outcome.{Outcome, ok, err, panic}
use docker_network_dhcp.Plugin.Driver.{is_dhcp_plugin}
use docker_network_dhcp.Plugin.Types.{DhcpNetworkOptions, Addr, IpNet}
use docker_network_dhcp.Plugin.Env.{Env, DockerNetwork}
use docker_network_dhcp.Plugin.Network.{
  check_addrs, check_subnets, check_network, check_networks, is_zero_mask, and_then, check_parsed,
  same_bridge,
}

and_then-ok : (a b : Outcome (Unit {0})) → (and_then a b ≡ ok tt) ↔ ((a ≡ ok tt) × (b ≡ ok tt))
and_then-ok (ok _) b = (λ h. (refl, h), λ h. h.1)
and_then-ok (err e) b = (λ h. cc, λ h. cc (h.0))
and_then-ok panic b = (λ h. cc, λ h. cc (h.0))

module _ {W : Type 0} (env : Env W) where
  -- An address of the bridge lies in the subnet, or the subnet's address in that of the bridge.
  abbrev pub Overlaps : IpNet → Addr → Type 0
  Overlaps n a = (env.contains a.ip_net n.ip ≡ true) ⊎ (env.contains n a.ip_net.ip ≡ true)

  -- A subnet that parses, and covers everything or overlaps with no address.
  pub record IsFreeSubnet (addrs : List Addr) (subnet : GoString) : Type 0 where
    pub net : IpNet
    pub parses : env.parse_cidr subnet ≡ ok net
    pub apart : (is_zero_mask net.mask ≡ true) ⊎ All (λ a. ¬ Overlaps net a) addrs

  pub record IsFree (bridge : GoString) (addrs : List Addr) (n : DockerNetwork) : Type 0 where
    -- the options of a network of this plugin name another bridge, if they decode
    pub other_bridge :
        is_dhcp_plugin n.driver ≡ true
        → (env.decode_opts n.options ≢ panic)
          × ((o : DhcpNetworkOptions) → env.decode_opts n.options ≡ ok o → o.bridge ≢ bridge)
    -- a network with an IPAM driver has subnets apart from the bridge
    pub free_subnets : n.ipam_driver ≢ go "null" → All (IsFreeSubnet addrs) n.subnets

  check_addrs-ok :
      (n : IpNet) (addrs : List Addr)
      → (check_addrs env n addrs ≡ ok tt) ↔ All (λ a. ¬ Overlaps n a) addrs
  unfolding check_addrs
  check_addrs-ok n [] = (λ h. tt, λ h. refl)
  check_addrs-ok n (a ∷ addrs) = ground (arith, check_addrs-ok n addrs)

  check_parsed-ok :
      (id subnet : GoString) (addrs : List Addr) (o : Outcome IpNet)
      → env.parse_cidr subnet ≡ o
      → (check_parsed env id subnet addrs o ≡ ok tt) ↔ IsFreeSubnet addrs subnet
  check_parsed-ok id subnet addrs (ok n) e = (
    λ h. record {
      net = n;
      parses = e;
      apart = elim (Bool-cases (is_zero_mask n.mask)) [
        | inl z ↦ inl z
        | inr z ↦ inr ((check_addrs-ok n addrs).0 (rw z at h))
      ];
    },
    λ f. ground (arith, f.parses, f.apart, check_addrs-ok f.net addrs),
  )
  check_parsed-ok id subnet addrs (err x) e = (λ h. cc, λ f. cc (f.parses))
  check_parsed-ok id subnet addrs panic e = (λ h. cc, λ f. cc (f.parses))

  check_subnets-ok :
      (id : GoString) (addrs : List Addr) (cs : List GoString)
      → (check_subnets env id addrs cs ≡ ok tt) ↔ All (IsFreeSubnet addrs) cs
  unfolding check_subnets
  check_subnets-ok id addrs [] = (λ h. tt, λ h. refl)
  check_subnets-ok id addrs (c ∷ cs) =
      let both =
        and_then-ok (check_parsed env id c addrs (env.parse_cidr c))
          (check_subnets env id addrs cs) in
      let first = check_parsed-ok id c addrs (env.parse_cidr c) refl in
      let rest = check_subnets-ok id addrs cs in
      (λ h. (first.0 (both.0 h).0, rest.0 (both.0 h).1), λ h. both.1 (first.1 h.0, rest.1 h.1))

  same_bridge-ok :
      (bridge : GoString) (o : Outcome DhcpNetworkOptions)
      → (same_bridge env bridge o ≡ ok tt)
        ↔ ((o ≢ panic) × ((x : DhcpNetworkOptions) → o ≡ ok x → x.bridge ≢ bridge))
  same_bridge-ok bridge (ok other) = (
    λ h. (
      λ e. cc,
      λ x e p.
          let other_is : other ≡ x = cc in
          let same : other.bridge ≡ bridge =
            ap (λ (o : DhcpNetworkOptions). o.bridge) other_is ∙ p in
          ground arith,
    ),
    λ (np, h). ground (arith, h other refl),
  )
  same_bridge-ok bridge (err e) = (λ h. (λ q. cc, λ x q. cc), λ h. refl)
  same_bridge-ok bridge panic = (λ h. cc, λ h. absurd (h.0 refl))

  check_network-ok :
      (bridge : GoString) (addrs : List Addr) (n : DockerNetwork)
      → (check_network env bridge addrs n ≡ ok tt) ↔ IsFree bridge addrs n
  unfolding check_network
  check_network-ok bridge addrs n =
      let others =
        if is_dhcp_plugin n.driver
        then same_bridge env bridge (env.decode_opts n.options)
        else ok tt in
      let subnets =
        if n.ipam_driver == go "null" then ok tt else check_subnets env n.id addrs n.subnets in
      let both = and_then-ok others subnets in
      let named = same_bridge-ok bridge (env.decode_opts n.options) in
      let free = check_subnets-ok n.id addrs n.subnets in
      (
        λ h. record {
          other_bridge = λ d. named.0 (rw d at (both.0 h).0);
          free_subnets = λ p. free.0 (ground (arith, (both.0 h).1));
        },
        λ f. both.1 (
          elim (Bool-cases (is_dhcp_plugin n.driver)) [
            | inl d ↦ rw d (named.1 (f.other_bridge d))
            | inr d ↦ rw d
          ],
          elim (GoString-discrete n.ipam_driver (go "null")) [
            | yes p ↦ ground arith
            | no p ↦ ground (arith, free.1 (f.free_subnets p))
          ],
        ),
      )

  -- The check of CreateNetwork passes exactly if every network that Docker lists is free of the
  -- bridge: it is not this plugin's on the same bridge, and, unless its IPAM driver is `null`, all
  -- its subnets parse and overlap with no address of the bridge or cover every address.
  pub check_networks-ok :
      (bridge : GoString) (addrs : List Addr) (ns : List DockerNetwork)
      → (check_networks env bridge addrs ns ≡ ok tt) ↔ All (IsFree bridge addrs) ns
  unfolding check_networks
  check_networks-ok bridge addrs [] = (λ h. tt, λ h. refl)
  check_networks-ok bridge addrs (n ∷ ns) =
      let both =
        and_then-ok (check_network env bridge addrs n) (check_networks env bridge addrs ns) in
      let first = check_network-ok bridge addrs n in
      let rest = check_networks-ok bridge addrs ns in
      (λ h. (first.0 (both.0 h).0, rest.0 (both.0 h).1), λ h. both.1 (first.1 h.0, rest.1 h.1))
