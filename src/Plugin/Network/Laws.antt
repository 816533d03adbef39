-- ===== src/Plugin/Network/Laws.antt =====
-- CreateNetwork of pkg/plugin/network.go: what it accepts, and what it remembers.
use docker_network_dhcp.Base.{◌≡◌, refl, ◌≢◌, ◌⊎◌, inl, inr, true, List, [], ◌∷◌, go, arith, All}
use docker_network_dhcp.Base.GoMap.{insert}
use docker_network_dhcp.Util.Outcome.{Outcome, ok, err, panic}
use docker_network_dhcp.Plugin.Types.{
  DhcpNetworkOptions, IpamData, CreateNetworkRequest, net_mode, Plugin,
}
use docker_network_dhcp.Plugin.Env.{Env, Sys}
use docker_network_dhcp.Plugin.Table.Laws.{networks-add_network}
use docker_network_dhcp.Plugin.Network.{
  check_ipam, validate_network, create_network, network_record, is_valid_mode,
}

abbrev pub IsNullIpam : IpamData → Type 0
IsNullIpam d = (d.address_space ≡ go "null") × (d.pool ≡ go "0.0.0.0/0")

check_ipam-ok : (ds : List IpamData) → check_ipam ds ≡ ok tt → All IsNullIpam ds
unfolding check_ipam
check_ipam-ok [] h = tt
check_ipam-ok (d ∷ ds) h = ground (arith, check_ipam-ok ds)

-- The options of a request that CreateNetwork accepts.
pub record IsAccepted {W : Type 0} (env : Env W) (r : CreateNetworkRequest)
    (opts : DhcpNetworkOptions) : Type 0 where
  pub decoded : env.decode_opts r.options ≡ ok opts
  pub mode : is_valid_mode (net_mode opts) ≡ true
  pub bridge : opts.bridge ≢ []
  pub ipam : All IsNullIpam r.ipv4_data

module _ {W : Type 0} (env : Env W) where
  validate_network-ok :
      (r : CreateNetworkRequest) (w : W) (opts : DhcpNetworkOptions)
      → (validate_network env r w).0 ≡ ok opts
      → IsAccepted env r opts
  unfolding validate_network
  validate_network-ok r w opts h = ground (arith, check_ipam-ok r.ipv4_data)

  -- The two ways in which a call of CreateNetwork may end.
  pub record IsCreated (r : CreateNetworkRequest) (before after : Plugin) : Type 0 where
    pub opts : DhcpNetworkOptions
    pub accepted : IsAccepted env r opts
    pub remembered : after ≡ record before {
      networks = insert r.network_id (network_record r.network_id opts) before.networks;
    }

  abbrev pub CreateEnds : CreateNetworkRequest → Plugin → Outcome (Unit {0}) → Plugin → Type 0
  CreateEnds r before o after =
      ((o ≡ ok tt) × IsCreated r before after) ⊎ ((o ≢ ok tt) × (after ≡ before))

  create_after :
      (r : CreateNetworkRequest) (s : Sys W) (o : Outcome DhcpNetworkOptions)
      → (validate_network env r s.world).0 ≡ o
      → CreateEnds r s.plugin (create_network env r s).0 (create_network env r s).1.plugin
  unfolding create_network network_record
  create_after r s (ok opts) e = inl (
    rw e,
    record {
      opts = opts;
      accepted = validate_network-ok r s.world opts e;
      remembered = rw e (networks-add_network env (network_record r.network_id opts) _);
    },
  )
  create_after r s (err x) e = inr (rw e (λ q. cc), rw e)
  create_after r s panic e = inr (rw e (λ q. cc), rw e)

  -- CreateNetwork either succeeds, with acceptable options, and remembers their bridge, normalised
  -- mode and IPv6 under the network's identifier, or fails and leaves the plugin as it was.
  pub create_network_cases :
      (r : CreateNetworkRequest) (s : Sys W)
      → CreateEnds r s.plugin (create_network env r s).0 (create_network env r s).1.plugin
  create_network_cases r s = create_after r s (validate_network env r s.world).0 refl
