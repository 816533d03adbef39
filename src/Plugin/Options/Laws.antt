-- ===== src/Plugin/Options/Laws.antt =====
-- netOptions against what CreateNetwork was given, and against the Docker API.
use docker_network_dhcp.Base.{
  ◌≡◌, refl, ◌≢◌, ◌⊎◌, inl, inr, Option, none, some, List, [], ◌∷◌, GoString, go, arith, ap, ◌∙◌,
}
use docker_network_dhcp.Base.GoMap.{GoMap, lookup, values, lookup-insert_self}
use docker_network_dhcp.Base.Keyed.{In}
use docker_network_dhcp.Util.Errors.{GoError, wrapped}
use docker_network_dhcp.Util.Outcome.{Outcome, ok, err}
use docker_network_dhcp.Plugin.State.{EndpointState, NetworkState}
use docker_network_dhcp.Plugin.Types.{DhcpNetworkOptions, CreateNetworkRequest, net_mode, Plugin}
use docker_network_dhcp.Plugin.Env.{Env, Sys}
use docker_network_dhcp.Plugin.Table.{add_network}
use docker_network_dhcp.Plugin.Network.{create_network, network_record}
use docker_network_dhcp.Plugin.Network.Laws.{CreateEnds, create_network_cases}
use docker_network_dhcp.Plugin.Options.{of_endpoint, net_options, short_options, find_endpoint}

module _ {W : Type 0} (env : Env W) where
  pub net_options-cached :
      (id : GoString) (s : Sys W) (ns : NetworkState)
      → lookup id s.plugin.networks ≡ some ns
      → net_options env id s ≡ (ok (short_options ns.bridge ns.mode ns.ipv6), s)
  unfolding net_options
  net_options-cached id s ns e = rw e

  cached_after :
      (r : CreateNetworkRequest) (s : Sys W) (o : Outcome (Unit {0})) (s' : Sys W)
      → o ≡ ok tt
      → CreateEnds env r s.plugin o s'.plugin
      → (opts : DhcpNetworkOptions) × (env.decode_opts r.options ≡ ok opts)
        × (net_options env r.network_id s'
            ≡ (ok (short_options opts.bridge (net_mode opts) opts.ipv6), s'))
  unfolding network_record
  cached_after r s o s' done (inl (_, c)) = (
    c.opts,
    c.accepted.decoded,
    net_options-cached r.network_id s' (network_record r.network_id c.opts) (
        ap (λ (p : Plugin). lookup r.network_id p.networks) c.remembered
        ∙ lookup-insert_self r.network_id (network_record r.network_id c.opts) s.plugin.networks),
  )
  cached_after r s o s' done (inr (no_ok, _)) = absurd (no_ok done)

  -- Right after a successful CreateNetwork the options of the network come from the cache, with
  -- no call to Docker and no change. They have the bridge, the normalised mode and IPv6 that were
  -- given, and the zero value for the lease timeout and for skipping routes, whatever was given.
  pub net_options-create_network :
      (r : CreateNetworkRequest) (s : Sys W)
      → (create_network env r s).0 ≡ ok tt
      → (opts : DhcpNetworkOptions) × (env.decode_opts r.options ≡ ok opts)
        × (net_options env r.network_id (create_network env r s).1 ≡ (
          ok (short_options opts.bridge (net_mode opts) opts.ipv6),
          (create_network env r s).1,
        ))
  net_options-create_network r s done =
      cached_after r s (create_network env r s).0 (create_network env r s).1 done
        (create_network_cases env r s)

  -- A network that is not in the cache: the answer of the Docker API is returned whole the first
  -- time, and the next call is served from the cache, without the lease timeout and the flags.
  net_options_back_fill :
      (id : GoString) (s : Sys W) {options : GoMap GoString} {opts : DhcpNetworkOptions}
      → lookup id s.plugin.networks ≡ none
      → (env.network_inspect id s.world).0 ≡ ok options
      → env.decode_opts options ≡ ok opts
      → ((net_options env id s).0 ≡ ok opts)
        × (net_options env id (net_options env id s).1
            ≡ (ok (short_options opts.bridge (net_mode opts) opts.ipv6), (net_options env id s).1))
  net_options_back_fill id s {options} {opts} missing answered decoded = (first, second)
    where
      first : (net_options env id s).0 ≡ ok opts
      first = unfold net_options in rw (missing, answered, decoded)

      filled : lookup id (net_options env id s).1.plugin.networks ≡ some (network_record id opts)
      filled =
          unfold net_options in
          rw (missing, answered, decoded)
            (unfold add_network network_record in
              lookup-insert_self id (network_record id opts) s.plugin.networks)

      second :
          net_options env id (net_options env id s).1
          ≡ (ok (short_options opts.bridge (net_mode opts) opts.ipv6), (net_options env id s).1)
      second = unfold network_record in net_options-cached id _ (network_record id opts) filled

  find_endpoint-some :
      (id : GoString) (es : List EndpointState) (e : EndpointState)
      → find_endpoint id es ≡ some e
      → In e es × (e.network_id ≡ id)
  unfolding find_endpoint
  find_endpoint-some id [] e h = cc
  find_endpoint-some id (x ∷ es) e h = ground (arith, find_endpoint-some id es e)

  find_endpoint-none :
      (id : GoString) (es : List EndpointState)
      → find_endpoint id es ≡ none
      → (e : EndpointState) → In e es
      → e.network_id ≢ id
  unfolding find_endpoint
  find_endpoint-none id [] h e i p = elim i [ ]
  find_endpoint-none id (x ∷ es) h e i p = ground (arith, find_endpoint-none id es _ e _ p)

  -- How netOptions ends when neither the cache nor Docker knows the network.
  abbrev pub FallsBack :
      GoString → GoError → List EndpointState → Outcome DhcpNetworkOptions → Type 0
  FallsBack id api_err es o =
      ((e : EndpointState) × In e es
        × (e.network_id ≡ id)
        × (o ≡ ok (short_options e.bridge e.mode e.ipv6)))
      ⊎ (((e : EndpointState) → In e es → e.network_id ≢ id)
          × (o ≡ err (wrapped (go "failed to get network info from Docker") api_err)))

  falls_back :
      (id : GoString) (x : GoError) (es : List EndpointState) (o : Option EndpointState)
      → find_endpoint id es ≡ o
      → FallsBack id x es (of_endpoint x o)
  falls_back id x es (some e) p = let (i, q) = find_endpoint-some id es e p in inl (e, i, q, refl)
  falls_back id x es none p = inr (find_endpoint-none id es p, refl)

  -- With the network not in the cache and the Docker API failing, the options are those of a
  -- persisted endpoint of that network, if there is one, and the API's error if there is none.
  -- The plugin does not change.
  net_options_fallback :
      (id : GoString) (s : Sys W) {x : GoError}
      → lookup id s.plugin.networks ≡ none
      → (env.network_inspect id s.world).0 ≡ err x
      → FallsBack id x (env.range_state (values s.plugin.state)) (net_options env id s).0
        × ((net_options env id s).1.plugin ≡ s.plugin)
  unfolding net_options
  net_options_fallback id s {x} missing failed =
      rw (missing, failed) (falls_back id x (env.range_state (values s.plugin.state)) _ refl, refl)
