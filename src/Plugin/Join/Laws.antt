-- ===== src/Plugin/Join/Laws.antt =====
-- The hint and the record of an endpoint that joins.
use docker_network_dhcp.Base.{◌≡◌, refl, Option, none, some, arith, ap, ◌∙◌}
use docker_network_dhcp.Base.GoMap.{GoMap, lookup, lookup-delete_self}
use docker_network_dhcp.Util.Errors.{sentinel, err_no_hint}
use docker_network_dhcp.Util.Outcome.{Outcome, ok, err, continue}
use docker_network_dhcp.Plugin.State.{NetworkState}
use docker_network_dhcp.Plugin.Types.{
  DhcpNetworkOptions, JoinHint, JoinRequest, JoinResponse, InterfaceName,
}
use docker_network_dhcp.Plugin.Env.{Env, Sys}
use docker_network_dhcp.Plugin.Endpoint.{drop_hint}
use docker_network_dhcp.Plugin.Table.{add_entry, add_state_entry}
use docker_network_dhcp.Plugin.Options.{short_options}
use docker_network_dhcp.Plugin.Options.Laws.{net_options-cached}
use docker_network_dhcp.Plugin.Join.{
  join, join_with, take_hint, taken_hint, interface_name, joined_entry,
}

module _ {W : Type 0} (env : Env W) where
  join_with-hints :
      (r : JoinRequest) (opts : DhcpNetworkOptions) (names : InterfaceName) (hint : JoinHint)
      (s : Sys W)
      → (join_with env r opts names hint s).1.plugin.join_hints ≡ s.plugin.join_hints
  unfolding join_with add_state_entry
  join_with-hints r opts names hint s = ground arith

  join_with-networks :
      (r : JoinRequest) (opts : DhcpNetworkOptions) (names : InterfaceName) (hint : JoinHint)
      (s : Sys W)
      → (join_with env r opts names hint s).1.plugin.networks ≡ s.plugin.networks
  unfolding join_with add_state_entry
  join_with-networks r opts names hint s = ground arith

  -- A Join that succeeds has recorded the endpoint.
  join_with-state :
      (r : JoinRequest) (opts : DhcpNetworkOptions) (names : InterfaceName) (hint : JoinHint)
      (s : Sys W) (res : JoinResponse)
      → (join_with env r opts names hint s).0 ≡ ok res
      → (join_with env r opts names hint s).1.plugin ≡ add_entry (joined_entry r opts hint) s.plugin
  unfolding join_with add_state_entry
  join_with-state r opts names hint s res h = ground arith

  -- The part of Join behind the options and the names.
  abbrev rest :
      JoinRequest
      → DhcpNetworkOptions
      → InterfaceName
      → Option JoinHint
      → Sys W
      → Outcome JoinResponse × Sys W
  rest r opts names o s =
      let (h, s') = taken_hint env r.endpoint_id o s in continue h (join_with env r opts names) s'

  join-eq-rest :
      (r : JoinRequest) (s : Sys W) (ns : NetworkState) (names : InterfaceName)
      → lookup r.network_id s.plugin.networks ≡ some ns
      → interface_name (short_options ns.bridge ns.mode ns.ipv6) r.endpoint_id ≡ ok names
      → join env r s
        ≡ rest r
            (short_options ns.bridge ns.mode ns.ipv6)
            names
            (lookup r.endpoint_id s.plugin.join_hints)
            s
  unfolding join take_hint
  join-eq-rest r s ns names cached named =
      rw (net_options-cached env r.network_id s ns cached) (rw named)

  hint_taken :
      (r : JoinRequest) (opts : DhcpNetworkOptions) (names : InterfaceName) (o : Option JoinHint)
      (s : Sys W)
      → lookup r.endpoint_id s.plugin.join_hints ≡ o
      → (lookup r.endpoint_id (rest r opts names o s).1.plugin.join_hints ≡ none)
        × ((rest r opts names o s).1.plugin.networks ≡ s.plugin.networks)
  unfolding drop_hint
  hint_taken r opts names none s e = (e, refl)
  hint_taken r opts names (some hint) s e = (
    rw (join_with-hints r opts names hint) (lookup-delete_self r.endpoint_id s.plugin.join_hints),
    join_with-networks r opts names hint _,
  )

  -- For a network in the cache, Join takes the hint of CreateEndpoint whatever comes after it. So
  -- a second Join of the endpoint, also one that repeats a Join that failed behind that point,
  -- fails for want of the hint.
  join_at_most_once :
      (r : JoinRequest) (s : Sys W) {ns : NetworkState} {names : InterfaceName}
      → lookup r.network_id s.plugin.networks ≡ some ns
      → interface_name (short_options ns.bridge ns.mode ns.ipv6) r.endpoint_id ≡ ok names
      → (join env r (join env r s).1).0 ≡ err (sentinel err_no_hint)
  join_at_most_once r s {ns} {names} cached named =
      let (gone, same) =
        hint_taken r (short_options ns.bridge ns.mode ns.ipv6) names
          (lookup r.endpoint_id s.plugin.join_hints) s refl in
      rw (join-eq-rest r s ns names cached named) (
        rw
          (join-eq-rest r
            (rest r (short_options ns.bridge ns.mode ns.ipv6) names
              (lookup r.endpoint_id s.plugin.join_hints) s).1
            ns names (ap (λ (m : GoMap NetworkState). lookup r.network_id m) same ∙ cached) named)
          (rw gone))

  rest-state :
      (r : JoinRequest) (opts : DhcpNetworkOptions) (names : InterfaceName) (o : Option JoinHint)
      (s : Sys W) (res : JoinResponse)
      → (rest r opts names o s).0 ≡ ok res
      → (hint : JoinHint) × (o ≡ some hint)
        × ((rest r opts names o s).1.plugin
            ≡ add_entry (joined_entry r opts hint) (drop_hint r.endpoint_id s.plugin))
  rest-state r opts names none s res h = cc
  rest-state r opts names (some hint) s res h =
      (hint, refl, join_with-state r opts names hint _ res h)

  -- A Join that succeeds, for a network in the cache, found a hint. It takes the hint out and
  -- records the endpoint with the sandbox, the network's bridge, mode and IPv6 and the hint's
  -- interface index, before the goroutine starts; nothing else of the plugin changes.
  pub join_records :
      (r : JoinRequest) (s : Sys W) {ns : NetworkState} {names : InterfaceName} {res : JoinResponse}
      → lookup r.network_id s.plugin.networks ≡ some ns
      → interface_name (short_options ns.bridge ns.mode ns.ipv6) r.endpoint_id ≡ ok names
      → (join env r s).0 ≡ ok res
      → (hint : JoinHint) × (lookup r.endpoint_id s.plugin.join_hints ≡ some hint)
        × ((join env r s).1.plugin
            ≡ add_entry
                (joined_entry r (short_options ns.bridge ns.mode ns.ipv6) hint)
                (drop_hint r.endpoint_id s.plugin))
  join_records r s {ns} {names} {res} cached named done =
      let e = join-eq-rest r s ns names cached named in
      rw e (
        rest-state r (short_options ns.bridge ns.mode ns.ipv6) names
          (lookup r.endpoint_id s.plugin.join_hints) s res (rw e at done))
