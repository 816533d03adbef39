-- ===== src/Plugin/Restore/Rejoin.antt =====
-- The manager that restoreFromState of pkg/plugin/plugin.go starts, against the one of Join.
use docker_network_dhcp.Base.{
  ◌≡◌, refl, ◌∙◌, ap, ℕ, ◌==ℕ◌, true, false, Option, none, some, [], ◌++◌, GoString, go, ◌==◌,
  if◌then◌else◌, Bool-cases, inl, inr, arith, GoString-discrete,
}
use docker_network_dhcp.Util.Outcome.{Outcome, ok, given_ok, wrap, wrap-ok, wrapping, pure, fail}
use docker_network_dhcp.Plugin.State.{EndpointState, stamp}
use docker_network_dhcp.Plugin.Types.{
  Addr, DhcpManager, DhcpNetworkOptions, JoinHint, JoinRequest, Link, net_mode, network_mode_bridge,
}
use docker_network_dhcp.Plugin.Join.{joined_entry}
use docker_network_dhcp.Plugin.Join.Goroutine.{hinted_manager, with_hostname}
use docker_network_dhcp.Plugin.Options.{short_options}
use docker_network_dhcp.Plugin.Manager.Start.{
  Held, Sandbox, within, release, undoing, got_namespace, open_handle, new_manager, restore_client,
}
use docker_network_dhcp.Plugin.Manager.Start.Result.{started_as, or_else-ok, start_clients-ok}
use docker_network_dhcp.Plugin.Restore.Addresses.{IsListed, current_v4-ok, current_v6-ok}
use docker_network_dhcp.Plugin.Restore.{
  mode_of, join_request_of, find_endpoint_link, current_v4, current_v6, read_sandbox, reattach,
  no_index,
}

-- A manager over the record of an endpoint, at the addresses and the index that were found.
abbrev pub manager_of : EndpointState → Addr → Option Addr → ℕ → DhcpManager
manager_of e v4 v6 index =
    record (new_manager (join_request_of e) (short_options e.bridge e.mode e.ipv6)) {
      last_ip = some v4;
      last_ipv6 = v6;
      if_index = index;
      ns_path = e.sandbox_key;
      hostname = e.hostname;
    }

-- A hostname that is empty is not written, and is read as such.
kept_name : (name : GoString) → (if name == [] then [] else name) ≡ name
kept_name name = ground arith

net_mode-ne_nil : (opts : DhcpNetworkOptions) → net_mode opts == [] ≡ false
unfolding net_mode go GoString-discrete
net_mode-ne_nil opts = elim (Bool-cases (opts.mode == [])) [
  | inl unset ↦ rw unset refl
  | inr set ↦ rw set set
]

module _ {W : Type 0} (box : Sandbox W) where
  -- What a restored manager takes from the namespace.
  pub record Found (e : EndpointState) (v4 : Addr) (v6 : Option Addr) (index : ℕ) : Type 0 where
    pub global : IsListed box 2 (some v4)
    pub no_v6 : e.ipv6 ≡ false → v6 ≡ none
    pub listed_v6 : e.ipv6 ≡ true → IsListed box 10 v6
    pub recorded : mode_of e == network_mode_bridge ≡ false → index ≡ e.if_index

  find_endpoint_link-ok :
      (e : EndpointState) (w : W) {found : Link × ℕ}
      → (find_endpoint_link box e w).0 ≡ ok found
      → mode_of e == network_mode_bridge ≡ false
      → found.1 ≡ e.if_index
  unfolding find_endpoint_link
  find_endpoint_link-ok e w q sub =
      given_ok ((if e.if_index ==ℕ 0 then fail (no_index e) else pure tt) w).0 _ _ (rw sub at q)
        λ _ hq1 q1.
          given_ok (wrap _ (box.link_by_index e.if_index _).0) _ _ q1 λ link hq2 q2. index_of q2
    where
      index_of :
          {link : Link} {found : Link × ℕ} → ok (link, e.if_index) ≡ ok found → found.1 ≡ e.if_index
      index_of p = cc (p)

  abbrev Read : EndpointState → DhcpManager → Type 0
  Read e m =
      (v4 : Addr) × (v6 : Option Addr) × (index : ℕ) × (m ≡ manager_of e v4 v6 index)
      × Found e v4 v6 index

  read_sandbox-ok :
      (e : EndpointState) (w : W) {read : DhcpManager × Link}
      → (read_sandbox box e w).0 ≡ ok read
      → Read e read.0
  unfolding read_sandbox
  read_sandbox-ok e w q = given_ok (wrap _ (find_endpoint_link box e w).0) _ _ q λ found hq1 q1.
      given_ok (current_v4 box found.0 _).0 _ _ q1 λ v4 hq2 q2.
        given_ok (current_v6 box e.ipv6 found.0 _).0 _ _ q2 λ v6 hq3 q3. (
          v4,
          v6,
          found.1,
          of_pure q3,
          record {
            global = current_v4-ok box found.0 _ hq2;
            no_v6 = (current_v6-ok box e.ipv6 found.0 _ hq3).0;
            listed_v6 = (current_v6-ok box e.ipv6 found.0 _ hq3).1;
            recorded = find_endpoint_link-ok e w (wrap-ok _ _ hq1);
          },
        )
    where
      of_pure :
          {m : DhcpManager} {link : Link} {read : DhcpManager × Link}
          → ok (m, link) ≡ ok read
          → read.0 ≡ m
      of_pure p = cc (p)

  -- What restoreFromState starts over the record `e`, where it can: the manager of the record, started,
  -- at the first global address of the interface, and at the recorded index unless that is a bridge's.
  pub reattach-ok :
      (e : EndpointState) (h : Held W) {m : DhcpManager}
      → (reattach box e h).0 ≡ ok m
      → (v4 : Addr) × (v6 : Option Addr) × (index : ℕ) × (m
          ≡ record (manager_of e v4 v6 index) { started = true })
        × Found e v4 v6 index
  unfolding reattach restore_client
  reattach-ok e h q = given_ok (in_namespace h).0 _ _ q λ _ hq1 q1.
      given_ok (open_handle box (go "open netlink in netns") (in_namespace h).1).0 _ _ q1
        λ _ hq2 q2.
          given_ok (undoing release (within (read_sandbox box e)) (opened h)).0 _ _ q2
            λ read hq3 q3.
              started read (read_sandbox-ok e _ (or_else-ok release _ _ hq3))
                (start_clients-ok box read.0 read.1 _ (or_else-ok release _ _ (wrap-ok _ _ q3)))
    where
      in_namespace : Held W → Outcome (Unit {0}) × Held W
      in_namespace g = got_namespace (
          wrapping (go "open netns " ++ e.sandbox_key) (within (box.get_from_path e.sandbox_key)) g)

      opened : Held W → Held W
      opened g = (open_handle box (go "open netlink in netns") (in_namespace g).1).1

      started :
          (read : DhcpManager × Link) {m : DhcpManager}
          → Read e read.0
          → m ≡ record read.0 { started = true }
          → (v4 : Addr) × (v6 : Option Addr) × (index : ℕ) × (m
              ≡ record (manager_of e v4 v6 index) { started = true })
            × Found e v4 v6 index
      started read (v4, v6, index, same, found) p =
          (v4, v6, index, p ∙ ap (λ (x : DhcpManager). record x { started = true }) same, found)

  -- From Join to the next start of the plugin and its Restore: over the record that Join and its
  -- goroutine have left, as it is saved, Restore starts the manager of that goroutine again, where it
  -- can. Instead of the addresses of the hint it takes the first global one of the IPv4 addresses that
  -- the namespace lists, and with IPv6 the first global one of its IPv6 addresses, if there is one; the index is that of the hint unless the network is a bridge; and of the
  -- options only bridge, mode and IPv6 are left.
  pub reattach-joined_entry :
      (r : JoinRequest) (opts : DhcpNetworkOptions) (hint : JoinHint) (name : GoString) (h : Held W)
      {m : DhcpManager}
      → (reattach box (stamp (with_hostname name (joined_entry r opts hint))) h).0 ≡ ok m
      → (v4 : Addr) × (v6 : Option Addr) × (index : ℕ) × (m
          ≡ record (started_as name
              (hinted_manager r (short_options opts.bridge (net_mode opts) opts.ipv6) hint)) {
                last_ip = some v4;
                last_ipv6 = v6;
                if_index = index;
              })
        × IsListed box 2 (some v4)
        × (opts.ipv6 ≡ false → v6 ≡ none)
        × (opts.ipv6 ≡ true → IsListed box 10 v6)
        × (net_mode opts == network_mode_bridge ≡ false → index ≡ hint.if_index)
  unfolding stamp joined_entry new_manager
  reattach-joined_entry r opts hint name h q =
      let (v4, v6, index, same, found) = reattach-ok _ h q in
      (
        v4,
        v6,
        index,
        same ∙ named v4 v6 index,
        found.global,
        found.no_v6,
        found.listed_v6,
        λ sub. found.recorded (rw (net_mode-ne_nil opts) sub),
      )
    where
      named :
          (v4 : Addr) (v6 : Option Addr) (index : ℕ)
          → record (manager_of
              (stamp (with_hostname name (joined_entry r opts hint)))
              v4
              v6
              index) { started = true }
            ≡ record (started_as name
                (hinted_manager r (short_options opts.bridge (net_mode opts) opts.ipv6) hint)) {
                  last_ip = some v4;
                  last_ipv6 = v6;
                  if_index = index;
                }
      named v4 v6 index =
          ap
            (λ (t : GoString).
              record (started_as name
                (hinted_manager r (short_options opts.bridge (net_mode opts) opts.ipv6) hint)) {
                  last_ip = some v4;
                  last_ipv6 = v6;
                  if_index = index;
                  hostname = t;
                })
            (kept_name name)
