-- ===== src/Plugin/Manager/Lease.antt =====
-- What a lease does to the manager: renew of pkg/plugin/dhcp_manager.go and the events around it.
use docker_network_dhcp.Base.{
  ◌≡◌, refl, ◌⊎◌, inl, inr, Bool, true, false, not, ◌||◌, Option, none, some, [], GoString, go,
  GoString-discrete, arith, ap, Bool-cases,
}
use docker_network_dhcp.Util.Outcome.{Outcome, ok, err, panic, wrap, lift, >>=-eq-ok}
use docker_network_dhcp.Plugin.Types.{Addr}
use docker_network_dhcp.Plugin.Env.{Info}
use docker_network_dhcp.Plugin.Manager.{
  Netns, Event, Managed, added, last_of, deconfigured_of, primed_of, install, prime, defer_removal,
  replace_address, apply_address, apply_gateway, gateway_step, renew, logged, on_lease, on_deconfig,
  handle,
}

module _ {W : Type 0} (n : Netns W) where
  -- The namespace with the new address in place of the last one.
  abbrev pub exchanged : Addr → Addr → W → Outcome (Unit {0}) × W
  exchanged ip last w = n.addr_add ip (n.addr_del last w).1

  -- A renewal up to the gateway: the last address is taken away, the address of the lease is added
  -- and accepted, and the manager remembers it; or an equal one stays that no deconfig has put in
  -- doubt.
  abbrev pub IsApplied : Bool → Addr → Addr → Managed W → Managed W → Type 0
  IsApplied v6 ip last before after =
      (((exchanged ip last before.world).0 ≡ ok tt)
        × (after.world ≡ (exchanged ip last before.world).1)
        × (after.manager ≡ install v6 ip before.manager))
      ⊎ ((after ≡ before)
          × (n.addr_equal ip last ≡ true)
          × (deconfigured_of v6 before.manager ≡ false))

  pub record IsRenewed (v6 : Bool) (info : Info) (before after : Managed W) : Type 0 where
    pub ip : Addr
    pub parsed : n.parse_addr info.ip ≡ ok ip
    pub last : Addr
    pub had : last_of v6 before.manager ≡ some last
    pub middle : Managed W
    pub applied : IsApplied v6 ip last before middle
    -- the gateway is set then, and that leaves the manager alone
    pub gateway : gateway_step n v6 info.gateway middle ≡ (ok tt, after)
    pub same : after.manager ≡ middle.manager

  pub gateway_step-manager :
      (v6 : Bool) (gateway : GoString) (s : Managed W)
      → (gateway_step n v6 gateway s).1.manager ≡ s.manager
  unfolding apply_gateway
  gateway_step-manager true gateway s = refl
  gateway_step-manager false gateway s = ground arith

  added-ok :
      (v6 : Bool) (ip last : Addr) (s : Managed W) (r : Outcome (Unit {0}) × W)
      → (added n v6 ip last s r).0 ≡ ok tt
      → (r.0 ≡ ok tt)
        × ((added n v6 ip last s r).1.world ≡ r.1)
        × ((added n v6 ip last s r).1.manager ≡ install v6 ip s.manager)
  added-ok v6 ip last s (ok u, w) h = (refl, refl, refl)
  added-ok v6 ip last s (err e, w) h = cc
  added-ok v6 ip last s (panic, w) h = cc

  apply_address-ok :
      (v6 : Bool) (ip : Addr) (o : Option Addr) (s : Managed W)
      → (apply_address n v6 ip o s).0 ≡ ok tt
      → (last : Addr) × (o ≡ some last) × IsApplied v6 ip last s (apply_address n v6 ip o s).1
  unfolding replace_address
  apply_address-ok v6 ip none s h = cc
  apply_address-ok v6 ip (some last) s h =
      elim (Bool-cases (not (n.addr_equal ip last) || deconfigured_of v6 s.manager)) [
        | inl c ↦ (last, refl, rw c (inl (added-ok v6 ip last s _ (rw c at h))))
        | inr c ↦ let (p, q) = kept _ _ c in (last, refl, rw c (inr (refl, p, q)))
      ]
    where
      kept : (a b : Bool) → not a || b ≡ false → (a ≡ true) × (b ≡ false)
      kept true b e = (refl, e)
      kept false b e = cc

  -- After a renewal that succeeds: the last address has been taken out of the namespace, that of the
  -- lease has been added there and accepted, and the manager remembers it and counts as configured;
  -- or the manager had an equal address and no deconfig was pending, and both stay as they were. In
  -- both cases the gateway of the lease is set then, and that succeeds.
  pub renew_lem :
      (v6 : Bool) (info : Info) (s : Managed W)
      → (renew n v6 info s).0 ≡ ok tt
      → IsRenewed v6 info s (renew n v6 info s).1
  unfolding renew
  renew_lem v6 info s h =
      let (ip, e, k, st) = >>=-eq-ok (lift (wrap _ (n.parse_addr info.ip))) _ s h in
      let (_, f, g, st2) = >>=-eq-ok (λ t. apply_address n v6 ip (last_of v6 t.manager) t) _ s k in
      let (last, had, applied) = apply_address-ok v6 ip (last_of v6 s.manager) s f in
      record {
        ip = ip;
        parsed = ground (arith, e);
        last = last;
        had = had;
        middle = (apply_address n v6 ip (last_of v6 s.manager) s).1;
        applied = applied;
        gateway = rw st (rw st2 (paired _ g));
        same = rw st (rw st2 (gateway_step-manager v6 info.gateway _));
      }
    where
      paired : (r : Outcome (Unit {0}) × Managed W) → r.0 ≡ ok tt → r ≡ (ok tt, r.1)
      paired (o, t) e = ap (λ (x : Outcome (Unit {0})). (x, t)) e

  -- A manager without a last address panics on a lease.
  pub handle_panic :
      (v6 : Bool) (info : Info) (s : Managed W) {ip : Addr}
      → last_of v6 s.manager ≡ none
      → n.parse_addr info.ip ≡ ok ip
      → (handle n v6 (record { kind = go "bound"; info = info }) s).0 ≡ panic
  unfolding handle renew go GoString-discrete
  handle_panic true info s missing parsed = rw parsed (rw missing refl)
  handle_panic false info s missing parsed = rw parsed (rw missing refl)

  abbrev pub deconfig : Info → Event
  deconfig info = record { kind = go "deconfig"; info = info }

  abbrev pub bound : Info → Event
  bound info = record { kind = go "bound"; info = info }

  handle-deconfig :
      (v6 : Bool) (info : Info) (s : Managed W) → handle n v6 (deconfig info) s ≡ on_deconfig n v6 s
  unfolding handle go GoString-discrete
  handle-deconfig v6 info s = refl

  handle-bound :
      (v6 : Bool) (info : Info) (s : Managed W) → handle n v6 (bound info) s ≡ on_lease n v6 info s
  unfolding handle go GoString-discrete
  handle-bound v6 info s = refl

  logged-keeps : (p : Outcome (Unit {0}) × Managed W) → (logged n p).1 ≡ p.1
  logged-keeps (ok x, s) = refl
  logged-keeps (err e, s) = refl
  logged-keeps (panic, s) = refl

  gateway_step-none :
      (v6 : Bool) (gateway : GoString) (s : Managed W)
      → gateway ≡ []
      → gateway_step n v6 gateway s ≡ (ok tt, s)
  gateway_step-none true gateway s e = refl
  gateway_step-none false gateway s e = ground arith

  renew_unchanged :
      (v6 : Bool) (info : Info) (s : Managed W) {ip last : Addr}
      → deconfigured_of v6 s.manager ≡ false
      → last_of v6 s.manager ≡ some last
      → n.parse_addr info.ip ≡ ok ip
      → n.addr_equal ip last ≡ true
      → info.gateway ≡ []
      → renew n v6 info s ≡ (ok tt, s)
  unfolding renew
  renew_unchanged v6 info s steady had parsed same closed =
      rw (parsed, had) (rw (same, steady) (gateway_step-none v6 info.gateway s closed))

  abbrev pub installed : Bool → Addr → Addr → Managed W → Managed W
  installed v6 ip last s = record {
    manager = install v6 ip s.manager;
    world = (exchanged ip last s.world).1;
  }

  renew_forced :
      (v6 : Bool) (info : Info) (s : Managed W) {ip last : Addr}
      → deconfigured_of v6 s.manager ≡ true
      → last_of v6 s.manager ≡ some last
      → n.parse_addr info.ip ≡ ok ip
      → (exchanged ip last s.world).0 ≡ ok tt
      → renew n v6 info s ≡ gateway_step n v6 info.gateway (installed v6 ip last s)
  unfolding renew replace_address
  renew_forced v6 info s {ip} {last} pending had parsed accepted =
      rw (parsed, had)
        (elim (Bool-cases (n.addr_equal ip last)) [
          | inl same ↦ rw (same, pending) (rw accepted refl)
          | inr other ↦ rw other (rw accepted refl)
        ])

  -- The deconfig with which udhcpc starts, and a first lease with the address that is already
  -- there and no gateway, change nothing but the mark that the manager is primed.
  startup_keeps :
      (v6 : Bool) (info0 info : Info) (s : Managed W) {ip last : Addr}
      → primed_of v6 s.manager ≡ false
      → deconfigured_of v6 s.manager ≡ false
      → last_of v6 s.manager ≡ some last
      → n.parse_addr info.ip ≡ ok ip
      → n.addr_equal ip last ≡ true
      → info.gateway ≡ []
      → handle n v6 (bound info) (handle n v6 (deconfig info0) s).1
        ≡ (ok tt, record s { manager = prime v6 s.manager })
  startup_keeps true info0 info s unprimed steady had parsed same closed =
      rw (handle-deconfig, handle-bound)
        (rw unprimed (ap (logged n) (renew_unchanged true info _ steady had parsed same closed)))
  startup_keeps false info0 info s unprimed steady had parsed same closed =
      rw (handle-deconfig, handle-bound)
        (rw unprimed (ap (logged n) (renew_unchanged false info _ steady had parsed same closed)))

  -- Once primed, a deconfig changes nothing in the namespace. The next lease, also one that is equal
  -- to the last, takes the last address away and adds its own; if that is accepted, the manager
  -- remembers it and counts as configured, and the namespace is what the gateway of the lease makes
  -- of it then.
  pub soft_handover :
      (v6 : Bool) (info0 info : Info) (s : Managed W) {ip last : Addr}
      → primed_of v6 s.manager ≡ true
      → last_of v6 s.manager ≡ some last
      → n.parse_addr info.ip ≡ ok ip
      → (exchanged ip last s.world).0 ≡ ok tt
      → ((handle n v6 (deconfig info0) s).1.world ≡ s.world)
        × ((handle n v6 (bound info) (handle n v6 (deconfig info0) s).1).1
            ≡ (gateway_step n v6 info.gateway (
                installed v6 ip last
                  (record s { manager = prime v6 (defer_removal v6 s.manager) }))).1)
        × (last_of v6 (handle n v6 (bound info) (handle n v6 (deconfig info0) s).1).1.manager
            ≡ some ip)
        × (deconfigured_of v6
              (handle n v6 (bound info) (handle n v6 (deconfig info0) s).1).1.manager
            ≡ false)
  soft_handover true info0 info s primed had parsed accepted =
      rw (handle-deconfig, handle-bound)
        (rw primed (
          rw logged-keeps (
            rw
              (renew_forced true info
                (record s { manager = prime true (defer_removal true s.manager) }) refl had parsed
                accepted)
              (refl, refl, refl, refl))))
  soft_handover false info0 info s primed had parsed accepted =
      rw (handle-deconfig, handle-bound)
        (rw primed (
          rw logged-keeps (
            rw
              (renew_forced false info
                (record s { manager = prime false (defer_removal false s.manager) }) refl had parsed
                accepted)
              (
                refl,
                refl,
                rw (gateway_step-manager false info.gateway _) refl,
                rw (gateway_step-manager false info.gateway _) refl,
              ))))
