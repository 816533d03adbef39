-- ===== src/Plugin/Manager/Steps.antt =====
-- The event loop of setupClient in pkg/plugin/dhcp_manager.go as a step relation: an event is
-- handled, the channel of events is closed and udhcpc is restarted, the manager is told to stop,
-- or the container's namespace changes. The loop of the other address family touches other fields
-- of the manager.
use docker_network_dhcp.Base.{
  ◌≡◌, refl, ◌≢◌, Bool, true, false, ◌||◌, not, Option, none, some, List, [], ◌∷◌, GoString, go,
  ◌==◌, arith, Bool-cases, inl, inr,
}
use docker_network_dhcp.Util.Outcome.{
  Outcome, ok, err, panic, wrap, continue-ne-panic, wrap-ne-panic,
}
use docker_network_dhcp.Plugin.Types.{Addr, DhcpManager}
use docker_network_dhcp.Plugin.Env.{Info, Route}
use docker_network_dhcp.Plugin.Manager.{
  Netns, Event, Managed, Attempt, told_to_stop, fails, starts, Ending, finished, panicked, Loop,
  running, ended, last_of, deconfigured_of, primed_of, install, prime, defer_removal, forget_lease,
  added, replace_address, apply_address, apply_gateway, gateway_step, set_route, renew, logged,
  on_lease, on_deconfig, handle, restart,
}
use docker_network_dhcp.Plugin.Manager.Lease.{gateway_step-manager}

module _ {W : Type 0} (n : Netns W) (v6 : Bool) where
  -- What an event leads to: an error is never returned.
  abbrev pub handled : Outcome (Unit {0}) × Managed W → Loop W
  handled (panic, s) = ended panicked s
  handled (_, s) = running s

  pub data Step (s : Managed W) : Loop W → Type 0 where
    event : (e : Event) → Step s (handled (handle n v6 e s))
    exited : (a b c : Attempt) → Step s (restart v6 (a ∷ b ∷ c ∷ []) s)
    stopped : Step s (ended finished s)
    outside : (w : W) → Step s (running (record s { world = w }))

  pub data Reach (s : Managed W) : Loop W → Type 0 where
    here : Reach s (running s)
    next : {t : Managed W} {l : Loop W} → Reach s (running t) → Step t l → Reach s l

  -- The calls out of the plugin do not panic.
  pub record IsCalm : Type 0 where
    pub parse_addr : (text : GoString) → n.parse_addr text ≢ panic
    pub addr_add : (a : Addr) (w : W) → (n.addr_add a w).0 ≢ panic
    pub default_routes : (w : W) → (n.default_routes w).0 ≢ panic
    pub route_add : (gw : Option GoString) (w : W) → (n.route_add gw w).0 ≢ panic
    pub route_replace : (r : Route) (w : W) → (n.route_replace r w).0 ≢ panic

  module _ (calm : IsCalm) where
    abbrev Safe : Outcome (Unit {0}) × Managed W → Type 0
    Safe (o, s) = (o ≢ panic) × (last_of v6 s.manager ≢ none)

    abbrev HasLast : Managed W → Type 0
    HasLast s = last_of v6 s.manager ≢ none

    last_of-install :
        (b : Bool) (ip : Addr) (m : DhcpManager) → last_of b (install b ip m) ≡ some ip
    last_of-install true ip m = refl
    last_of-install false ip m = refl

    set_route-ne-panic :
        (gw : Option GoString) (rs : List Route) (w : W) → (set_route n gw rs w).0 ≢ panic
    set_route-ne-panic gw [] w = ground (arith, calm.route_add gw w)
    set_route-ne-panic gw (r ∷ rs) w = ground (arith, calm.route_replace (record r { gw = gw }) w)

    apply_gateway-ne-panic : (gateway : GoString) (w : W) → (apply_gateway n gateway w).0 ≢ panic
    unfolding apply_gateway
    apply_gateway-ne-panic gateway w =
        (continue-ne-panic (λ (_ : W). Unit {0}) (wrap _ (n.default_routes w).0)
          (set_route n (n.parse_ip gateway)) (n.default_routes w).1
          (wrap-ne-panic _ _ (calm.default_routes w)) tt
          (λ rs u _. (set_route-ne-panic (n.parse_ip gateway) rs u, tt))).0

    added-Safe :
        (ip last : Addr) (s : Managed W) (p : Outcome (Unit {0}) × W)
        → p.0 ≢ panic
        → HasLast s
        → Safe (added n v6 ip last s p)
    added-Safe ip last s (ok x, w) safe keeps =
        (λ q. cc, λ q. cc (last_of-install v6 ip s.manager, q))
    added-Safe ip last s (err e, w) safe keeps = (λ q. cc, keeps)
    added-Safe ip last s (panic, w) safe keeps = absurd (safe refl)

    apply_address-Safe :
        (ip : Addr) (o : Option Addr) (s : Managed W)
        → o ≢ none
        → HasLast s
        → Safe (apply_address n v6 ip o s)
    unfolding replace_address
    apply_address-Safe ip none s some_o keeps = absurd (some_o refl)
    apply_address-Safe ip (some last) s some_o keeps =
        elim (Bool-cases (not (n.addr_equal ip last) || deconfigured_of v6 s.manager)) [
          | inl c ↦ rw c (
              added-Safe ip last s (n.addr_add ip (n.addr_del last s.world).1) (calm.addr_add ip _)
                keeps)
          | inr c ↦ rw c (λ q. cc, keeps)
        ]

    gateway_step-ne-panic :
        (b : Bool) (gateway : GoString) (s : Managed W) → (gateway_step n b gateway s).0 ≢ panic
    gateway_step-ne-panic true gateway s = λ q. cc
    gateway_step-ne-panic false gateway s = elim (Bool-cases (gateway == [])) [
      | inl c ↦ rw c (λ q. cc)
      | inr c ↦ rw c (apply_gateway-ne-panic gateway s.world)
    ]

    gateway_step-Safe :
        (gateway : GoString) (s : Managed W) → HasLast s → Safe (gateway_step n v6 gateway s)
    gateway_step-Safe gateway s keeps =
        (gateway_step-ne-panic v6 gateway s, rw (gateway_step-manager n v6 gateway s) keeps)

    renew-Safe : (info : Info) (s : Managed W) → HasLast s → Safe (renew n v6 info s)
    unfolding renew
    renew-Safe info s keeps =
        continue-ne-panic HasLast (wrap _ (n.parse_addr info.ip)) _ s
          (wrap-ne-panic _ _ (calm.parse_addr info.ip)) keeps
          (λ ip u k.
            let (safe, k') = apply_address-Safe ip (last_of v6 u.manager) u k k in
            continue-ne-panic HasLast (apply_address n v6 ip (last_of v6 u.manager) u).0 _ _ safe k'
              (λ _ v kv. gateway_step-Safe info.gateway v kv))

    logged-Safe : (p : Outcome (Unit {0}) × Managed W) → Safe p → Safe (logged n p)
    logged-Safe (ok x, s) (safe, keeps) = (λ q. cc, keeps)
    logged-Safe (err e, s) (safe, keeps) = (λ q. cc, keeps)
    logged-Safe (panic, s) (safe, keeps) = absurd (safe refl)

    last_of-prime : (b : Bool) (m : DhcpManager) → last_of b (prime b m) ≡ last_of b m
    last_of-prime true m = refl
    last_of-prime false m = refl

    last_of-defer_removal :
        (b : Bool) (m : DhcpManager) → last_of b (defer_removal b m) ≡ last_of b m
    last_of-defer_removal true m = refl
    last_of-defer_removal false m = refl

    last_of-forget_lease : (b : Bool) (m : DhcpManager) → last_of b (forget_lease b m) ≡ last_of b m
    last_of-forget_lease true m = refl
    last_of-forget_lease false m = refl

    on_lease-Safe : (info : Info) (s : Managed W) → HasLast s → Safe (on_lease n v6 info s)
    on_lease-Safe info s keeps =
        logged-Safe (renew n v6 info (record s { manager = prime v6 s.manager })) (
          renew-Safe info (record s { manager = prime v6 s.manager })
            (rw (last_of-prime v6 s.manager) keeps))

    on_deconfig-Safe : (s : Managed W) → HasLast s → Safe (on_deconfig n v6 s)
    on_deconfig-Safe s keeps = elim (Bool-cases (primed_of v6 s.manager)) [
      | inl c ↦ rw c (λ q. cc, rw (last_of-defer_removal v6 s.manager) keeps)
      | inr c ↦ rw c (λ q. cc, keeps)
    ]

    handle-Safe : (e : Event) (s : Managed W) → HasLast s → Safe (handle n v6 e s)
    unfolding handle
    handle-Safe e s keeps = elim (Bool-cases (e.kind == go "deconfig")) [
      | inl c ↦ rw c (on_deconfig-Safe s keeps)
      | inr c ↦ rw c (elim (Bool-cases (e.kind == go "bound" || e.kind == go "renew")) [
        | inl d ↦ rw d (on_lease-Safe e.info s keeps)
        | inr d ↦ rw d (λ q. cc, keeps)
      ])
    ]

    -- Under way with a last address, or at an end that is no panic.
    abbrev IsFine : Loop W → Type 0
    IsFine (running s) = HasLast s
    IsFine (ended how s) = how ≢ panicked

    handled-IsFine : (p : Outcome (Unit {0}) × Managed W) → Safe p → IsFine (handled p)
    handled-IsFine (ok x, s) (safe, keeps) = keeps
    handled-IsFine (err e, s) (safe, keeps) = keeps
    handled-IsFine (panic, s) (safe, keeps) = absurd (safe refl)

    restart-IsFine :
        (attempts : List Attempt) (s : Managed W) → HasLast s → IsFine (restart v6 attempts s)
    unfolding restart
    restart-IsFine [] s keeps = λ q. cc
    restart-IsFine (told_to_stop ∷ rest) s keeps = λ q. cc
    restart-IsFine (starts ∷ rest) s keeps = rw (last_of-forget_lease v6 s.manager) keeps
    restart-IsFine (fails ∷ rest) s keeps = restart-IsFine rest s keeps

    Step-IsFine : {s : Managed W} {l : Loop W} → Step s l → HasLast s → IsFine l
    Step-IsFine {s} (event e) keeps = handled-IsFine (handle n v6 e s) (handle-Safe e s keeps)
    Step-IsFine {s} (exited a b c) keeps = restart-IsFine (a ∷ b ∷ c ∷ []) s keeps
    Step-IsFine {s} stopped keeps = λ q. cc
    Step-IsFine {s} (outside w) keeps = keeps

    Reach-IsFine : {s : Managed W} {l : Loop W} → Reach s l → HasLast s → IsFine l
    Reach-IsFine here keeps = keeps
    Reach-IsFine (next r st) keeps = Step-IsFine st (Reach-IsFine r keeps)

  -- Where no call out of the plugin panics, the event loop of a manager that starts with a last
  -- address never ends by a panic, whatever events, restarts and changes of the namespace come.
  loop_never_panics :
      {s t : Managed W} {how : Ending}
      → IsCalm
      → last_of v6 s.manager ≢ none
      → Reach s (ended how t)
      → how ≢ panicked
  loop_never_panics calm keeps r = Reach-IsFine calm r keeps
