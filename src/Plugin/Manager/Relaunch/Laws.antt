-- ===== src/Plugin/Manager/Relaunch/Laws.antt =====
-- What a restart of udhcpc does to the manager, to the thread of its loop and to the processes.
use docker_network_dhcp.Base.{
  ◌≡◌, refl, ◌∙◌, inl, inr, Bool, true, false, Option, none, some, ◌==◌, if◌then◌else◌, List, [],
  ◌∷◌, GoString,
}
use docker_network_dhcp.Util.Outcome.{Outcome, ok, err, panic, continue}
use docker_network_dhcp.Plugin.Manager.{Managed, Loop, running, ended, forget_lease}
use docker_network_dhcp.Plugin.Manager.Relaunch.Attempts.{IsRestart, drained, relaunch-IsRestart}
use docker_network_dhcp.Plugin.Manager.Relaunch.{
  Select, restart_options, launch_client, launched, selected, relaunch, on_exit,
}
use docker_network_dhcp.Udhcpc.{DhcpClientOptions}
use docker_network_dhcp.Udhcpc.Process.{Thread, System, start}
use docker_network_dhcp.Udhcpc.Process.Namespace.{CanReturn, wanted, start_lem, StartedIn}
use docker_network_dhcp.Udhcpc.Client.{Pipes, new_dhcp_client}

module _ {W : Type 0} where
  -- In the plugin's own namespace, not locked and with no handle more.
  abbrev pub AtHome : Thread W → Thread W → Type 0
  AtHome t u = (u.namespace ≡ none) × (u.handles ≡ t.handles) × (u.locked ≡ false)

-- The namespace at a path, the plugin's own where there is none.
abbrev pub inside : GoString → Option GoString
inside path = if path == [] then none else some path

module _ {W : Type 0} (pipes : Pipes W) (sys : System W) (iface : GoString) (v6 : Bool) where
  -- A loop that goes on has forgotten the lease, and has one process more, in the namespace of the
  -- manager. A loop that ends has the manager and the processes as they were.
  abbrev pub Relaunched : Managed (Thread W) → Loop (Thread W) → Type 0
  Relaunched s (running u) =
      (u.manager ≡ forget_lease v6 s.manager)
      × AtHome s.world u.world
      × (u.world.started ≡ inside s.manager.ns_path ∷ s.world.started)
  Relaunched s (ended e u) =
      (u.manager ≡ s.manager) × AtHome s.world u.world × (u.world.started ≡ s.world.started)

  from_there :
      (s : Managed (Thread W)) (t : Thread W)
      → AtHome s.world t
      → t.started ≡ s.world.started
      → (l : Loop (Thread W)) → Relaunched (record s { world = t }) l
      → Relaunched s l
  from_there s t (_, same, _) q (running u) (m, (n, h, k), p) = (m, (n, h ∙ same, k), rw q at p)
  from_there s t (_, same, _) q (ended e u) (m, (n, h, k), p) = (m, (n, h ∙ same, k), p ∙ q)

  module _ (back : CanReturn sys) where
    launch_client_lem :
        (opts : DhcpClientOptions) (t : Thread W)
        → t.namespace ≡ none
        → t.locked ≡ false
        → AtHome t (launch_client pipes sys iface opts t).1
          × StartedIn
              (wanted opts)
              t
              (launch_client pipes sys iface opts t).0
              (launch_client pipes sys iface opts t).1
    unfolding launch_client
    launch_client_lem opts t home free = created (new_dhcp_client pipes iface opts t.world)
      where
        created :
            (p : Outcome (List GoString) × W)
            → AtHome t (continue p.0 (λ _. start sys opts) (record t { world = p.1 })).1
              × StartedIn
                  (wanted opts)
                  t
                  (continue p.0 (λ _. start sys opts) (record t { world = p.1 })).0
                  (continue p.0 (λ _. start sys opts) (record t { world = p.1 })).1
        created (ok x, w) =
            let (n, h, l, s) = start_lem sys back opts (record t { world = w }) home free in
            ((n, h, l), s)
        created (err e, w) = ((home, refl, free), inr (λ q. cc, refl))
        created (panic, w) = ((home, refl, free), inr (λ q. cc, refl))

    relaunch-Relaunched :
        (selects : List (Select W)) (s : Managed (Thread W))
        → s.world.namespace ≡ none
        → s.world.locked ≡ false
        → Relaunched s (relaunch pipes sys iface v6 selects s)
    unfolding relaunch
    relaunch-Relaunched [] s home free = (refl, (home, refl, free), refl)
    relaunch-Relaunched (select ∷ rest) s home free =
        chosen (λ u. relaunch-Relaunched rest u) (select s.world.world)
      where
        again : Managed (Thread W) → Loop (Thread W)
        again u = relaunch pipes sys iface v6 rest u

        Later : Type 0
        Later =
            (u : Managed (Thread W))
            → u.world.namespace ≡ none
            → u.world.locked ≡ false
            → Relaunched u (again u)

        attempted :
            Later
            → (r : Outcome (Unit {0})) (t : Thread W) → AtHome s.world t
            → StartedIn (wanted (restart_options v6 s.manager)) s.world r t
            → Relaunched s (launched pipes sys iface v6 s again (r, t))
        attempted later (ok u) t h (inl (_, q)) = (refl, h, q)
        attempted later (ok u) t h (inr (not_ok, _)) = absurd (not_ok refl)
        attempted later (err e) t h (inl (q, _)) = cc (q)
        attempted later (err e) t h (inr (_, same)) =
            from_there s t h same (again (record s { world = t }))
              (later (record s { world = t }) h.0 h.2)
        attempted later panic t h (inl (q, _)) = cc (q)
        attempted later panic t h (inr (_, same)) = (refl, h, same)

        chosen : Later → (p : Bool × W) → Relaunched s (selected pipes sys iface v6 s again p)
        chosen later (true, w) = (refl, (home, refl, free), refl)
        chosen later (false, w) =
            let (h, p) =
              launch_client_lem (restart_options v6 s.manager) (record s.world { world = w }) home
                free in
            attempted later _ _ h p

    -- When udhcpc has exited, whatever comes first in each select and whatever the calls answer: the
    -- loop goes on exactly as the abstract restart does over the attempts that these answers make, one
    -- after the other up to the first that is told to stop or starts udhcpc, unless a call panics. If
    -- the loop goes on, it has forgotten the lease and has started one process more, in the namespace
    -- of the manager; if it ends, the manager is as it was and no process is started. Its thread is in
    -- the plugin's own namespace, not locked and with no handle more. This holds for a thread that was
    -- in the plugin's own namespace and not locked, where netns.Set back to it does not fail.
    pub on_exit_lem :
        (selects : List (Select W)) (s : Managed (Thread W))
        → s.world.namespace ≡ none
        → s.world.locked ≡ false
        → Relaunched s (on_exit pipes sys iface v6 selects s)
          × IsRestart pipes sys iface v6 selects
              (drained pipes sys iface v6 s)
              (on_exit pipes sys iface v6 selects s)
    unfolding on_exit
    on_exit_lem selects s home free = (
      from_there s (drained pipes sys iface v6 s).world (home, refl, free) refl _
          (relaunch-Relaunched selects (drained pipes sys iface v6 s) home free),
      relaunch-IsRestart pipes sys iface v6 selects (drained pipes sys iface v6 s),
    )
