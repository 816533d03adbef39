-- ===== src/Plugin/Manager/Relaunch/Attempts.antt =====
-- The attempts at a restart of udhcpc, by what its calls answer (pkg/plugin/dhcp_manager.go).
use docker_network_dhcp.Base.{◌≡◌, refl, ◌⊎◌, inl, inr, Bool, true, false, List, [], ◌∷◌, GoString}
use docker_network_dhcp.Util.Errors.{GoError}
use docker_network_dhcp.Util.Outcome.{Outcome, ok, err, panic}
use docker_network_dhcp.Plugin.Manager.{
  Managed, Attempt, told_to_stop, fails, starts, Loop, ended, panicked, restart,
}
use docker_network_dhcp.Plugin.Manager.Relaunch.{
  Select, restart_options, launch_client, launched, selected, relaunch,
}
use docker_network_dhcp.Udhcpc.Process.{Thread, System, drain}
use docker_network_dhcp.Udhcpc.Client.{Pipes}

module _ {W : Type 0} (pipes : Pipes W) (sys : System W) (iface : GoString) (v6 : Bool) where
  -- Drain has reaped the process.
  abbrev pub drained : Managed (Thread W) → Managed (Thread W)
  drained s = record s { world = record s.world { world = drain sys s.world.world } }

  -- The thread when a select is over, and what NewDHCPClient and Start do then.
  abbrev pub waited : Select W → Managed (Thread W) → Thread W
  waited select s = record s.world { world = (select s.world.world).1 }

  abbrev pub attempt : Select W → Managed (Thread W) → Outcome (Unit {0}) × Thread W
  attempt select s = launch_client pipes sys iface (restart_options v6 s.manager) (waited select s)

  -- What the attempts are, by what the selects and the calls answer, and where they leave the thread:
  -- one after the other, up to the first that is told to stop or starts udhcpc.
  pub data Tried : List (Select W) → Managed (Thread W) → List Attempt → Thread W → Type 0 where
    none_left : {s : Managed (Thread W)} → Tried [] s [] s.world
    stops :
        {select : Select W} {rest : List (Select W)} {s : Managed (Thread W)}
        → (select s.world.world).0 ≡ true
        → Tried (select ∷ rest) s (told_to_stop ∷ []) (waited select s)
    comes_up :
        {select : Select W} {rest : List (Select W)} {s : Managed (Thread W)}
        → (select s.world.world).0 ≡ false
        → (attempt select s).0 ≡ ok tt
        → Tried (select ∷ rest) s (starts ∷ []) (attempt select s).1
    misses :
        {select : Select W} {rest : List (Select W)} {s : Managed (Thread W)} {e : GoError}
        {tried : List Attempt} {t : Thread W}
        → (select s.world.world).0 ≡ false
        → (attempt select s).0 ≡ err e
        → Tried rest (record s { world = (attempt select s).1 }) tried t
        → Tried (select ∷ rest) s (fails ∷ tried) t

  -- The same up to a call that panics.
  pub data Panics : List (Select W) → Managed (Thread W) → Thread W → Type 0 where
    at_once :
        {select : Select W} {rest : List (Select W)} {s : Managed (Thread W)}
        → (select s.world.world).0 ≡ false
        → (attempt select s).0 ≡ panic
        → Panics (select ∷ rest) s (attempt select s).1
    after_miss :
        {select : Select W} {rest : List (Select W)} {s : Managed (Thread W)} {e : GoError}
        {t : Thread W}
        → (select s.world.world).0 ≡ false
        → (attempt select s).0 ≡ err e
        → Panics rest (record s { world = (attempt select s).1 }) t
        → Panics (select ∷ rest) s t

  -- The abstract restart, over the attempts that the selects and the calls make.
  abbrev pub IsRestart : List (Select W) → Managed (Thread W) → Loop (Thread W) → Type 0
  IsRestart selects s l =
      ((tried : List Attempt) × (t : Thread W) × Tried selects s tried t
        × (l ≡ restart v6 tried (record s { world = t })))
      ⊎ ((t : Thread W) × Panics selects s t × (l ≡ ended panicked (record s { world = t })))

  after_one :
      (select : Select W) (rest : List (Select W)) (s : Managed (Thread W)) {e : GoError}
      (l : Loop (Thread W))
      → (select s.world.world).0 ≡ false
      → (attempt select s).0 ≡ err e
      → IsRestart rest (record s { world = (attempt select s).1 }) l
      → IsRestart (select ∷ rest) s l
  unfolding restart
  after_one select rest s l c f (inl (tried, t, r, q)) = inl (fails ∷ tried, t, misses c f r, q)
  after_one select rest s l c f (inr (t, r, q)) = inr (t, after_miss c f r, q)

  pub relaunch-IsRestart :
      (selects : List (Select W)) (s : Managed (Thread W))
      → IsRestart selects s (relaunch pipes sys iface v6 selects s)
  unfolding relaunch restart
  relaunch-IsRestart [] s = inl ([], s.world, none_left, refl)
  relaunch-IsRestart (select ∷ rest) s =
      chosen (λ u. relaunch-IsRestart rest u) (select s.world.world).0 refl
    where
      again : Managed (Thread W) → Loop (Thread W)
      again u = relaunch pipes sys iface v6 rest u

      Later : Type 0
      Later = (u : Managed (Thread W)) → IsRestart rest u (again u)

      attempted :
          Later
          → (select s.world.world).0 ≡ false
          → (o : Outcome (Unit {0})) → (attempt select s).0 ≡ o
          → IsRestart
              (select ∷ rest)
              s
              (launched pipes sys iface v6 s again (o, (attempt select s).1))
      attempted later c (ok u) f = inl (starts ∷ [], (attempt select s).1, comes_up c f, refl)
      attempted later c (err e) f =
          after_one select rest s _ c f (later (record s { world = (attempt select s).1 }))
      attempted later c panic f = inr ((attempt select s).1, at_once c f, refl)

      chosen :
          Later
          → (b : Bool) → (select s.world.world).0 ≡ b
          → IsRestart
              (select ∷ rest)
              s
              (selected pipes sys iface v6 s again (b, (select s.world.world).1))
      chosen later true c = inl (told_to_stop ∷ [], waited select s, stops c, refl)
      chosen later false c = attempted later c (attempt select s).0 refl
