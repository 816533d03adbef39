-- ===== src/Plugin/Shutdown/Runs.antt =====
-- Close does not wait for ever.
use docker_network_dhcp.Base.{ℕ, zero, suc, ◌≡◌, refl, ◌∙◌, inl, inr, List, [], ◌∷◌, Bool-cases}
use docker_network_dhcp.Util.Outcome.{Act}
use docker_network_dhcp.Plugin.State.{EndpointState}
use docker_network_dhcp.Plugin.Types.{DhcpManager}
use docker_network_dhcp.Plugin.Env.{Env, Sys}
use docker_network_dhcp.Plugin.Manager.Start.{Held, Sandbox}
use docker_network_dhcp.Plugin.Api.{Wire}
use docker_network_dhcp.Plugin.Shutdown.{
  Restorer, sleeping, returned, clearing, cancelling, leaving, ended, between, at, Closer, waiting,
  Shutdown, after_start_restore, wakes, takes, fails, drops, gives_up, comes_to_end, completes,
  clears, cancels, leaves, restores, Reach, here, next,
}
use docker_network_dhcp.Plugin.Shutdown.Waits.{Sound-start, Reach-Sound, Marks-at}

module _ {W : Type 0} (env : Env (Held W)) (box : Sandbox W) (wire : Wire)
    (ping : Act (Held W) (Unit {0})) (order : List DhcpManager → List DhcpManager)
    (close_server close_docker : Act (Held W) (Unit {0})) where
  abbrev Run : Shutdown W → Shutdown W → Type 0
  Run = Reach env box wire ping order close_server close_docker

  -- The goroutine of StartRestore comes to its end, and Close stays where it is.
  abbrev EndsAt : Shutdown W → Closer → Type 0
  EndsAt s c = (u : Shutdown W) × Run s u × (u.restorer ≡ ended) × (u.closer ≡ c)

  from_clearing :
      {s : Shutdown W} (t : Shutdown W) → Run s t → t.restorer ≡ clearing → EndsAt s t.closer
  from_clearing t run e = (
    _,
    next (next (next run (restores (clears e))) (restores (cancels refl))) (restores (leaves refl)),
    refl,
    refl,
  )

  from_returned :
      {s : Shutdown W} (t : Shutdown W) → Run s t → t.restorer ≡ returned → EndsAt s t.closer
  from_returned t run e = from_clearing _ (next run (restores (completes e))) refl

  from_between :
      {s : Shutdown W} (es : List EndpointState) (t : Shutdown W)
      → Run s t
      → t.restorer ≡ between es
      → EndsAt s t.closer
  from_between [] t run e = from_returned _ (next run (restores (comes_to_end e))) refl
  from_between (x ∷ es) t run e = elim (Bool-cases t.cancelled) [
    | inl over ↦ from_returned _ (next run (restores (gives_up e over))) refl
    | inr live ↦
        from_between es _
          (next
            (next
              (next
                (next
                  (next (next run (restores (takes e live))) (restores (fails t.sys.world refl)))
                  (restores (fails t.sys.world refl)))
                (restores (fails t.sys.world refl)))
              (restores (fails t.sys.world refl)))
            (restores (drops refl)))
          refl
  ]

  from_at :
      {s : Shutdown W} (n : ℕ) (x : EndpointState) (es : List EndpointState) (t : Shutdown W)
      → Run s t
      → t.restorer ≡ at n x es
      → EndsAt s t.closer
  from_at zero x es t run e = from_between es _ (next run (restores (drops e))) refl
  from_at (suc n) x es t run e = from_at n x es _ (next run (restores (fails t.sys.world e))) refl

  from_restorer :
      {s : Shutdown W} (r : Restorer) (t : Shutdown W)
      → Run s t
      → t.restorer ≡ r
      → EndsAt s t.closer
  from_restorer sleeping t run e = from_between _ _ (next run (restores (wakes e))) refl
  from_restorer (between es) t run e = from_between es t run e
  from_restorer (at n x es) t run e = from_at n x es t run e
  from_restorer returned t run e = from_returned t run e
  from_restorer clearing t run e = from_clearing t run e
  from_restorer cancelling t run e =
      (_, next (next run (restores (cancels e))) (restores (leaves refl)), refl, refl)
  from_restorer leaving t run e = (_, next run (restores (leaves e)), refl, refl)
  from_restorer ended t run e = (t, run, e, refl)

  along : {s t u : Shutdown W} → Run s t → Run t u → Run s u
  along run here = run
  along run (next later st) = next (along run later) st

  -- From StartRestore on, wherever Close waits: the goroutine of StartRestore can come to its end, and
  -- lets Close go on.
  pub wait_ends :
      (s : Sys (Held W)) {t : Shutdown W}
      → Run (after_start_restore s) t
      → t.closer ≡ waiting
      → (u : Shutdown W) × Run t u × (u.closer ≡ waiting) × (u.restore_wg ≡ 0)
  wait_ends s {t} run e =
      let (u, later, over, same) = from_restorer t.restorer t here refl in
      let sound =
        Reach-Sound env box wire ping order close_server close_docker (along run later)
          (Sound-start env box wire ping order close_server close_docker s) in
      (u, later, same ∙ e, (Marks-at u ended over sound).0)
