-- ===== src/Plugin/Shutdown/Completes.antt =====
-- When restoreComplete is set (pkg/plugin/plugin.go).
use docker_network_dhcp.Base.{◌≡◌, ◌⊎◌, inl, inr, refl, sym, ◌∙◌, true, false, List}
use docker_network_dhcp.Util.Outcome.{Act}
use docker_network_dhcp.Plugin.Types.{DhcpManager}
use docker_network_dhcp.Plugin.Env.{Env}
use docker_network_dhcp.Plugin.Manager.Start.{Held, Sandbox}
use docker_network_dhcp.Plugin.Api.{Wire}
use docker_network_dhcp.Plugin.Shutdown.{
  returned, Shutdown, Restores, wakes, takes, finds, fails, registers, drops, gives_up,
  gives_up_retry, comes_to_end, panics, completes, clears, cancels, leaves, Closes, begins, passes,
  stops, finishes, Step, restores, closes, expires, served, begun, joins, moved, Reach, here, next,
}

module _ {W : Type 0} (env : Env (Held W)) (box : Sandbox W) (wire : Wire)
    (ping : Act (Held W) (Unit {0})) (order : List DhcpManager → List DhcpManager)
    (close_server close_docker : Act (Held W) (Unit {0})) where
  Restores-completes :
      {s t : Shutdown W}
      → Restores env box s t
      → t.restore_complete ≡ true
      → (s.restore_complete ≡ true) ⊎ (s.restorer ≡ returned)
  Restores-completes (wakes e) q = inl q
  Restores-completes (takes e c) q = inl q
  Restores-completes (finds m e f) q = inl q
  Restores-completes (fails w e) q = inl q
  Restores-completes (registers m e) q = inl q
  Restores-completes (drops e) q = inl q
  Restores-completes (gives_up e c) q = inl q
  Restores-completes (gives_up_retry e l c) q = inl q
  Restores-completes (comes_to_end e) q = inl q
  Restores-completes (panics e) q = inl q
  Restores-completes (completes e) q = inr e
  Restores-completes (clears e) q = inl q
  Restores-completes (cancels e) q = inl q
  Restores-completes (leaves e) q = inl q

  Closes-completes :
      {s t : Shutdown W}
      → Closes env box order close_server close_docker s t
      → t.restore_complete ≡ s.restore_complete
  Closes-completes (begins e) = refl
  Closes-completes (passes e z) = refl
  Closes-completes (stops e) = refl
  Closes-completes (finishes e) = refl

  Step-completes :
      {s t : Shutdown W}
      → Step env box wire ping order close_server close_docker s t
      → t.restore_complete ≡ true
      → (s.restore_complete ≡ true) ⊎ (s.restorer ≡ returned)
  Step-completes (restores r) q = Restores-completes r q
  Step-completes (closes c) q = inl (sym (Closes-completes c) ∙ q)
  Step-completes expires q = inl q
  Step-completes (served path body w) q = inl q
  Step-completes (begun id ctx) q = inl q
  Step-completes (joins id o) q = inl q
  Step-completes (moved w) q = inl q

  -- On the way from `s` to `t` Restore has returned, without a panic.
  abbrev pub HasReturned : Shutdown W → Shutdown W → Type 0
  HasReturned s t =
      (u : Shutdown W) × Reach env box wire ping order close_server close_docker s u
      × (u.restorer ≡ returned)
      × Reach env box wire ping order close_server close_docker u t

  pub Reach-HasReturned :
      {s t : Shutdown W}
      → Reach env box wire ping order close_server close_docker s t
      → s.restore_complete ≡ false
      → t.restore_complete ≡ true
      → HasReturned s t
  Reach-HasReturned here f q = cc (f, q)
  Reach-HasReturned {s} (next {t = u} r st) f q =
      let before = λ (c : u.restore_complete ≡ true). Reach-HasReturned r f c in
      elim (Step-completes st q) [
        | inl c ↦ let (v, a, e, b) = before c in (v, a, e, next b st)
        | inr e ↦ (u, r, e, next here st)
      ]
