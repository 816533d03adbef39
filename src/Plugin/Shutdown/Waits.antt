-- ===== src/Plugin/Shutdown/Waits.antt =====
-- What Close can rely on behind its Wait.
use docker_network_dhcp.Base.{ℕ, ◌≡◌, ◌≢◌, refl, sym, ◌∙◌, Bool, true, false, List, arith}
use docker_network_dhcp.Util.Outcome.{Outcome, ok, err, panic, Act}
use docker_network_dhcp.Plugin.State.{EndpointState}
use docker_network_dhcp.Plugin.Types.{DhcpManager}
use docker_network_dhcp.Plugin.Env.{Env, Sys}
use docker_network_dhcp.Plugin.Manager.Start.{Held, Sandbox}
use docker_network_dhcp.Plugin.Api.{Wire}
use docker_network_dhcp.Plugin.Shutdown.Completes.{HasReturned, Reach-HasReturned}
use docker_network_dhcp.Plugin.Shutdown.{
  Restorer, sleeping, returned, clearing, cancelling, leaving, ended, between, at, Closer, running,
  waiting, stopping, closed, Shutdown, after_start_restore, after_attempt, Restores, wakes, takes,
  finds, fails, registers, drops, gives_up, gives_up_retry, comes_to_end, panics, completes, clears,
  cancels, leaves, Closes, begins, passes, stops, finishes, Step, restores, closes, expires, served,
  begun, joins, moved, Reach, here, next,
}

-- What the goroutine has done to restoreWg, restoreCancel and restoreComplete by then.
abbrev pub Marks : Restorer → ℕ → Bool → Bool → Type 0
Marks ended wg cancel complete = (wg ≡ 0) × (cancel ≡ false)
Marks leaving wg cancel complete = (wg ≡ 1) × (cancel ≡ false)
Marks cancelling wg cancel complete = (wg ≡ 1) × (cancel ≡ false)
Marks clearing wg cancel complete = (wg ≡ 1) × (cancel ≡ true)
Marks _ wg cancel complete = (wg ≡ 1) × (cancel ≡ true) × (complete ≡ false)

-- Is Close behind its Wait?
abbrev pub IsPast : Closer → Type 0
IsPast running = ⊥
IsPast waiting = ⊥
IsPast (stopping before ms) = Unit
IsPast (closed before r) = Unit

module _ {W : Type 0} where
  pub record Sound (s : Shutdown W) : Type 0 where
    pub marks : Marks s.restorer s.restore_wg s.restore_cancel s.restore_complete
    pub past : IsPast s.closer → s.restorer ≡ ended

  -- The goroutine is not at its end, and so Close is not behind its Wait.
  still :
      {A : Type 0} (s : Shutdown W) (r : Restorer)
      → s.restorer ≡ r
      → r ≢ ended
      → Sound s
      → IsPast s.closer
      → A
  still s r e other h p = absurd (other (sym e ∙ h.past p))

  pub Marks-at :
      (s : Shutdown W) (r : Restorer)
      → s.restorer ≡ r
      → Sound s
      → Marks r s.restore_wg s.restore_cancel s.restore_complete
  Marks-at s r e h = rw (← e) h.marks

module _ {W : Type 0} (env : Env (Held W)) (box : Sandbox W) where
  Marks-after_attempt :
      (n : ℕ) (e : EndpointState) (es : List EndpointState) (o : Outcome (Unit {0})) {wg : ℕ}
      {cancel complete : Bool}
      → Marks (at n e es) wg cancel complete
      → Marks (after_attempt n e es o) wg cancel complete
  Marks-after_attempt n e es (ok u) h = h
  Marks-after_attempt n e es (err x) h = h
  Marks-after_attempt n e es panic h = (h.0, h.1)

  Restores-Sound : {s t : Shutdown W} → Restores env box s t → Sound s → Sound t
  Restores-Sound {s} (wakes e) h = record {
    marks = Marks-at s _ e h;
    past = still s _ e (λ q. cc) h;
  }
  Restores-Sound {s} (takes e c) h = record {
    marks = Marks-at s _ e h;
    past = still s _ e (λ q. cc) h;
  }
  Restores-Sound {s} (finds m e f) h = record {
    marks = Marks-at s _ e h;
    past = still s _ e (λ q. cc) h;
  }
  Restores-Sound {s} (fails w e) h = record {
    marks = Marks-at s _ e h;
    past = still s _ e (λ q. cc) h;
  }
  Restores-Sound {s} (registers {n} {e = x} {es} m e) h = record {
    marks = Marks-after_attempt n x es _ (Marks-at s _ e h);
    past = still s _ e (λ q. cc) h;
  }
  Restores-Sound {s} (drops e) h = record {
    marks = Marks-at s _ e h;
    past = still s _ e (λ q. cc) h;
  }
  Restores-Sound {s} (gives_up e c) h = record {
    marks = Marks-at s _ e h;
    past = still s _ e (λ q. cc) h;
  }
  Restores-Sound {s} (gives_up_retry e l c) h = record {
    marks = Marks-at s _ e h;
    past = still s _ e (λ q. cc) h;
  }
  Restores-Sound {s} (comes_to_end e) h = record {
    marks = Marks-at s _ e h;
    past = still s _ e (λ q. cc) h;
  }
  Restores-Sound {s} (panics e) h =
      let m = Marks-at s _ e h in record { marks = (m.0, m.1); past = still s _ e (λ q. cc) h }
  Restores-Sound {s} (completes e) h =
      let m = Marks-at s _ e h in record { marks = (m.0, m.1); past = still s _ e (λ q. cc) h }
  Restores-Sound {s} (clears e) h =
      let m = Marks-at s _ e h in record { marks = (m.0, refl); past = still s _ e (λ q. cc) h }
  Restores-Sound {s} (cancels e) h = record {
    marks = Marks-at s _ e h;
    past = still s _ e (λ q. cc) h;
  }
  Restores-Sound {s} (leaves e) h =
      let m = Marks-at s _ e h in record { marks = (omega (arith, m.0), m.1); past = λ p. refl }

  -- Only a goroutine that has ended leaves restoreWg at 0.
  at_zero :
      (r : Restorer) {wg : ℕ} (cancel complete : Bool)
      → Marks r wg cancel complete
      → wg ≡ 0
      → r ≡ ended
  at_zero sleeping c d m z = absurd (omega (arith, m.0))
  at_zero returned c d m z = absurd (omega (arith, m.0))
  at_zero clearing c d m z = absurd (omega (arith, m.0))
  at_zero cancelling c d m z = absurd (omega (arith, m.0))
  at_zero leaving c d m z = absurd (omega (arith, m.0))
  at_zero ended c d m z = refl
  at_zero (between es) c d m z = absurd (omega (arith, m.0))
  at_zero (at n e es) c d m z = absurd (omega (arith, m.0))

  past_at : (s : Shutdown W) (c : Closer) → s.closer ≡ c → IsPast c → Sound s → s.restorer ≡ ended
  past_at s c e p h = h.past (rw e p)

module _ {W : Type 0} (env : Env (Held W)) (box : Sandbox W) (wire : Wire)
    (ping : Act (Held W) (Unit {0})) (order : List DhcpManager → List DhcpManager)
    (close_server close_docker : Act (Held W) (Unit {0})) where
  Closes-Sound :
      {s t : Shutdown W} → Closes env box order close_server close_docker s t → Sound s → Sound t
  Closes-Sound {s} (begins e) h = record { marks = h.marks; past = λ p. absurd p }
  Closes-Sound {s} (passes e z) h = record {
    marks = h.marks;
    past = λ p. at_zero env box s.restorer _ _ h.marks z;
  }
  Closes-Sound {s} (stops e) h = record { marks = h.marks; past = λ p. past_at env box s _ e tt h }
  Closes-Sound {s} (finishes e) h = record {
    marks = h.marks;
    past = λ p. past_at env box s _ e tt h;
  }

  pub Step-Sound :
      {s t : Shutdown W}
      → Step env box wire ping order close_server close_docker s t
      → Sound s
      → Sound t
  Step-Sound (restores r) h = Restores-Sound env box r h
  Step-Sound (closes c) h = Closes-Sound c h
  Step-Sound expires h = record { marks = h.marks; past = h.past }
  Step-Sound (served path body w) h = record { marks = h.marks; past = h.past }
  Step-Sound (begun id ctx) h = record { marks = h.marks; past = h.past }
  Step-Sound (joins id o) h = record { marks = h.marks; past = h.past }
  Step-Sound (moved w) h = record { marks = h.marks; past = h.past }

  pub Reach-Sound :
      {s t : Shutdown W}
      → Reach env box wire ping order close_server close_docker s t
      → Sound s
      → Sound t
  Reach-Sound here h = h
  Reach-Sound (next r st) h = Step-Sound st (Reach-Sound r h)

  pub Sound-start : (s : Sys (Held W)) → Sound (after_start_restore s)
  Sound-start s = record { marks = (refl, refl, refl); past = λ p. absurd p }

  -- From StartRestore on, whatever requests and Joins come between: once Close is behind its Wait the
  -- goroutine of StartRestore has ended and its restoreCancel is cleared; and restoreComplete, which
  -- the health check reports, is set only where Restore has returned before, so not after a panic.
  pub close_waits :
      (s : Sys (Held W)) {t : Shutdown W}
      → Reach env box wire ping order close_server close_docker (after_start_restore s) t
      → (IsPast t.closer → (t.restorer ≡ ended) × (t.restore_cancel ≡ false))
        × (t.restore_complete ≡ true
            → HasReturned env box wire ping order close_server close_docker
                (after_start_restore s)
                t)
  close_waits s {t} run =
      let h = Reach-Sound run (Sound-start s) in
      (
        λ p. (h.past p, cleared t.restorer _ _ _ (h.past p) h.marks),
        Reach-HasReturned env box wire ping order close_server close_docker run refl,
      )
    where
      cleared :
          (r : Restorer) (wg : ℕ) (cancel complete : Bool)
          → r ≡ ended
          → Marks r wg cancel complete
          → cancel ≡ false
      cleared r n c d e m = (rw e at m).1
