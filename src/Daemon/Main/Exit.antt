-- ===== src/Daemon/Main/Exit.antt =====
-- How the daemon of cmd/net-dhcp/main.go ends.
use docker_network_dhcp.Base.{ℕ, ◌≡◌, ◌≢◌, refl, ap, ◌∙◌, ◌⊎◌, inl, inr, Bool, true, false, arith}
use docker_network_dhcp.Util.Errors.{GoError}
use docker_network_dhcp.Daemon.Main.{
  Main, settles, constructed, notified, launched, awaits, closes, killed, exited, Construction,
  pending, refused, succeeded, not_there, failed, Daemon, at_start, after_signal, is_over, Step,
  fails, constructs, notifies, launches, restores, receives, returns, panics, serves_out, signals,
  Reach, here, next,
}
use docker_network_dhcp.Daemon.Main.Places.{HasCause, AtMain, at_place, Reach-Sound}

-- What each place of main tells of NewPlugin and of panics.
abbrev AtPlugin : Main → Construction → Bool → Type 0
AtPlugin settles c p = (c ≡ pending) × (p ≡ false)
AtPlugin killed c p = p ≡ false
AtPlugin (exited n) c p =
    ((n ≡ 1) × (c ≡ refused) × (p ≡ false))
    ⊎ (((n ≡ 0) × (c ≡ succeeded) × (p ≡ false)) ⊎ ((n ≡ 2) × (p ≡ true)))
AtPlugin _ c p = (c ≡ succeeded) × (p ≡ false)

abbrev Built : Daemon → Type 0
Built s = AtPlugin s.main s.construction s.panicked

module _ (is_closed : GoError → Bool) where
  result_at : (s : Daemon) (m : Main) → s.main ≡ m → Built s → AtPlugin m s.construction s.panicked
  result_at s m e h = rw (← e) h

  built_signal :
      (m : Main) (c : Construction) (p : Bool)
      → is_over m ≡ false
      → AtPlugin m c p
      → AtPlugin (after_signal m) c p
  built_signal settles c p live h = h.1
  built_signal constructed c p live h = h.1
  built_signal notified c p live h = h
  built_signal launched c p live h = h
  built_signal awaits c p live h = h
  built_signal closes c p live h = h
  built_signal killed c p live h = cc
  built_signal (exited n) c p live h = cc

  Step-Built : {s t : Daemon} → Step is_closed s t → Built s → Built t
  Step-Built {s} (fails e) h = inl (refl, refl, (result_at s _ e h).1)
  Step-Built {s} (constructs e) h = (refl, (result_at s _ e h).1)
  Step-Built {s} (notifies e) h = result_at s _ e h
  Step-Built {s} (launches e) h = result_at s _ e h
  Step-Built {s} (restores e) h = result_at s _ e h
  Step-Built {s} (receives e q) h = result_at s _ e h
  Step-Built {s} (returns e) h = let k = result_at s _ e h in inr (inl (refl, k.0, k.1))
  Step-Built (panics live) h = inr (inr (refl, refl))
  Step-Built (serves_out o e live) h = h
  Step-Built {s} (signals live) h = built_signal s.main s.construction s.panicked live h

  Reach-Built : {t : Daemon} → Reach is_closed at_start t → Built t
  Reach-Built here = (refl, refl)
  Reach-Built (next r st) = Step-Built st (Reach-Built r)

  -- The three ways out of the process, by its status.
  abbrev pub HasExited : ℕ → Daemon → Type 0
  HasExited n t =
      ((n ≡ 1) × (t.construction ≡ refused) × (t.server ≡ not_there) × (t.restore_started ≡ false))
      ⊎ (((n ≡ 0)
            × (t.construction ≡ succeeded)
            × (t.server ≢ not_there)
            × HasCause t.signalled t.server)
          ⊎ ((n ≡ 2) × (t.panicked ≡ true)))

  pub exit_cause :
      {t : Daemon} (n : ℕ) → Reach is_closed at_start t → t.main ≡ exited n → HasExited n t
  exit_cause {t} n run e =
      both (at_place t (exited n) e (Reach-Sound is_closed run))
        (result_at t (exited n) e (Reach-Built run))
    where
      both :
          AtMain (exited n) t.server t.sigs t.restore_started t.signalled
          → AtPlugin (exited n) t.construction t.panicked
          → HasExited n t
      both (inl (a, b, c)) (inl (_, r, _)) = inl (a, r, b, c)
      both (inl (a, b, c)) (inr (inl (z, _, _))) = absurd (omega (arith, a, z))
      both (inl (a, b, c)) (inr (inr (z, _))) = absurd (omega (arith, a, z))
      both (inr (inl (a, b, c))) (inl (z, _, _)) = absurd (omega (arith, a, z))
      both (inr (inl (a, b, c))) (inr (inl (_, r, _))) = inr (inl (a, r, b, c))
      both (inr (inl (a, b, c))) (inr (inr (z, _))) = absurd (omega (arith, a, z))
      both (inr (inr a)) (inl (z, _, _)) = absurd (omega (arith, a, z))
      both (inr (inr a)) (inr (inl (z, _, _))) = absurd (omega (arith, a, z))
      both (inr (inr a)) (inr (inr (z, q))) = inr (inr (z, q))

  -- Main is between its start of the server and its `<-sigs`, which a signal in `sigs` lets it pass.
  abbrev pub IsWaiting : Daemon → Type 0
  IsWaiting t = ((t.main ≡ launched) ⊎ (t.main ≡ awaits)) × (t.sigs ≡ true)

  -- In whatever order main, its server and the signals move: a server that has failed is never left
  -- unnoticed. As long as main has not passed its `<-sigs` there is a signal in `sigs` for it; and
  -- otherwise main is in Close, or the process has exited, with status 0 or, after a panic, 2.
  pub failed_server_noticed :
      {t : Daemon}
      → Reach is_closed at_start t
      → t.server ≡ failed
      → IsWaiting t
        ⊎ ((t.main ≡ closes) ⊎ ((t.main ≡ exited 0) ⊎ ((t.main ≡ exited 2) × (t.panicked ≡ true))))
  failed_server_noticed {t} run f = from_main t.main refl (Reach-Sound is_closed run)
    where
      out :
          (n : ℕ)
          → t.main ≡ exited n
          → HasExited n t
          → (t.main ≡ exited 0) ⊎ ((t.main ≡ exited 2) × (t.panicked ≡ true))
      out n e (inl (_, _, none, _)) = cc (f, none)
      out n e (inr (inl (z, _, _, _))) = inl (e ∙ ap (λ (k : ℕ). exited k) z)
      out n e (inr (inr (z, p))) = inr (e ∙ ap (λ (k : ℕ). exited k) z, p)

      from_main :
          (m : Main)
          → t.main ≡ m
          → AtMain m t.server t.sigs t.restore_started t.signalled
          → IsWaiting t
            ⊎ ((t.main ≡ closes)
                ⊎ ((t.main ≡ exited 0) ⊎ ((t.main ≡ exited 2) × (t.panicked ≡ true))))
      from_main settles e h = cc (f, h.0)
      from_main constructed e h = cc (f, h.0)
      from_main notified e h = cc (f, h.0)
      from_main launched e h = inl (inl e, h.2 f)
      from_main awaits e h = inl (inr e, h.2 f)
      from_main closes e h = inr (inl e)
      from_main killed e h = cc (f, h.0)
      from_main (exited n) e h = inr (inr (out n e (exit_cause n run e)))
