-- ===== src/Daemon/Main/Places.antt =====
-- What holds of the daemon of cmd/net-dhcp/main.go at every moment, place by place of main.
use docker_network_dhcp.Base.{
  ◌≡◌, ◌≢◌, refl, ◌⊎◌, inl, inr, Bool, true, false, if◌then◌else◌, Bool-cases,
}
use docker_network_dhcp.Util.Errors.{GoError}
use docker_network_dhcp.Util.Outcome.{Outcome, ok, err, panic}
use docker_network_dhcp.Daemon.Main.{
  Main, settles, constructed, notified, launched, awaits, closes, killed, exited, Server, not_there,
  listens, ended, failed, Daemon, at_start, server_end, after_server, after_signal, is_notified,
  is_over, Step, fails, constructs, notifies, launches, restores, receives, returns, panics,
  serves_out, signals, Reach, here, next,
}

-- A signal has come, or the server has failed.
abbrev pub HasCause : Bool → Server → Type 0
HasCause signalled server = (signalled ≡ true) ⊎ (server ≡ failed)

-- What each place of main tells of the rest.
abbrev pub AtMain : Main → Server → Bool → Bool → Bool → Type 0
AtMain settles server sigs restored signalled =
    (server ≡ not_there) × (sigs ≡ false) × (restored ≡ false)
AtMain constructed server sigs restored signalled =
    (server ≡ not_there) × (sigs ≡ false) × (restored ≡ false)
AtMain notified server sigs restored signalled =
    (server ≡ not_there) × (sigs ≡ true → signalled ≡ true) × (restored ≡ false)
AtMain launched server sigs restored signalled =
    (server ≢ not_there)
    × (sigs ≡ true → HasCause signalled server)
    × (server ≡ failed → sigs ≡ true)
AtMain awaits server sigs restored signalled =
    (server ≢ not_there)
    × (sigs ≡ true → HasCause signalled server)
    × (server ≡ failed → sigs ≡ true)
AtMain closes server sigs restored signalled = (server ≢ not_there) × HasCause signalled server
AtMain killed server sigs restored signalled = (server ≡ not_there) × (restored ≡ false)
AtMain (exited n) server sigs restored signalled =
    ((n ≡ 1) × (server ≡ not_there) × (restored ≡ false))
    ⊎ (((n ≡ 0) × (server ≢ not_there) × HasCause signalled server) ⊎ (n ≡ 2))

abbrev pub Sound : Daemon → Type 0
Sound s = AtMain s.main s.server s.sigs s.restore_started s.signalled

pub at_place :
    (s : Daemon) (m : Main)
    → s.main ≡ m
    → Sound s
    → AtMain m s.server s.sigs s.restore_started s.signalled
at_place s m e h = rw (← e) h

-- A cause that is there while the server listens is a signal.
still :
    {signalled : Bool} {server v : Server}
    → server ≡ listens
    → HasCause signalled server
    → HasCause signalled v
still e (inl s) = inl s
still e (inr f) = cc (e, f)

-- The server ends while the process is there.
server_ends :
    (m : Main) (server v : Server) (sigs restored signalled : Bool)
    → server ≡ listens
    → v ≢ not_there
    → is_over m ≡ false
    → AtMain m server sigs restored signalled
    → AtMain m v (after_server v sigs) restored signalled
server_ends settles server v sigs r g e there live h = cc (e, h.0)
server_ends constructed server v sigs r g e there live h = cc (e, h.0)
server_ends notified server v sigs r g e there live h = cc (e, h.0)
server_ends launched server failed sigs r g e there live h = (there, λ q. inr refl, λ q. refl)
server_ends launched server not_there sigs r g e there live h = absurd (there refl)
server_ends launched server listens sigs r g e there live h = rw (← e) h
server_ends launched server ended sigs r g e there live h = (there, λ q. still e (h.1 q), λ q. cc)
server_ends awaits server failed sigs r g e there live h = (there, λ q. inr refl, λ q. refl)
server_ends awaits server not_there sigs r g e there live h = absurd (there refl)
server_ends awaits server listens sigs r g e there live h = rw (← e) h
server_ends awaits server ended sigs r g e there live h = (there, λ q. still e (h.1 q), λ q. cc)
server_ends closes server v sigs r g e there live h = (there, still e h.1)
server_ends killed server v sigs r g e there live h = cc
server_ends (exited n) server v sigs r g e there live h = cc

server_end-ne :
    (is_closed : GoError → Bool) (o : Outcome (Unit {0})) → server_end is_closed o ≢ not_there
server_end-ne is_closed (ok u) = λ q. cc
server_end-ne is_closed (err e) = elim (Bool-cases (is_closed e)) [
  | inl c ↦ rw c (λ q. cc)
  | inr c ↦ rw c (λ q. cc)
]
server_end-ne is_closed panic = λ q. cc

-- A signal comes while the process is there.
signal_comes :
    (m : Main) (server : Server) (sigs restored signalled : Bool)
    → is_over m ≡ false
    → AtMain m server sigs restored signalled
    → AtMain (after_signal m) server (if is_notified m then true else sigs) restored true
signal_comes settles server sigs r g live h = (h.0, h.2)
signal_comes constructed server sigs r g live h = (h.0, h.2)
signal_comes notified server sigs r g live h = (h.0, λ q. refl, h.2)
signal_comes launched server sigs r g live h = (h.0, λ q. inl refl, λ q. refl)
signal_comes awaits server sigs r g live h = (h.0, λ q. inl refl, λ q. refl)
signal_comes closes server sigs r g live h = (h.0, inl refl)
signal_comes killed server sigs r g live h = cc
signal_comes (exited n) server sigs r g live h = cc

module _ (is_closed : GoError → Bool) where
  Step-Sound : {s t : Daemon} → Step is_closed s t → Sound s → Sound t
  Step-Sound {s} (fails e) h = let k = at_place s _ e h in inl (refl, k.0, k.2)
  Step-Sound {s} (constructs e) h = at_place s _ e h
  Step-Sound {s} (notifies e) h = let k = at_place s _ e h in (k.0, λ q. cc (k.1), k.2)
  Step-Sound {s} (launches e) h = let k = at_place s _ e h in (λ q. cc, λ q. inl (k.1 q), λ q. cc)
  Step-Sound {s} (restores e) h = at_place s _ e h
  Step-Sound {s} (receives e q) h = let k = at_place s _ e h in (k.0, k.1 q)
  Step-Sound {s} (returns e) h = let k = at_place s _ e h in inr (inl (refl, k.0, k.1))
  Step-Sound (panics live) h = inr (inr refl)
  Step-Sound {s} (serves_out o e live) h =
      server_ends s.main s.server (server_end is_closed o) s.sigs s.restore_started s.signalled e
        (server_end-ne is_closed o) live h
  Step-Sound {s} (signals live) h =
      signal_comes s.main s.server s.sigs s.restore_started s.signalled live h

  pub Reach-Sound : {t : Daemon} → Reach is_closed at_start t → Sound t
  Reach-Sound here = (refl, refl, refl)
  Reach-Sound (next r st) = Step-Sound st (Reach-Sound r)
