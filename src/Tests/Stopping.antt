-- ===== src/Tests/Stopping.antt =====
-- Witnesses for the calls of Stop and the channels of a manager.
use docker_network_dhcp.Base.{ℕ, ◌≤◌, ◌≡◌, refl, inl, Bool, true, false, none, some, [], ◌∷◌}
use docker_network_dhcp.Util.Outcome.{Outcome, ok}
use docker_network_dhcp.Plugin.Leave.{stop}
use docker_network_dhcp.Plugin.Manager.Stopping.{
  calls, awaits_v4, returns, Stopping, closes, takes_v4, here, there, moves, ends_v4, orderly,
  gives_up_v4, Way, Reach, at_start, after, callers, started,
}
use docker_network_dhcp.Plugin.Manager.Stopping.Once.{returned, stop_at_most_once}
use docker_network_dhcp.Plugin.Manager.Stopping.Result.{returns-stop}
use docker_network_dhcp.Plugin.Manager.Stopping.Live.{stop_returns}
use docker_network_dhcp.Tests.World.{sim, sim_of, the_manager}

abbrev Run : ℕ → Stopping → Type 0
Run n = Reach false (ok tt) (ok tt) (started false (ok tt) (ok tt) n)

-- Two callers: the first has taken the one result, and the second waits.
abbrev one_waits : Stopping
one_waits = record {
  channels = record {
    stop_closed = true;
    running_v4 = false;
    running_v6 = false;
    err_chan = none;
    err_chan_v6 = none;
  };
  stoppers = returns (ok tt) ∷ awaits_v4 ∷ [];
}

one_waits-Run : Run 2 one_waits
unfolding callers
one_waits-Run =
    after
      (after
        (after (after at_start (orderly (moves (here closes))))
          (orderly (moves (there (here closes)))))
        (orderly (ends_v4 refl refl refl)))
      (orderly (moves (here (takes_v4 (ok tt) refl))))

stop_at_most_once_example : returned (returns (ok tt) ∷ awaits_v4 ∷ []) ≤ 1
stop_at_most_once_example = stop_at_most_once false (ok tt) (ok tt) 2 one_waits-Run

sim_exits : (v6 : Bool) (w : ℕ) → (sim.client_exit the_manager v6 w).0 ≡ ok tt
unfolding sim sim_of
sim_exits v6 w = refl

returns-stop_example : ok tt ≡ (stop sim the_manager 0).0
returns-stop_example =
    returns-stop false (ok tt) (ok tt) sim the_manager 2 0
      (record { started = refl; has_v6 = refl; v4 = sim_exits false; v6 = sim_exits true })
      one_waits-Run (inl refl)

-- The loop has ended before the one caller has begun.
abbrev ended_early : Stopping
ended_early = record {
  channels = record {
    stop_closed = false;
    running_v4 = false;
    running_v6 = false;
    err_chan = some (ok tt);
    err_chan_v6 = none;
  };
  stoppers = calls ∷ [];
}

ended_early-Run : Run 1 ended_early
unfolding callers
ended_early-Run = after at_start (gives_up_v4 refl refl)

stop_returns_example :
    (u : Stopping) × (r : Outcome (Unit {0})) × Way false (ok tt) (ok tt) ended_early u
    × (u.stoppers ≡ returns r ∷ [])
stop_returns_example = stop_returns false (ok tt) (ok tt) ended_early-Run
