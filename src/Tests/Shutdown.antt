-- ===== src/Tests/Shutdown.antt =====
-- Witnesses for StartRestore and Close.
use docker_network_dhcp.Base.{
  ap, ◌≡◌, ◌≢◌, refl, ◌⊎◌, inl, inr, true, false, none, some, List, [], ◌∷◌, go, GoString-discrete,
}
use docker_network_dhcp.Base.GoMap.{lookup, insert, values}
use docker_network_dhcp.Base.Keyed.{In, SameElements}
use docker_network_dhcp.Util.Outcome.{Outcome, ok, panic, Act}
use docker_network_dhcp.Plugin.Types.{DhcpManager}
use docker_network_dhcp.Plugin.Env.{Sys}
use docker_network_dhcp.Plugin.Table.{update_entry, update_state_entry}
use docker_network_dhcp.Plugin.Leave.{stop, join_finish}
use docker_network_dhcp.Plugin.Leave.Laws.{lookup-join_finish}
use docker_network_dhcp.Plugin.Manager.Start.{Held}
use docker_network_dhcp.Plugin.Service.{stop_manager, close, fresh_plugin}
use docker_network_dhcp.Plugin.Shutdown.{
  ended, waiting, stopping, closed, Shutdown, after_start_restore, wakes, gives_up, completes,
  clears, close_both, cancels, leaves, begins, passes, stops, finishes, restores, closes, joins,
  Reach, here, next,
}
use docker_network_dhcp.Plugin.Shutdown.Waits.{IsPast, close_waits}
use docker_network_dhcp.Plugin.Shutdown.Completes.{HasReturned}
use docker_network_dhcp.Plugin.Shutdown.Stops.{close_stops}
use docker_network_dhcp.Plugin.Shutdown.Ends.{Alone, close_returns, close_misses_join}
use docker_network_dhcp.Tests.World.{World, the_manager, endpoint_id}
use docker_network_dhcp.Tests.Sandbox.{box, held_sim}
use docker_network_dhcp.Tests.Service.{wire, no_docker, started}

abbrev in_order : List DhcpManager → List DhcpManager
in_order ms = ms

abbrev quits : Act (Held World) (Unit {0})
quits h = (ok tt, h)

abbrev Run : Shutdown World → Shutdown World → Type 0
Run = Reach held_sim box wire no_docker in_order quits quits

-- A Join has come to its end, and Close has begun.
abbrev joined_sys : Sys (Held World)
joined_sys = join_finish held_sim endpoint_id (ok the_manager) started

abbrev begun_state : Shutdown World
begun_state = record (after_start_restore joined_sys) {
  joined = the_manager ∷ [];
  closer = waiting;
  cancelled = true;
}

begun_state-Run : Run (after_start_restore started) begun_state
begun_state-Run = next (next here (joins endpoint_id (ok the_manager))) (closes (begins refl))

close_returns_example :
    (u : Shutdown World) × (v : Shutdown World) × (done : List DhcpManager) × Run begun_state u
    × Alone held_sim box wire no_docker in_order quits quits u v
    × (v.closer ≡ closed done (close held_sim box in_order quits quits u.sys).0)
    × (v.sys ≡ (close held_sim box in_order quits quits u.sys).1)
    × ((m : DhcpManager) → In m done → In m (in_order (values u.sys.plugin.persistent_dhcp)))
close_returns_example =
    close_returns held_sim box wire no_docker in_order quits quits started begun_state-Run refl

-- The goroutine of StartRestore sees that its context has ended.
abbrev restore_over : Shutdown World
restore_over = record begun_state {
  restorer = ended;
  restore_cancel = false;
  restore_complete = true;
  restore_wg = 0;
}

restore_over-Run : Run (after_start_restore started) restore_over
unfolding join_finish update_state_entry update_entry held_sim insert lookup values
    GoString-discrete go fresh_plugin
restore_over-Run =
    next
      (next
        (next
          (next
            (next (next begun_state-Run (restores (wakes refl))) (restores (gives_up refl refl)))
            (restores (completes refl)))
          (restores (clears refl)))
        (restores (cancels refl)))
      (restores (leaves refl))

-- Close stops the one manager that there is.
abbrev down : Shutdown World
down = record restore_over {
  sys = record joined_sys { world = (stop_manager held_sim box the_manager joined_sys.world).1 };
  closer = closed (the_manager ∷ []) (ok tt);
  joined = [];
}

down-Run : Run (after_start_restore started) down
unfolding join_finish update_state_entry update_entry held_sim insert lookup values
    GoString-discrete go stop_manager stop fresh_plugin close_both
down-Run =
    next
      (next (next restore_over-Run (closes (passes refl refl)))
        (closes (stops {before = []} {ms = []} {m = the_manager} refl)))
      (closes (finishes {before = the_manager ∷ []} refl))

close_waits_example :
    (IsPast down.closer → (down.restorer ≡ ended) × (down.restore_cancel ≡ false))
    × (down.restore_complete ≡ true
        → HasReturned held_sim box wire no_docker in_order quits quits
            (after_start_restore started)
            down)
close_waits_example = close_waits held_sim box wire no_docker in_order quits quits started down-Run

registered : lookup endpoint_id down.sys.plugin.persistent_dhcp ≡ some the_manager
unfolding fresh_plugin lookup
registered = lookup-join_finish held_sim endpoint_id the_manager started refl

same_order : (ms : List DhcpManager) → SameElements (in_order ms) ms
same_order ms m = (λ i. i, λ i. i)

abbrev done : Outcome (Unit {0})
done = ok tt

not_panic : done ≢ panic
not_panic = λ q. cc

close_stops_example : In the_manager (the_manager ∷ []) ⊎ In the_manager []
close_stops_example =
    close_stops held_sim box wire no_docker in_order quits quits started (the_manager ∷ []) (ok tt)
      same_order down-Run refl not_panic endpoint_id the_manager registered

-- The manager of another endpoint.
abbrev late : DhcpManager
late = record the_manager { hostname = []; primed = false }

abbrev among : Shutdown World
among = record restore_over { closer = stopping [] (the_manager ∷ []); joined = [] }

late_fresh : ¬ In late (the_manager ∷ [])
late_fresh (inl e) = cc (ap (λ (m : DhcpManager). m.primed) e)
late_fresh (inr i) = elim i [ ]

no_mark : lookup (go "late") among.sys.plugin.left_endpoints ≡ none
unfolding join_finish update_state_entry update_entry lookup fresh_plugin GoString-discrete go
no_mark = refl

close_misses_join_example :
    (u : Shutdown World) × (done : List DhcpManager) × (r : Outcome (Unit {0})) × Run among u
    × (u.closer ≡ closed done r)
    × (lookup (go "late") u.sys.plugin.persistent_dhcp ≡ some late)
    × ¬ In late done
close_misses_join_example =
    close_misses_join held_sim box wire no_docker in_order quits quits among [] (the_manager ∷ [])
      (go "late") late refl no_mark late_fresh
