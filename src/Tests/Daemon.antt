-- ===== src/Tests/Daemon.antt =====
-- Witnesses for the ways in which the daemon ends.
use docker_network_dhcp.Base.{◌≡◌, refl, ◌⊎◌, Bool, true, false, []}
use docker_network_dhcp.Util.Errors.{GoError, other}
use docker_network_dhcp.Util.Outcome.{err}
use docker_network_dhcp.Daemon.Main.{
  awaits, closes, exited, succeeded, failed, Daemon, at_start, constructs, notifies, launches,
  restores, serves_out, Reach, here, next,
}
use docker_network_dhcp.Daemon.Main.Exit.{IsWaiting, failed_server_noticed}

abbrev never : GoError → Bool
never e = false

-- The socket cannot be bound, while main goes on to its `<-sigs`.
abbrev unbound : Daemon
unbound = record at_start {
  main = awaits;
  construction = succeeded;
  server = failed;
  sigs = true;
  restore_started = true;
}

unbound-Reach : Reach never at_start unbound
unbound-Reach =
    next
      (next (next (next (next here (constructs refl)) (notifies refl)) (launches refl))
        (serves_out (err (other [])) refl refl))
      (restores refl)

failed_server_noticed_example :
    IsWaiting never unbound
    ⊎ ((unbound.main ≡ closes)
        ⊎ ((unbound.main ≡ exited 0) ⊎ ((unbound.main ≡ exited 2) × (unbound.panicked ≡ true))))
failed_server_noticed_example = failed_server_noticed never unbound-Reach refl

abbrev gone : Daemon
gone = record unbound { main = exited 0; sigs = false; monitor_cancelled = true }
