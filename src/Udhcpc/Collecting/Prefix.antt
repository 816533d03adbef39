-- ===== src/Udhcpc/Collecting/Prefix.antt =====
-- What GetIP returns, over its goroutines.
use docker_network_dhcp.Base.{◌≡◌, refl, true, some, [], ◌∷◌, GoString}
use docker_network_dhcp.Util.Errors.{sentinel, err_no_lease}
use docker_network_dhcp.Util.Outcome.{Outcome, ok, err}
use docker_network_dhcp.Plugin.Env.{Info}
use docker_network_dhcp.Plugin.Manager.{Event}
use docker_network_dhcp.Udhcpc.{is_lease, collect, get_ip}
use docker_network_dhcp.Udhcpc.Pipe.{scan}
use docker_network_dhcp.Udhcpc.Collecting.{
  returned, Collecting, at_start, writes, exits, is_told, finishes, returns, Reach, here, next,
}
use docker_network_dhcp.Udhcpc.Collecting.Invariant.{IsResult, at_getter, Reach-Sound}

module _ (decode : GoString → Outcome Event) where
  -- In whatever order the process, the two goroutines and GetIP move: what GetIP returns is what it
  -- returns over the events of a first part of the lines that the process has written, with the exit of
  -- the process or the error of the context.
  pub returned-get_ip :
      {t : Collecting} (r : Outcome Info)
      → Reach decode at_start t
      → t.getter ≡ returned r
      → IsResult decode r t.written t.exit
  returned-get_ip {t} r run e = at_getter decode t (returned r) e (Reach-Sound decode run)

  -- A lease can be lost: the process writes one line and exits well, Wait closes the pipe before the
  -- line is read, and GetIP returns that there is no lease, although the line carries one.
  pub get_ip_loses :
      (l : GoString) (e : Event)
      → decode l ≡ ok e
      → is_lease e ≡ true
      → (t : Collecting) × Reach decode at_start t
        × (t.written ≡ l ∷ [])
        × (t.exit ≡ some (ok tt))
        × (t.getter ≡ returned (err (sentinel err_no_lease)))
        × (get_ip (ok tt) (scan decode t.written) ≡ ok e.info)
  unfolding get_ip collect scan
  get_ip_loses l e d lease = (
    _,
    next
        (next
          (next (next (next here (writes l refl)) (exits (ok tt) refl))
            (finishes [] (l ∷ []) refl refl refl))
          (is_told refl))
        (returns refl refl),
    refl,
    refl,
    refl,
    rw d (rw lease refl),
  )
