-- ===== src/Plugin/Shutdown/Ends.antt =====
-- Close left to itself, and a Join that it misses.
use docker_network_dhcp.Base.{
  ◌≡◌, refl, ap, inl, inr, none, some, List, [], ◌∷◌, ◌++◌, GoString, go, append-nil, append_assoc,
}
use docker_network_dhcp.Base.GoMap.{lookup, values}
use docker_network_dhcp.Base.Keyed.{In}
use docker_network_dhcp.Util.Outcome.{Outcome, ok, err, panic, Act, wrapping, ◌>>◌}
use docker_network_dhcp.Plugin.Types.{DhcpManager}
use docker_network_dhcp.Plugin.Env.{Env, Sys}
use docker_network_dhcp.Plugin.Leave.{join_finish}
use docker_network_dhcp.Plugin.Leave.Laws.{lookup-join_finish}
use docker_network_dhcp.Plugin.Manager.Start.{Held, Sandbox}
use docker_network_dhcp.Plugin.Api.{Wire}
use docker_network_dhcp.Plugin.Service.{stop_manager, stop_all, close}
use docker_network_dhcp.Plugin.Shutdown.Runs.{wait_ends}
use docker_network_dhcp.Plugin.Shutdown.{
  after_start_restore, waiting, stopping, closed, Shutdown, Closes, and_joined, after_stop,
  close_both, passes, stops, finishes, closes, joins, Reach, here, next,
}

In-append : {A : Type 0} (xs ys : List A) (x : A) → In x xs → In x (xs ++ ys)
In-append [] ys x i = elim i [ ]
In-append (y ∷ xs) ys x (inl e) = inl e
In-append (y ∷ xs) ys x (inr i) = inr (In-append xs ys x i)

module _ {W : Type 0} (env : Env (Held W)) (box : Sandbox W) (wire : Wire)
    (ping : Act (Held W) (Unit {0})) (order : List DhcpManager → List DhcpManager)
    (close_server close_docker : Act (Held W) (Unit {0})) where
  abbrev Run : Shutdown W → Shutdown W → Type 0
  Run = Reach env box wire ping order close_server close_docker

  -- Nothing moves but Close.
  pub data Alone (s : Shutdown W) : Shutdown W → Type 0 where
    so_far : Alone s s
    then_closes :
        {t u : Shutdown W}
        → Alone s t
        → Closes env box order close_server close_docker t u
        → Alone s u

  Run-Alone : {s t u : Shutdown W} → Run s t → Alone t u → Run s u
  Run-Alone r so_far = r
  Run-Alone r (then_closes a c) = next (Run-Alone r a) (closes c)

  -- Close among the managers of its snapshot, with what the rest of it comes to.
  rest_of : List DhcpManager → Act (Held W) (Unit {0})
  rest_of ms =
      stop_all env box ms
      >> wrapping (go "failed to close http server") close_server
      >> wrapping (go "failed to close docker client") close_docker

  abbrev ClosesAt :
      Shutdown W → List DhcpManager → Shutdown W → Outcome (Unit {0}) × Held W → Type 0
  ClosesAt s snapshot t (o, w) =
      (u : Shutdown W) × (done : List DhcpManager) × Alone s u
      × (u.closer ≡ closed done o)
      × (u.sys ≡ record t.sys { world = w })
      × ((x : DhcpManager) → In x done → In x snapshot)

  -- One manager more: its error is only logged, and a panic ends Close.
  abbrev go_on : List DhcpManager → Outcome (Unit {0}) → Held W → Outcome (Unit {0}) × Held W
  go_on ms (ok u) w = rest_of ms w
  go_on ms (err e) w = rest_of ms w
  go_on ms panic w = (panic, w)

  rest_of-cons :
      (m : DhcpManager) (ms : List DhcpManager) (o : Outcome (Unit {0})) (v w : Held W)
      → stop_manager env box m v ≡ (o, w)
      → rest_of (m ∷ ms) v ≡ go_on ms o w
  unfolding rest_of stop_all
  rest_of-cons m ms (ok u) v w e = rw e refl
  rest_of-cons m ms (err x) v w e = rw e refl
  rest_of-cons m ms panic v w e = rw e refl

  moved_on :
      {s : Shutdown W} (snapshot snapshot' : List DhcpManager) (t t' : Shutdown W)
      (r : Outcome (Unit {0}) × Held W)
      → snapshot' ≡ snapshot
      → t'.sys.plugin ≡ t.sys.plugin
      → ClosesAt s snapshot' t' r
      → ClosesAt s snapshot t r
  moved_on snapshot snapshot' t t' r e p (u, done, run, c, same, all) =
      (u, done, run, c, rw (← p) same, λ x i. rw (← e) (all x i))

  -- The state behind one Stop.
  abbrev stopped_one : Shutdown W → List DhcpManager → DhcpManager → List DhcpManager → Shutdown W
  stopped_one t before m ms = record t {
    sys = record t.sys { world = (stop_manager env box m t.sys.world).1 };
    closer = after_stop before m ms (stop_manager env box m t.sys.world).0;
  }

  after_one :
      {s : Shutdown W} (ms before : List DhcpManager) (m : DhcpManager) (t : Shutdown W)
      (o : Outcome (Unit {0}))
      → Alone s (stopped_one t before m ms)
      → (stop_manager env box m t.sys.world).0 ≡ o
      → ((t' : Shutdown W)
          → Alone s t'
          → t'.closer ≡ stopping (before ++ (m ∷ [])) ms
          → ClosesAt s ((before ++ (m ∷ [])) ++ ms) t' (rest_of ms t'.sys.world))
      → ClosesAt s (before ++ (m ∷ ms)) t (go_on ms o (stop_manager env box m t.sys.world).1)
  after_one ms before m t (ok u) run q later =
      moved_on _ _ t (stopped_one t before m ms) _ (append_assoc before (m ∷ []) ms) refl
        (later (stopped_one t before m ms) run (ap (after_stop before m ms) q))
  after_one ms before m t (err e) run q later =
      moved_on _ _ t (stopped_one t before m ms) _ (append_assoc before (m ∷ []) ms) refl
        (later (stopped_one t before m ms) run (ap (after_stop before m ms) q))
  after_one ms before m t panic run q later = (
    stopped_one t before m ms,
    before,
    run,
    ap (after_stop before m ms) q,
    refl,
    λ x i. In-append before (m ∷ ms) x i,
  )

  from_stopping :
      {s : Shutdown W} (ms before : List DhcpManager) (t : Shutdown W)
      → Alone s t
      → t.closer ≡ stopping before ms
      → ClosesAt s (before ++ ms) t (rest_of ms t.sys.world)
  unfolding rest_of stop_all close_both
  from_stopping [] before t run e =
      (_, before, then_closes run (finishes e), refl, refl, λ x i. rw (append-nil before) i)
  from_stopping (m ∷ ms) before t run e =
      rw (rest_of-cons m ms (stop_manager env box m t.sys.world).0 t.sys.world _ refl) (
        after_one ms before m t _ (then_closes run (stops e)) refl
          (from_stopping ms (before ++ (m ∷ []))))

  -- Left to itself, Close comes to the result and the state that `close` gives, and stops no manager
  -- that is not in its snapshot.
  close-Reach :
      (t : Shutdown W)
      → t.closer ≡ waiting
      → t.restore_wg ≡ 0
      → (u : Shutdown W) × (done : List DhcpManager) × Alone t u
        × (u.closer ≡ closed done (close env box order close_server close_docker t.sys).0)
        × (u.sys ≡ (close env box order close_server close_docker t.sys).1)
        × ((m : DhcpManager) → In m done → In m (order (values t.sys.plugin.persistent_dhcp)))
  unfolding rest_of close
  close-Reach t e z = from_stopping _ [] _ (then_closes so_far (passes e z)) refl

  -- From StartRestore on, wherever Close waits and whatever has come between, it does not wait for
  -- ever: Restore can come to its end, and from there the steps of Close alone lead to the result and the
  -- state that `close` gives, and stops no manager that is not in the table at that moment.
  pub close_returns :
      (s : Sys (Held W)) {t : Shutdown W}
      → Run (after_start_restore s) t
      → t.closer ≡ waiting
      → (u : Shutdown W) × (v : Shutdown W) × (done : List DhcpManager) × Run t u
        × Alone u v
        × (v.closer ≡ closed done (close env box order close_server close_docker u.sys).0)
        × (v.sys ≡ (close env box order close_server close_docker u.sys).1)
        × ((m : DhcpManager) → In m done → In m (order (values u.sys.plugin.persistent_dhcp)))
  close_returns s run e =
      let (u, later, waits, free) =
        wait_ends env box wire ping order close_server close_docker s run e in
      let (v, done, rest, result, state, all) = close-Reach u waits free in
      (u, v, done, later, rest, result, state, all)

  abbrev after_join : Shutdown W → GoString → DhcpManager → Shutdown W
  after_join t id m = record t {
    sys = join_finish env id (ok m) t.sys;
    joined = and_joined (ok m) t.joined;
  }

  -- A goroutine of Join that comes to its end while Close is among the managers of its snapshot, for an
  -- endpoint that has not left, puts a manager into the table that Close leaves there without stopping
  -- it.
  pub close_misses_join :
      (t : Shutdown W) (before ms : List DhcpManager) (id : GoString) (m : DhcpManager)
      → t.closer ≡ stopping before ms
      → lookup id t.sys.plugin.left_endpoints ≡ none
      → ¬ In m (before ++ ms)
      → (u : Shutdown W) × (done : List DhcpManager) × (r : Outcome (Unit {0})) × Run t u
        × (u.closer ≡ closed done r)
        × (lookup id u.sys.plugin.persistent_dhcp ≡ some m)
        × ¬ In m done
  close_misses_join t before ms id m e free fresh =
      let (u, done, run, c, same, all) = from_stopping ms before (after_join t id m) so_far e in
      (
        u,
        done,
        _,
        Run-Alone (next here (joins id (ok m))) run,
        c,
        rw same (lookup-join_finish env id m t.sys free),
        λ i. fresh (all m i),
      )
