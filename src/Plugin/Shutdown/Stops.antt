-- ===== src/Plugin/Shutdown/Stops.antt =====
-- Which managers Close stops, and which it does not.
use docker_network_dhcp.Base.{
  ◌≡◌, ◌≢◌, refl, ◌⊎◌, inl, inr, some, List, [], ◌∷◌, ◌++◌, GoString, arith, append-nil,
  append_assoc,
}
use docker_network_dhcp.Base.GoMap.{GoMap, lookup, values}
use docker_network_dhcp.Base.Keyed.{In, SameElements}
use docker_network_dhcp.Util.Outcome.{Outcome, ok, err, panic, Act}
use docker_network_dhcp.Plugin.Types.{DhcpManager, Plugin}
use docker_network_dhcp.Plugin.Env.{Env, Sys}
use docker_network_dhcp.Plugin.Leave.{join_begin, join_finish}
use docker_network_dhcp.Plugin.Manager.Start.{Held, Sandbox}
use docker_network_dhcp.Plugin.Api.{Wire}
use docker_network_dhcp.Plugin.Service.{stop_manager}
use docker_network_dhcp.Plugin.Service.Managers.{Within, Within-Stable, join_finish-Within}
use docker_network_dhcp.Plugin.Service.Requests.{serve_keeps}
use docker_network_dhcp.Plugin.Shutdown.{
  ended, Closer, running, waiting, stopping, closed, Shutdown, after_start_restore, after_stop,
  close_both, Restores, wakes, takes, finds, fails, registers, drops, gives_up, gives_up_retry,
  comes_to_end, panics, completes, clears, cancels, leaves, Closes, begins, passes, stops, finishes,
  and_joined, Step, restores, closes, expires, served, begun, joins, moved, Reach, here, next,
}
use docker_network_dhcp.Plugin.Shutdown.Waits.{IsPast, Sound, Sound-start, Step-Sound}

-- The manager is one that Close has stopped or will: until its snapshot that may be any, and where
-- a panic has ended Close there is no more to say.
abbrev pub IsHandled : Closer → DhcpManager → Type 0
IsHandled (stopping before ms) m = In m (before ++ ms)
IsHandled (closed before panic) m = Unit
IsHandled (closed before r) m = In m before
IsHandled c m = Unit

lookup-In-values :
    {V : Type 0} (k : GoString) (v : V) (m : GoMap V) → lookup k m ≡ some v → In v (values m)
unfolding lookup values
lookup-In-values k v [] h = cc
lookup-In-values k v ((j, x) ∷ m) h = ground (arith, lookup-In-values k v m)

not_yet :
    (c : Closer) (xs : List DhcpManager) (p : Plugin)
    → ¬ IsPast c
    → Within (λ m. IsHandled c m ⊎ In m xs) p
not_yet running xs p h id m k = inl tt
not_yet waiting xs p h id m k = inl tt
not_yet (stopping before ms) xs p h id m k = absurd (h tt)
not_yet (closed before r) xs p h id m k = absurd (h tt)

-- What a manager of the snapshot is, when Close has stopped one more.
IsHandled-after_stop :
    (before ms : List DhcpManager) (m x : DhcpManager) (o : Outcome (Unit {0}))
    → In x (before ++ (m ∷ ms))
    → IsHandled (after_stop before m ms o) x
IsHandled-after_stop before ms m x (ok u) i = rw (append_assoc before (m ∷ []) ms) i
IsHandled-after_stop before ms m x (err e) i = rw (append_assoc before (m ∷ []) ms) i
IsHandled-after_stop before ms m x panic i = tt

IsHandled-closed :
    (before : List DhcpManager) (x : DhcpManager) (o : Outcome (Unit {0}))
    → In x (before ++ [])
    → IsHandled (closed before o) x
IsHandled-closed before x (ok u) i = rw (← append-nil before) i
IsHandled-closed before x (err e) i = rw (← append-nil before) i
IsHandled-closed before x panic i = tt

module _ {W : Type 0} where
  abbrev pub Covers : Shutdown W → Type 0
  Covers s = Within (λ m. IsHandled s.closer m ⊎ In m s.joined) s.sys.plugin

module _ {W : Type 0} (env : Env (Held W)) (box : Sandbox W) where
  -- Restore acts only before its goroutine has ended, and leaves Close alone.
  Restores-running :
      {s t : Shutdown W}
      → Restores env box s t
      → (s.restorer ≢ ended) × (t.closer ≡ s.closer) × (t.joined ≡ s.joined)
  Restores-running (wakes e) = (λ q. cc, refl, refl)
  Restores-running (takes e c) = (λ q. cc, refl, refl)
  Restores-running (finds m e f) = (λ q. cc, refl, refl)
  Restores-running (fails w e) = (λ q. cc, refl, refl)
  Restores-running (registers m e) = (λ q. cc, refl, refl)
  Restores-running (drops e) = (λ q. cc, refl, refl)
  Restores-running (gives_up e c) = (λ q. cc, refl, refl)
  Restores-running (gives_up_retry e l c) = (λ q. cc, refl, refl)
  Restores-running (comes_to_end e) = (λ q. cc, refl, refl)
  Restores-running (panics e) = (λ q. cc, refl, refl)
  Restores-running (completes e) = (λ q. cc, refl, refl)
  Restores-running (clears e) = (λ q. cc, refl, refl)
  Restores-running (cancels e) = (λ q. cc, refl, refl)
  Restores-running (leaves e) = (λ q. cc, refl, refl)

  Restores-Covers : {s t : Shutdown W} → Restores env box s t → Sound s → Covers t
  Restores-Covers {s} {t} r h =
      let (runs, same, kept) = Restores-running r in
      not_yet t.closer t.joined t.sys.plugin (λ p. runs (h.past (rw (← same) p)))

  -- Where Close is at `c`, it may go on to a `c'` that handles every manager that `c` handles.
  widen :
      (s : Shutdown W) (c c' : Closer)
      → s.closer ≡ c
      → ((m : DhcpManager) → IsHandled c m → IsHandled c' m)
      → Covers s
      → Within (λ m. IsHandled c' m ⊎ In m s.joined) s.sys.plugin
  widen s c c' e more h id m k = elim (h id m k) [
    | inl i ↦ inl (more m (rw e at i))
    | inr i ↦ inr i
  ]

module _ {W : Type 0} (env : Env (Held W)) (box : Sandbox W) (wire : Wire)
    (ping : Act (Held W) (Unit {0})) (order : List DhcpManager → List DhcpManager)
    (close_server close_docker : Act (Held W) (Unit {0})) where
  Closes-Covers :
      {s t : Shutdown W}
      → ((ms : List DhcpManager) → SameElements (order ms) ms)
      → Closes env box order close_server close_docker s t
      → Covers s
      → Covers t
  Closes-Covers same (begins e) h = λ id m k. inl tt
  Closes-Covers {s} same (passes e z) h =
      λ id m k. inl ((same (values s.sys.plugin.persistent_dhcp) m).1 (lookup-In-values id m _ k))
  Closes-Covers {s} same (stops {before} {ms} {m} e) h =
      widen env box s _ (after_stop before m ms (stop_manager env box m s.sys.world).0) e
        (λ x i. IsHandled-after_stop before ms m x _ i) h
  Closes-Covers {s} same (finishes {before} e) h =
      widen env box s _
        (closed before (close_both env box order close_server close_docker s.sys.world).0) e
        (λ x i. IsHandled-closed before x _ i) h

  -- The goroutine of a Join registers its manager.
  joins_cover :
      (s : Shutdown W) (id : GoString) (o : Outcome DhcpManager)
      → Covers s
      → Within
          (λ m. IsHandled s.closer m ⊎ In m (and_joined o s.joined))
          (join_finish env id o s.sys).plugin
  joins_cover s id o h =
      join_finish-Within env _ id o s.sys (λ m e. rw e (inr (inl refl)))
        (λ j m k. more o m (h j m k))
    where
      more :
          (o : Outcome DhcpManager) (m : DhcpManager)
          → IsHandled s.closer m ⊎ In m s.joined
          → IsHandled s.closer m ⊎ In m (and_joined o s.joined)
      more o m (inl a) = inl a
      more (ok x) m (inr b) = inr (inr b)
      more (err e) m (inr b) = inr b
      more panic m (inr b) = inr b

  Step-Covers :
      {s t : Shutdown W}
      → ((ms : List DhcpManager) → SameElements (order ms) ms)
      → Step env box wire ping order close_server close_docker s t
      → Sound s
      → Covers s
      → Covers t
  unfolding join_begin
  Step-Covers same (restores r) k h = Restores-Covers env box r k
  Step-Covers same (closes c) k h = Closes-Covers same c h
  Step-Covers same expires k h = h
  Step-Covers {s} same (served path body w) k h =
      serve_keeps env _ (Within-Stable env (λ m. IsHandled s.closer m ⊎ In m s.joined)) wire ping
        s.restore_complete path body _ h
  Step-Covers same (begun id ctx) k h = h
  Step-Covers {s} same (joins id o) k h = joins_cover s id o h
  Step-Covers same (moved w) k h = h

  Reach-Covers :
      {s t : Shutdown W}
      → ((ms : List DhcpManager) → SameElements (order ms) ms)
      → Reach env box wire ping order close_server close_docker s t
      → Sound s
      → Covers s
      → Sound t × Covers t
  Reach-Covers same here k h = (k, h)
  Reach-Covers same (next r st) k h =
      let (k', h') = Reach-Covers same r k h in
      (
        Step-Sound env box wire ping order close_server close_docker st k',
        Step-Covers same st k' h',
      )

  -- From StartRestore on, whatever requests and Joins come between: when Close has come to its end
  -- without a panic, every manager that is still in the table is one that Close has stopped, or one
  -- that a goroutine of Join has started since Close took its snapshot; none that Restore has started
  -- is left over.
  pub close_stops :
      (s : Sys (Held W)) {t : Shutdown W} (before : List DhcpManager) (r : Outcome (Unit {0}))
      → ((ms : List DhcpManager) → SameElements (order ms) ms)
      → Reach env box wire ping order close_server close_docker (after_start_restore s) t
      → t.closer ≡ closed before r
      → r ≢ panic
      → (id : GoString) (m : DhcpManager) → lookup id t.sys.plugin.persistent_dhcp ≡ some m
      → In m before ⊎ In m t.joined
  close_stops s {t} before r same run e calm id m k =
      let (sound, h) =
        Reach-Covers same run (Sound-start env box wire ping order close_server close_docker s)
          (λ j x q. inl tt) in
      elim (h id m k) [ inl i ↦ inl (stopped r calm (rw e at i)) | inr i ↦ inr i ]
    where
      stopped : (r : Outcome (Unit {0})) → r ≢ panic → IsHandled (closed before r) m → In m before
      stopped (ok u) calm i = i
      stopped (err x) calm i = i
      stopped panic calm i = absurd (calm refl)
