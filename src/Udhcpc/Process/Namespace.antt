-- ===== src/Udhcpc/Process/Namespace.antt =====
-- Where Start of pkg/udhcpc/client.go leaves its thread.
use docker_network_dhcp.Base.{
  ◌≡◌, refl, ◌≢◌, ◌⊎◌, inl, inr, true, false, Option, none, some, [], ◌∷◌, GoString, go, ◌==◌,
  arith, if◌then◌else◌, Bool-cases,
}
use docker_network_dhcp.Util.Outcome.{Outcome, ok, err, panic, Act, continue, wrap}
use docker_network_dhcp.Udhcpc.{DhcpClientOptions}
use docker_network_dhcp.Udhcpc.Process.{
  Thread, System, having, opened, closed, deferred, set_back, go_back, launch, enter, launch_in,
  start,
}

-- The namespace that the options ask for.
abbrev pub wanted : DhcpClientOptions → Option GoString
wanted opts = if opts.namespace == [] then none else some opts.namespace

module _ {W : Type 0} where
  -- The process is started in `ns` exactly if the call succeeds.
  abbrev pub StartedIn : Option GoString → Thread W → Outcome (Unit {0}) → Thread W → Type 0
  StartedIn ns t r t' =
      ((r ≡ ok tt) × (t'.started ≡ ns ∷ t.started)) ⊎ ((r ≢ ok tt) × (t'.started ≡ t.started))

module _ {W : Type 0} (sys : System W) where
  -- netns.Set leads back to the plugin's own namespace.
  abbrev pub CanReturn : Type 0
  CanReturn = (w : W) → (sys.set none w).0 ≡ ok tt

  -- What a part of Start does to a thread in the plugin's own namespace.
  record Clean (ns : Option GoString) (t : Thread W) (r : Outcome (Unit {0}) × Thread W)
      : Type 0 where
    home : r.1.namespace ≡ none
    handles : r.1.handles ≡ t.handles
    locked : r.1.locked ≡ t.locked
    process : StartedIn ns t r.0 r.1

  set_back-Clean :
      (ns : Option GoString) (t u : Thread W) (o : Outcome (Unit {0})) (p : Outcome (Unit {0}) × W)
      → p.0 ≡ ok tt
      → u.handles ≡ t.handles
      → u.locked ≡ t.locked
      → StartedIn ns t o u
      → Clean ns t (o, set_back sys p u)
  set_back-Clean ns t u o (ok _, w) q h l s = record {
    home = refl;
    handles = h;
    locked = l;
    process = s;
  }
  set_back-Clean ns t u o (err e, w) q h l s = cc
  set_back-Clean ns t u o (panic, w) q h l s = cc

  -- A handle is opened for the time of `inner`.
  opening-Clean :
      (ns : Option GoString) (t : Thread W) (text : GoString) (p : Outcome (Unit {0}) × W)
      (inner : Act (Thread W) (Unit {0}))
      → t.namespace ≡ none
      → ((u : Thread W) → u.namespace ≡ none → Clean ns u (inner u))
      → Clean ns t (
          continue
            (having opened (wrap text p.0, record t { world = p.1 })).0
            (λ _. deferred closed inner)
            (having opened (wrap text p.0, record t { world = p.1 })).1)
  opening-Clean ns t text (ok _, w) inner h clean =
      let c = clean (opened (record t { world = w })) h in
      record {
        home = c.home;
        handles = let e = c.handles in omega arith;
        locked = c.locked;
        process = c.process;
      }
  opening-Clean ns t text (err e, w) inner h clean = record {
    home = h;
    handles = refl;
    locked = refl;
    process = inr (λ q. cc, refl);
  }
  opening-Clean ns t text (panic, w) inner h clean = record {
    home = h;
    handles = refl;
    locked = refl;
    process = inr (λ q. cc, refl);
  }

  launch-StartedIn :
      (t : Thread W)
      → StartedIn t.namespace t (launch sys t).0 (launch sys t).1
        × ((launch sys t).1.namespace ≡ t.namespace)
        × ((launch sys t).1.handles ≡ t.handles)
        × ((launch sys t).1.locked ≡ t.locked)
  unfolding launch
  launch-StartedIn t = of_command (sys.start_command t.world)
    where
      of_command :
          (p : Outcome (Unit {0}) × W)
          → StartedIn t.namespace t
              (having
                (λ u. record u { started = u.namespace ∷ u.started })
                (p.0, record t { world = p.1 })).0
              (having
                (λ u. record u { started = u.namespace ∷ u.started })
                (p.0, record t { world = p.1 })).1
            × ((having
                  (λ u. record u { started = u.namespace ∷ u.started })
                  (p.0, record t { world = p.1 })).1.namespace
                ≡ t.namespace)
            × ((having
                  (λ u. record u { started = u.namespace ∷ u.started })
                  (p.0, record t { world = p.1 })).1.handles
                ≡ t.handles)
            × ((having
                  (λ u. record u { started = u.namespace ∷ u.started })
                  (p.0, record t { world = p.1 })).1.locked
                ≡ t.locked)
      of_command (ok _, w) = (inl (refl, refl), refl, refl, refl)
      of_command (err e, w) = (inr (λ q. cc, refl), refl, refl, refl)
      of_command (panic, w) = (inr (λ q. cc, refl), refl, refl, refl)

  module _ (back : CanReturn) where
    enter-Clean :
        (path : GoString) (t : Thread W)
        → t.namespace ≡ none
        → Clean (some path) t (enter sys path t)
    unfolding enter
    enter-Clean path t h = of_set (sys.set (some path) t.world)
      where
        of_set :
            (p : Outcome (Unit {0}) × W)
            → Clean (some path) t (
                continue
                  (having
                    (λ u. record u { namespace = some path })
                    (wrap (go "failed to enter network namespace") p.0, record t { world = p.1 })).0
                  (λ _. deferred (go_back sys) (launch sys))
                  (having
                    (λ u. record u { namespace = some path })
                    (
                      wrap (go "failed to enter network namespace") p.0,
                      record t { world = p.1 },
                    )).1)
        of_set (ok _, w) =
            let u : Thread W = record t { namespace = some path; world = w } in
            let (s, _, hs, ls) = launch-StartedIn u in
            set_back-Clean (some path) t (launch sys u).1 (launch sys u).0
              (sys.set none (launch sys u).1.world) (back (launch sys u).1.world) hs ls s
        of_set (err e, w) = record {
          home = h;
          handles = refl;
          locked = refl;
          process = inr (λ q. cc, refl);
        }
        of_set (panic, w) = record {
          home = h;
          handles = refl;
          locked = refl;
          process = inr (λ q. cc, refl);
        }

    launch_in-Clean :
        (path : GoString) (t : Thread W)
        → t.namespace ≡ none
        → Clean (some path) t (launch_in sys path t)
    unfolding launch_in
    launch_in-Clean path t h =
        opening-Clean (some path) t _ (sys.get_from_path path t.world) (enter sys path) h
          (enter-Clean path)

    -- Start, on a thread in the plugin's own namespace that is not locked, leaves it there, not
    -- locked and with no handle more, and has started udhcpc in the namespace of the options
    -- exactly if it succeeds; where netns.Set to the plugin's own namespace does not fail.
    pub start_lem :
        (opts : DhcpClientOptions) (t : Thread W)
        → t.namespace ≡ none
        → t.locked ≡ false
        → ((start sys opts t).1.namespace ≡ none)
          × ((start sys opts t).1.handles ≡ t.handles)
          × ((start sys opts t).1.locked ≡ false)
          × StartedIn (wanted opts) t (start sys opts t).0 (start sys opts t).1
    unfolding start
    start_lem opts t h l = elim (Bool-cases (opts.namespace == [])) [
      | inl own ↦
          let (s, n, hs, ls) = launch-StartedIn t in rw own (rw n h, hs, rw ls l, rw (← h) s)
      | inr other ↦
          let t' : Thread W = record t { locked = true } in
          let c =
            opening-Clean (some opts.namespace) t' _ (sys.get t.world)
              (launch_in sys opts.namespace) h (launch_in-Clean opts.namespace) in
          rw other (c.home, c.handles, refl, c.process)
    ]
