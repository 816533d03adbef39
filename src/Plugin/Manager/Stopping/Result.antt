-- ===== src/Plugin/Manager/Stopping/Result.antt =====
-- What a call of Stop returns.
use docker_network_dhcp.Base.{
  ℕ, suc, zero, ◌≡◌, refl, inl, inr, Bool, true, false, some, List, [], ◌∷◌, go, All, Bool-cases,
  ap, ◌∙◌, not, if◌then◌else◌,
}
use docker_network_dhcp.Base.Keyed.{In}
use docker_network_dhcp.Util.Outcome.{
  Outcome, ok, err, panic, wrap, wrapping, continue, pure, Act, ◌>>◌,
}
use docker_network_dhcp.Plugin.Types.{DhcpManager}
use docker_network_dhcp.Plugin.Env.{Env}
use docker_network_dhcp.Plugin.Leave.{stop}
use docker_network_dhcp.Plugin.Manager.Stopping.{
  Stopper, calls, awaits_v4, awaits_v6, returns, Channels, Stopping, after_v4, closes, takes_v4,
  takes_v6, Moves, here, there, Step, moves, ends_v4, ends_v6, orderly, gives_up_v4, gives_up_v6,
  Reach, at_start, after, callers, started,
}

module _ (ipv6 : Bool) (exit_v4 exit_v6 : Outcome (Unit {0})) where
  abbrev on_v4 : Outcome (Unit {0}) → Outcome (Unit {0})
  on_v4 (ok u) = if ipv6 then wrap (go "failed shut down DHCPv6 client") exit_v6 else ok tt
  on_v4 (err e) = wrap (go "failed shut down DHCP client") (err e)
  on_v4 panic = panic

  -- A caller that has returned has composed the results of the loops; one that awaits the second
  -- result has had a first one without an error.
  abbrev IsGood : Stopper → Type 0
  IsGood calls = Unit
  IsGood awaits_v4 = Unit
  IsGood awaits_v6 = (ipv6 ≡ true) × ((u : Unit {0}) × (exit_v4 ≡ ok u))
  IsGood (returns r) = r ≡ on_v4 exit_v4

  abbrev IsSound : Channels → Type 0
  IsSound c =
      ((r : Outcome (Unit {0})) → c.err_chan ≡ some r → r ≡ exit_v4)
      × ((r : Outcome (Unit {0})) → c.err_chan_v6 ≡ some r → r ≡ exit_v6)

  after_v4-IsGood :
      (r : Outcome (Unit {0})) → r ≡ exit_v4 → IsGood (after_v4 ipv6 exit_v4 exit_v6 r)
  after_v4-IsGood (ok u) p = elim (Bool-cases ipv6) [
    | inl v6 ↦ rw v6 (refl, (u, cc (p)))
    | inr v4 ↦ rw v4 (rw (← p) refl)
  ]
  after_v4-IsGood (err e) p = rw (← p) refl
  after_v4-IsGood panic p = rw (← p) refl

  on_v4-v6 :
      (u : Unit {0})
      → ipv6 ≡ true
      → exit_v4 ≡ ok u
      → wrap (go "failed shut down DHCPv6 client") exit_v6 ≡ on_v4 exit_v4
  on_v4-v6 u p e = rw e (rw p refl)

  Moves-IsGood :
      {c c' : Channels} {xs ys : List Stopper}
      → Moves ipv6 exit_v4 exit_v6 c xs c' ys
      → IsSound c
      → All IsGood xs
      → IsSound c' × All IsGood ys
  Moves-IsGood (here closes) h (g, gs) = (h, (tt, gs))
  Moves-IsGood (here (takes_v4 r e)) h (g, gs) =
      ((λ r' p. cc (p), h.1), (after_v4-IsGood r (h.0 r e), gs))
  Moves-IsGood (here (takes_v6 r e)) h ((p, (u, q)), gs) =
      ((h.0, λ r' k. cc (k)), (rw (h.1 r e) (on_v4-v6 u p q), gs))
  Moves-IsGood (there m) h (g, gs) = let (h', gs') = Moves-IsGood m h gs in (h', (g, gs'))

  Step-IsGood :
      {s t : Stopping}
      → Step ipv6 exit_v4 exit_v6 s t
      → IsSound s.channels
      → All IsGood s.stoppers
      → IsSound t.channels × All IsGood t.stoppers
  Step-IsGood (orderly (moves m)) h g = Moves-IsGood m h g
  Step-IsGood (orderly (ends_v4 p e c)) h g = ((λ r q. cc (q), h.1), g)
  Step-IsGood (orderly (ends_v6 p e c)) h g = ((h.0, λ r q. cc (q)), g)
  Step-IsGood (gives_up_v4 p e) h g = ((λ r q. cc (q), h.1), g)
  Step-IsGood (gives_up_v6 p e) h g = ((h.0, λ r q. cc (q)), g)

  callers-IsGood : (n : ℕ) → All IsGood (callers n)
  unfolding callers
  callers-IsGood zero = tt
  callers-IsGood (suc n) = (tt, callers-IsGood n)

  Reach-IsGood :
      (n : ℕ) {t : Stopping}
      → Reach ipv6 exit_v4 exit_v6 (started ipv6 exit_v4 exit_v6 n) t
      → IsSound t.channels × All IsGood t.stoppers
  Reach-IsGood n at_start = ((λ r q. cc (q), λ r q. cc (q)), callers-IsGood n)
  Reach-IsGood n (after r s) = let (h, g) = Reach-IsGood n r in Step-IsGood s h g

  All-In : (xs : List Stopper) (x : Stopper) → All IsGood xs → In x xs → IsGood x
  All-In [] x g i = elim i [ ]
  All-In (y ∷ ys) x (g, gs) (inl p) = rw p g
  All-In (y ∷ ys) x (g, gs) (inr i) = All-In ys x gs i

  module _ {W : Type 0} (env : Env W) (m : DhcpManager) where
    -- What the clients of a manager that is stopped report is what its two loops end with.
    pub record Reports : Type 0 where
      pub started : m.started ≡ true
      pub has_v6 : m.opts.ipv6 ≡ ipv6
      pub v4 : (w : W) → (env.client_exit m false w).0 ≡ exit_v4
      pub v6 : (w : W) → (env.client_exit m true w).0 ≡ exit_v6

    second_wait :
        Reports
        → (b : Bool) → b ≡ ipv6
        → (w : W)
        → ((if b
              then wrapping (go "failed shut down DHCPv6 client") (env.client_exit m true)
              else pure tt)
            w).0
          ≡ (if ipv6 then wrap (go "failed shut down DHCPv6 client") exit_v6 else ok tt)
    second_wait h true p w = rw (← p) (ap (wrap (go "failed shut down DHCPv6 client")) (h.v6 w))
    second_wait h false p w = rw (← p) refl

    stop-on_v4 : Reports → (w : W) → (stop env m w).0 ≡ on_v4 exit_v4
    unfolding stop
    stop-on_v4 h w = begins m.started h.started ∙ rw (h.v4 w) (of_first exit_v4)
      where
        body : Act W (Unit {0})
        body =
            wrapping (go "failed shut down DHCP client") (env.client_exit m false)
            >> (if m.opts.ipv6
                then wrapping (go "failed shut down DHCPv6 client") (env.client_exit m true)
                else pure tt)

        begins : (b : Bool) → b ≡ true → ((if not b then pure tt else body) w).0 ≡ (body w).0
        begins true p = refl
        begins false p = cc (p)

        of_first :
            (o : Outcome (Unit {0}))
            → (continue
                (wrap (go "failed shut down DHCP client") o)
                (λ _.
                  if m.opts.ipv6
                  then wrapping (go "failed shut down DHCPv6 client") (env.client_exit m true)
                  else pure tt)
                (env.client_exit m false w).1).0
              ≡ on_v4 o
        of_first (ok u) = second_wait h m.opts.ipv6 h.has_v6 (env.client_exit m false w).1
        of_first (err e) = refl
        of_first panic = refl

    -- Over the channels: a call of Stop returns what the model of Stop that the handlers use
    -- returns, if it returns, in whatever order the callers and the loops move.
    pub returns-stop :
        (n : ℕ) {t : Stopping} {r : Outcome (Unit {0})} (w : W)
        → Reports
        → Reach ipv6 exit_v4 exit_v6 (started ipv6 exit_v4 exit_v6 n) t
        → In (returns r) t.stoppers
        → r ≡ (stop env m w).0
    returns-stop n {t} {r} w h reach i =
        rw (stop-on_v4 h w) (All-In t.stoppers (returns r) (Reach-IsGood n reach).1 i)
