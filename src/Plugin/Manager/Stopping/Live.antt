-- ===== src/Plugin/Manager/Stopping/Live.antt =====
-- One call of Stop comes to its end.
use docker_network_dhcp.Base.{
  ◌+◌, ◌≡◌, refl, ◌≢◌, inl, inr, Bool, true, false, Option, none, some, List, [], ◌∷◌, arith,
  Bool-cases, Option-cases, ap, ◌∙◌,
}
use docker_network_dhcp.Util.Outcome.{Outcome, ok, err, panic}
use docker_network_dhcp.Plugin.Manager.Stopping.{
  Stopper, calls, awaits_v4, awaits_v6, returns, Channels, Stopping, after_v4, Move, closes,
  takes_v4, takes_v6, Moves, here, there, Step, moves, end_v4, end_v6, Way, standing, onward,
  ends_v4, ends_v6, orderly, gives_up_v4, gives_up_v6, Reach, at_start, after, callers, started,
}
use docker_network_dhcp.Plugin.Manager.Stopping.Once.{one_if, held}

nothing_left :
    (b : Bool) (o : Option (Outcome (Unit {0}))) → b ≡ false → o ≡ none → one_if b + held o ≢ 1
nothing_left true o p q h = cc (p)
nothing_left false none p q h = omega arith
nothing_left false (some r) p q h = cc (q)

module _ (ipv6 : Bool) (exit_v4 exit_v6 : Outcome (Unit {0})) where
  abbrev Run : Stopping → Stopping → Type 0
  Run = Way ipv6 exit_v4 exit_v6

  -- A result that is still to be received: in the channel, or still to come from its loop.
  abbrev WaitingV4 : Channels → Type 0
  WaitingV4 c = one_if c.running_v4 + held c.err_chan ≡ 1

  abbrev WaitingV6 : Channels → Type 0
  WaitingV6 c = one_if c.running_v6 + held c.err_chan_v6 ≡ one_if ipv6

  abbrev Alive : Stopper → Channels → Type 0
  Alive calls c = WaitingV4 c × WaitingV6 c
  Alive awaits_v4 c = WaitingV4 c × WaitingV6 c × (c.stop_closed ≡ true)
  Alive awaits_v6 c = (ipv6 ≡ true) × WaitingV6 c × (c.stop_closed ≡ true)
  Alive (returns r) c = Unit

  abbrev Single : Channels → List Stopper → Type 0
  Single c xs = (x : Stopper) × (xs ≡ x ∷ []) × Alive x c

  abbrev EndsWell : Stopping → Type 0
  EndsWell s = (u : Stopping) × (r : Outcome (Unit {0})) × Run s u × (u.stoppers ≡ returns r ∷ [])

  finish_v6 :
      {s : Stopping} (c : Channels)
      → Run s (record { channels = c; stoppers = awaits_v6 ∷ [] })
      → ipv6 ≡ true
      → WaitingV6 c
      → c.stop_closed ≡ true
      → EndsWell s
  finish_v6 c run v6 waiting told = elim (Option-cases c.err_chan_v6) [
    | inl empty ↦ elim (Bool-cases c.running_v6) [
      | inl runs ↦ (
        _,
        _,
        onward (onward run (ends_v6 runs empty told)) (moves (here (takes_v6 exit_v6 refl))),
        refl,
      )
      | inr idle ↦
          absurd (nothing_left c.running_v6 c.err_chan_v6 idle empty (waiting ∙ ap one_if v6))
    ]
    | inr (r, full) ↦ (_, _, onward run (moves (here (takes_v6 r full))), refl)
  ]

  as_stopper :
      {s : Stopping} (c : Channels) {x y : Stopper}
      → x ≡ y
      → Run s (record { channels = c; stoppers = x ∷ [] })
      → Run s (record { channels = c; stoppers = y ∷ [] })
  as_stopper c e run = rw (← e) run

  after_first :
      {s : Stopping} (c : Channels) (r : Outcome (Unit {0}))
      → Run s (record { channels = c; stoppers = after_v4 ipv6 exit_v4 exit_v6 r ∷ [] })
      → WaitingV6 c
      → c.stop_closed ≡ true
      → EndsWell s
  after_first c (ok u) run waiting told = elim (Bool-cases ipv6) [
    | inl v6 ↦ finish_v6 c (as_stopper c (rw v6 refl) run) v6 waiting told
    | inr v4 ↦ (_, ok tt, as_stopper c (rw v4 refl) run, refl)
  ]
  after_first c (err e) run waiting told = (_, _, run, refl)
  after_first c panic run waiting told = (_, _, run, refl)

  finish_v4 :
      {s : Stopping} (c : Channels)
      → Run s (record { channels = c; stoppers = awaits_v4 ∷ [] })
      → WaitingV4 c
      → WaitingV6 c
      → c.stop_closed ≡ true
      → EndsWell s
  finish_v4 c run first second told = elim (Option-cases c.err_chan) [
    | inl empty ↦ elim (Bool-cases c.running_v4) [
      | inl runs ↦
          after_first (record c { running_v4 = false; err_chan = none }) exit_v4
            (onward (onward run (ends_v4 runs empty told)) (moves (here (takes_v4 exit_v4 refl))))
            second told
      | inr idle ↦ absurd (nothing_left c.running_v4 c.err_chan idle empty first)
    ]
    | inr (r, full) ↦
        after_first (record c { err_chan = none }) r (onward run (moves (here (takes_v4 r full))))
          second told
  ]

  from_stopper :
      {s : Stopping} (c : Channels) (x : Stopper)
      → Run s (record { channels = c; stoppers = x ∷ [] })
      → Alive x c
      → EndsWell s
  from_stopper c calls run (first, second) =
      finish_v4 (record c { stop_closed = true }) (onward run (moves (here closes))) first second
        refl
  from_stopper c awaits_v4 run (first, second, told) = finish_v4 c run first second told
  from_stopper c awaits_v6 run (v6, second, told) = finish_v6 c run v6 second told
  from_stopper c (returns r) run alive = (_, r, run, refl)

  Moves-ne-nil :
      {c c' : Channels} {xs ys : List Stopper} → Moves ipv6 exit_v4 exit_v6 c xs c' ys → xs ≢ []
  Moves-ne-nil (here m) = λ q. cc
  Moves-ne-nil (there m) = λ q. cc

  Alive-after_v4 :
      (c : Channels) (r : Outcome (Unit {0}))
      → WaitingV6 c
      → c.stop_closed ≡ true
      → Alive (after_v4 ipv6 exit_v4 exit_v6 r) c
  Alive-after_v4 c (ok u) h told = elim (Bool-cases ipv6) [
    | inl v6 ↦ rw v6 (refl, rw v6 at h, told)
    | inr v4 ↦ rw v4 tt
  ]
  Alive-after_v4 c (err e) h told = tt
  Alive-after_v4 c panic h told = tt

  Move-Alive :
      {c c' : Channels} {x y : Stopper}
      → Move ipv6 exit_v4 exit_v6 c x c' y
      → Alive x c
      → Alive y c'
  Move-Alive closes (first, second) = (first, second, refl)
  Move-Alive {c} (takes_v4 r e) (first, second, told) =
      Alive-after_v4 (record c { err_chan = none }) r second told
  Move-Alive (takes_v6 r e) h = tt

  same_head : (c : Channels) {x y : Stopper} → x ≡ y → Alive y c → Alive x c
  same_head c e a = rw e a

  Moves-Single :
      {c c' : Channels} {xs ys : List Stopper}
      → Moves ipv6 exit_v4 exit_v6 c xs c' ys
      → Single c xs
      → Single c' ys
  Moves-Single {c} (here {y = y} m) (x, e, alive) =
      (y, ap (λ l. y ∷ l) (cc (e)), Move-Alive m (same_head c (cc (e)) alive))
  Moves-Single (there m) (x, e, alive) = absurd (Moves-ne-nil m (cc (e)))

  v4_ended : (c : Channels) (y : Stopper) → Alive y c → Alive y (end_v4 ipv6 exit_v4 exit_v6 c)
  v4_ended c calls (first, second) = (refl, second)
  v4_ended c awaits_v4 (first, second, told) = (refl, second, told)
  v4_ended c awaits_v6 h = h
  v4_ended c (returns r) h = tt

  v6_ended :
      (c : Channels)
      → c.running_v6 ≡ true
      → c.err_chan_v6 ≡ none
      → (y : Stopper) → Alive y c
      → Alive y (end_v6 ipv6 exit_v4 exit_v6 c)
  v6_ended c runs empty y alive = by_stopper y alive
    where
      kept : WaitingV6 c → 1 ≡ one_if ipv6
      kept h = rw (← h) (rw runs (rw empty refl))

      by_stopper : (y : Stopper) → Alive y c → Alive y (end_v6 ipv6 exit_v4 exit_v6 c)
      by_stopper calls (first, second) = (first, kept second)
      by_stopper awaits_v4 (first, second, told) = (first, kept second, told)
      by_stopper awaits_v6 (v6, second, told) = (v6, kept second, told)
      by_stopper (returns r) h = tt

  Step-Single :
      {s t : Stopping}
      → Step ipv6 exit_v4 exit_v6 s t
      → Single s.channels s.stoppers
      → Single t.channels t.stoppers
  Step-Single (orderly (moves m)) h = Moves-Single m h
  Step-Single {s} (orderly (ends_v4 runs empty c)) (x, e, alive) =
      (x, e, v4_ended s.channels x alive)
  Step-Single {s} (orderly (ends_v6 runs empty c)) (x, e, alive) =
      (x, e, v6_ended s.channels runs empty x alive)
  Step-Single {s} (gives_up_v4 runs empty) (x, e, alive) = (x, e, v4_ended s.channels x alive)
  Step-Single {s} (gives_up_v6 runs empty) (x, e, alive) =
      (x, e, v6_ended s.channels runs empty x alive)

  Reach-Single :
      {t : Stopping}
      → Reach ipv6 exit_v4 exit_v6 (started ipv6 exit_v4 exit_v6 1) t
      → Single t.channels t.stoppers
  unfolding callers
  Reach-Single at_start = (calls, refl, (refl, at_first))
    where
      at_first : one_if ipv6 + 0 ≡ one_if ipv6
      at_first = omega arith
  Reach-Single (after r s) = Step-Single s (Reach-Single r)

  -- A single call of Stop never gets stuck: from wherever it and the loops have come to, also if loops
  -- have ended of their own accord, it returns at the end of a way on which loops end only when they
  -- see that stopChan is closed.
  pub stop_returns :
      {t : Stopping}
      → Reach ipv6 exit_v4 exit_v6 (started ipv6 exit_v4 exit_v6 1) t
      → (u : Stopping) × (r : Outcome (Unit {0})) × Way ipv6 exit_v4 exit_v6 t u
        × (u.stoppers ≡ returns r ∷ [])
  stop_returns {t} run =
      let (x, e, alive) = Reach-Single run in from_stopper t.channels x (same_list t x e) alive
    where
      same_list :
          (t : Stopping) (x : Stopper)
          → t.stoppers ≡ x ∷ []
          → Run t (record { channels = t.channels; stoppers = x ∷ [] })
      same_list t x e = rw (← e) standing
