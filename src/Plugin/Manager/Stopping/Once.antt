-- ===== src/Plugin/Manager/Stopping/Once.antt =====
-- How many calls of Stop return.
use docker_network_dhcp.Base.{
  ℕ, suc, zero, ◌+◌, ◌≤◌, ◌≡◌, refl, inl, inr, Bool, Option, none, some, List, [], ◌∷◌, arith,
  Bool-cases, if◌then◌else◌,
}
use docker_network_dhcp.Util.Outcome.{Outcome, ok, err, panic}
use docker_network_dhcp.Plugin.Manager.Stopping.{
  Stopper, calls, awaits_v4, awaits_v6, returns, Channels, Stopping, after_v4, closes, takes_v4,
  takes_v6, Moves, here, there, Step, moves, ends_v4, ends_v6, orderly, gives_up_v4, gives_up_v6,
  Reach, at_start, after, callers, started,
}

abbrev pub one_if : Bool → ℕ
one_if b = if b then 1 else 0

abbrev pub held : Option (Outcome (Unit {0})) → ℕ
held none = 0
held (some r) = 1

-- Has the caller received from errChan?
abbrev past_v4 : Stopper → ℕ
past_v4 calls = 0
past_v4 awaits_v4 = 0
past_v4 awaits_v6 = 1
past_v4 (returns r) = 1

unfoldable past : List Stopper → ℕ
past [] = 0
past (x ∷ xs) = past_v4 x + past xs

abbrev has_returned : Stopper → ℕ
has_returned (returns r) = 1
has_returned _ = 0

-- How many calls have returned.
unfoldable pub returned : List Stopper → ℕ
returned [] = 0
returned (x ∷ xs) = has_returned x + returned xs

returned-le-past : (xs : List Stopper) → returned xs ≤ past xs
unfolding returned past
returned-le-past [] = omega arith
returned-le-past (calls ∷ xs) = let h = returned-le-past xs in omega arith
returned-le-past (awaits_v4 ∷ xs) = let h = returned-le-past xs in omega arith
returned-le-past (awaits_v6 ∷ xs) = let h = returned-le-past xs in omega arith
returned-le-past (returns r ∷ xs) = let h = returned-le-past xs in omega arith

past-callers : (n : ℕ) → past (callers n) ≡ 0
unfolding past callers
past-callers zero = refl
past-callers (suc n) = let e = past-callers n in omega arith

module _ (ipv6 : Bool) (exit_v4 exit_v6 : Outcome (Unit {0})) where
  -- The one result of the IPv4 loop: still to come, in the channel, or received.
  abbrev tokens : Channels → List Stopper → ℕ
  tokens c xs = one_if c.running_v4 + held c.err_chan + past xs

  past_v4-after_v4 : (r : Outcome (Unit {0})) → past_v4 (after_v4 ipv6 exit_v4 exit_v6 r) ≡ 1
  past_v4-after_v4 (ok u) = elim (Bool-cases ipv6) [ inl p ↦ rw p refl | inr p ↦ rw p refl ]
  past_v4-after_v4 (err e) = refl
  past_v4-after_v4 panic = refl

  Moves-tokens :
      {c c' : Channels} {xs ys : List Stopper}
      → Moves ipv6 exit_v4 exit_v6 c xs c' ys
      → tokens c' ys ≡ tokens c xs
  unfolding past
  Moves-tokens (here closes) = refl
  Moves-tokens (here (takes_v4 r h)) = rw h (let e = past_v4-after_v4 r in omega arith)
  Moves-tokens (here (takes_v6 r h)) = refl
  Moves-tokens (there m) = let e = Moves-tokens m in omega arith

  Step-tokens :
      {s t : Stopping}
      → Step ipv6 exit_v4 exit_v6 s t
      → tokens t.channels t.stoppers ≡ tokens s.channels s.stoppers
  Step-tokens (orderly (moves m)) = Moves-tokens m
  Step-tokens (orderly (ends_v4 h e c)) = rw (h, e) refl
  Step-tokens (orderly (ends_v6 h e c)) = refl
  Step-tokens (gives_up_v4 h e) = rw (h, e) refl
  Step-tokens (gives_up_v6 h e) = refl

  Reach-tokens :
      (n : ℕ) {t : Stopping}
      → Reach ipv6 exit_v4 exit_v6 (started ipv6 exit_v4 exit_v6 n) t
      → tokens t.channels t.stoppers ≡ 1
  Reach-tokens n at_start = let e = past-callers n in omega arith
  Reach-tokens n (after r s) = let e = Step-tokens s in let h = Reach-tokens n r in omega arith

  -- However many calls of Stop there are on a manager that has started its clients, and in whatever
  -- order they and its loops move, at most one of them returns.
  pub stop_at_most_once :
      (n : ℕ) {t : Stopping}
      → Reach ipv6 exit_v4 exit_v6 (started ipv6 exit_v4 exit_v6 n) t
      → returned t.stoppers ≤ 1
  stop_at_most_once n {t} r =
      let e = Reach-tokens n r in let h = returned-le-past t.stoppers in omega arith
