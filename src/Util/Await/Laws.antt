-- ===== src/Util/Await/Laws.antt =====
-- How a poll loop ends.
use docker_network_dhcp.Base.{ℕ, zero, suc, ◌+◌, ◌<◌, ◌≡◌, refl, Option, none, some, arith}
use docker_network_dhcp.Util.Outcome.{Outcome, ok, err, panic, Act}
use docker_network_dhcp.Util.Await.{Context, after_poll, poll, await_condition}

module _ {W A : Type 0} (ctx : Context W) (cond : Act W (Option A)) where
  -- After `n` polls that all say "not yet", and the waits behind them, the world is `w'`.
  pub data NotYet (w : W) : ℕ → W → Type 0 where
    start : NotYet w 0 w
    more : {n : ℕ} {u v : W} → NotYet w n u → cond u ≡ (ok none, v) → NotYet w (suc n) (ctx.wait v)

  -- The poll that ends a loop.
  abbrev pub Answers : Outcome (Option A) × W → Outcome A × W → Type 0
  Answers (ok (some a), w) r = r ≡ (ok a, w)
  Answers (ok none, w) r = ⊥
  Answers (err e, w) r = r ≡ (err e, w)
  Answers (panic, w) r = r ≡ (panic, w)

  -- The loop ends by its k-th poll, or the context ends after `n` polls.
  pub data Ends (n : ℕ) (w : W) (r : Outcome A × W) : Type 0 where
    answered : {k : ℕ} {u : W} → k < n → NotYet w k u → Answers (cond u) r → Ends n w r
    timed_out : {u : W} → NotYet w n u → r ≡ (err ctx.ended, u) → Ends n w r

  NotYet-first :
      {w v u : W} {n : ℕ} → cond w ≡ (ok none, v) → NotYet (ctx.wait v) n u → NotYet w (suc n) u
  NotYet-first e start = more start e
  NotYet-first e (more h f) = more (NotYet-first e h) f

  Ends-later :
      {n : ℕ} {w v : W} {r : Outcome A × W}
      → cond w ≡ (ok none, v)
      → Ends n (ctx.wait v) r
      → Ends (suc n) w r
  Ends-later e (answered lt h a) = answered (omega arith) (NotYet-first e h) a
  Ends-later e (timed_out h p) = timed_out (NotYet-first e h) p

  poll-Ends : (n : ℕ) (w : W) → Ends n w (poll ctx n cond w)
  unfolding poll
  poll-Ends zero w = timed_out start refl
  poll-Ends (suc n) w = by_answer (cond w) refl (poll-Ends n)
    where
      by_answer :
          (p : Outcome (Option A) × W)
          → cond w ≡ p
          → ((v : W) → Ends n v (poll ctx n cond v))
          → Ends (suc n) w (after_poll ctx p (poll ctx n cond))
      by_answer (ok (some a), v) e rest = answered (omega arith) start (rw e refl)
      by_answer (ok none, v) e rest = Ends-later e (rest (ctx.wait v))
      by_answer (err x, v) e rest = answered (omega arith) start (rw e refl)
      by_answer (panic, v) e rest = answered (omega arith) start (rw e refl)

  -- AwaitCondition returns: the answer of the first poll that has one, where that is among those
  -- that the context leaves time for, and the error of the context after exactly those polls
  -- otherwise.
  pub await_condition-Ends : (w : W) → Ends (ctx.polls_left w) w (await_condition ctx cond w)
  unfolding await_condition
  await_condition-Ends w = poll-Ends (ctx.polls_left w) w

  -- A loop that finds its answer within n polls finds the same answer when it has more.
  pub poll_longer :
      (n k : ℕ) (w : W) {a : A} {w' : W}
      → poll ctx n cond w ≡ (ok a, w')
      → poll ctx (n + k) cond w ≡ (ok a, w')
  unfolding poll
  poll_longer zero k w h = cc
  poll_longer (suc n) k w {a} {w'} h =
      let e : suc n + k ≡ suc (n + k) = omega arith in
      rw e (by_answer (cond w) h (λ v. poll_longer n k v))
    where
      by_answer :
          (p : Outcome (Option A) × W)
          → after_poll ctx p (poll ctx n cond) ≡ (ok a, w')
          → ((v : W) → poll ctx n cond v ≡ (ok a, w') → poll ctx (n + k) cond v ≡ (ok a, w'))
          → after_poll ctx p (poll ctx (n + k) cond) ≡ (ok a, w')
      by_answer (ok (some b), v) g rest = g
      by_answer (ok none, v) g rest = rest (ctx.wait v) g
      by_answer (err x, v) g rest = g
      by_answer (panic, v) g rest = g
