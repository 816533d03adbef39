-- ===== src/Util/Await.antt =====
-- The poll loops: AwaitCondition of pkg/util/general.go, AwaitNetNS and AwaitLinkByIndex of
-- pkg/util/netlink.go, and AwaitContainerInspect of pkg/util/docker.go. Each polls until it has an
-- answer or its context ends.
pub mod Laws
use docker_network_dhcp.Base.{ℕ, zero, suc, ◌+◌, Option, none, some, List, [], ◌∷◌}
use docker_network_dhcp.Util.Errors.{GoError}
use docker_network_dhcp.Util.Outcome.{Outcome, ok, err, panic, Act}

-- A context: the error with which it ends, how many more polls the clock of the world leaves to a
-- loop that starts now, and what the world does while the loop waits. The answer of a poll that
-- the context cuts short is not read; such a poll is not counted.
pub record Context (W : Type 0) : Type 0 where
  pub ended : GoError
  pub polls_left : W → ℕ
  pub wait : W → W

module _ {W A : Type 0} (ctx : Context W) where
  -- A condition that holds gives what it captures.
  abbrev pub after_poll : Outcome (Option A) × W → Act W A → Outcome A × W
  after_poll (ok (some a), w) next = (ok a, w)
  after_poll (ok none, w) next = next (ctx.wait w)
  after_poll (err e, w) next = (err e, w)
  after_poll (panic, w) next = (panic, w)

  unfoldable pub poll : ℕ → Act W (Option A) → Act W A
  poll zero cond w = (err ctx.ended, w)
  poll (suc n) cond w = after_poll (cond w) (poll n cond)

  unfoldable pub await_condition : Act W (Option A) → Act W A
  unfolding poll
  await_condition cond w = poll (ctx.polls_left w) cond w

  -- A call that is repeated until it succeeds.
  abbrev pub try_again : Outcome A × W → Outcome (Option A) × W
  try_again (ok a, w) = (ok (some a), w)
  try_again (err e, w) = (ok none, w)
  try_again (panic, w) = (panic, w)

  unfoldable pub await_value : Act W A → Act W A
  unfolding await_condition
  await_value get = await_condition (λ w. try_again (get w))

  -- The first answer of ContainerInspect that is no error.
  abbrev pub await_container_inspect : Act W A → Act W A
  await_container_inspect inspect = await_value inspect
