-- ===== src/Plugin/Shutdown.antt =====
-- How StartRestore and Close of pkg/plugin/plugin.go meet: the goroutine that runs Restore, the
-- fields restoreCancel, restoreWg and restoreComplete, and Close, while requests are still served.
pub mod Completes
pub mod Waits
pub mod Stops
pub mod Runs
pub mod Ends
use docker_network_dhcp.Base.{
  ℕ, suc, ◌-◌, ◌<◌, ◌≡◌, Bool, true, false, ◌||◌, Option, none, some, List, [], ◌∷◌, ◌++◌, GoString,
  go,
}
use docker_network_dhcp.Base.GoMap.{lookup, values}
use docker_network_dhcp.Util.Outcome.{Outcome, ok, err, panic, Act, wrapping, ◌>>◌}
use docker_network_dhcp.Util.Json.{Writer}
use docker_network_dhcp.Plugin.State.{EndpointState}
use docker_network_dhcp.Plugin.Types.{DhcpManager}
use docker_network_dhcp.Plugin.Env.{Env, Sys}
use docker_network_dhcp.Plugin.Table.{remove_state_entry}
use docker_network_dhcp.Plugin.Leave.{join_begin, join_finish}
use docker_network_dhcp.Plugin.Manager.Start.{Held, Sandbox}
use docker_network_dhcp.Plugin.Restore.{register_restored}
use docker_network_dhcp.Plugin.Service.{stop_manager}
use docker_network_dhcp.Plugin.Api.{Wire, serve}

-- Where the goroutine of StartRestore is. It is `at` a record with so many attempts left and so many
-- records behind it, four attempts in all and a look at the context before each but the first; when Restore has returned it sets restoreComplete, and then the deferred
-- functions run: restoreCancel is cleared, the context cancelled and restoreWg counted down.
pub data Restorer : Type 0 where
  sleeping returned clearing cancelling leaving ended : Restorer
  between : List EndpointState → Restorer
  at : ℕ → EndpointState → List EndpointState → Restorer

-- Where Close is: not called yet, in its Wait, among the managers of its snapshot, or done with the
-- managers that it has stopped and its result.
pub data Closer : Type 0 where
  running waiting : Closer
  stopping : List DhcpManager → List DhcpManager → Closer
  closed : List DhcpManager → Outcome (Unit {0}) → Closer

pub record Shutdown (W : Type 0) : Type 0 where
  pub sys : Sys (Held W)
  pub restorer : Restorer
  pub closer : Closer
  -- is restoreCancel set, and has the context of Restore ended?
  pub restore_cancel : Bool
  pub cancelled : Bool
  pub restore_wg : ℕ
  pub restore_complete : Bool
  -- the managers with which a goroutine of Join has started since Close took its snapshot
  pub joined : List DhcpManager

-- StartRestore has returned.
abbrev pub after_start_restore : {W : Type 0} → Sys (Held W) → Shutdown W
after_start_restore s = record {
  sys = s;
  restorer = sleeping;
  closer = running;
  restore_cancel = true;
  cancelled = false;
  restore_wg = 1;
  restore_complete = false;
  joined = [];
}

-- An attempt whose error says that the endpoint was left is one that failed.
abbrev pub after_attempt : ℕ → EndpointState → List EndpointState → Outcome (Unit {0}) → Restorer
after_attempt n e es (ok _) = between es
after_attempt n e es (err x) = at n e es
after_attempt n e es panic = clearing

-- The error of a Stop is only logged.
abbrev pub after_stop :
    List DhcpManager → DhcpManager → List DhcpManager → Outcome (Unit {0}) → Closer
after_stop before m ms (ok _) = stopping (before ++ (m ∷ [])) ms
after_stop before m ms (err e) = stopping (before ++ (m ∷ [])) ms
after_stop before m ms panic = closed before panic

abbrev pub and_joined : Outcome DhcpManager → List DhcpManager → List DhcpManager
and_joined (ok m) joined = m ∷ joined
and_joined _ joined = joined

module _ {W : Type 0} (env : Env (Held W)) (box : Sandbox W) where
  -- A step of the goroutine. An attempt first looks whether there is a manager, and what it does
  -- before it registers one is outside the plugin.
  pub data Restores (s : Shutdown W) : Shutdown W → Type 0 where
    wakes :
        s.restorer ≡ sleeping
        → Restores s (record s { restorer = between (env.range_state (values s.sys.plugin.state)) })
    takes :
        {e : EndpointState} {es : List EndpointState}
        → s.restorer ≡ between (e ∷ es)
        → s.cancelled ≡ false
        → Restores s (record s { restorer = at 4 e es })
    finds :
        {n : ℕ} {e : EndpointState} {es : List EndpointState} (m : DhcpManager)
        → s.restorer ≡ at (suc n) e es
        → lookup e.endpoint_id s.sys.plugin.persistent_dhcp ≡ some m
        → Restores s (record s { restorer = between es })
    fails :
        {n : ℕ} {e : EndpointState} {es : List EndpointState} (w : Held W)
        → s.restorer ≡ at (suc n) e es
        → Restores s (record s { sys = record s.sys { world = w }; restorer = at n e es })
    registers :
        {n : ℕ} {e : EndpointState} {es : List EndpointState} (m : DhcpManager)
        → s.restorer ≡ at (suc n) e es
        → Restores s (record s {
          sys = (register_restored env box e.endpoint_id m s.sys).1;
          restorer = after_attempt n e es (register_restored env box e.endpoint_id m s.sys).0;
        })
    drops :
        {e : EndpointState} {es : List EndpointState}
        → s.restorer ≡ at 0 e es
        → Restores s
            (record s { sys = remove_state_entry env e.endpoint_id s.sys; restorer = between es })
    gives_up :
        {e : EndpointState} {es : List EndpointState}
        → s.restorer ≡ between (e ∷ es)
        → s.cancelled ≡ true
        → Restores s (record s { restorer = returned })
    gives_up_retry :
        {n : ℕ} {e : EndpointState} {es : List EndpointState}
        → s.restorer ≡ at (suc n) e es
        → n < 3
        → s.cancelled ≡ true
        → Restores s (record s { restorer = returned })
    comes_to_end : s.restorer ≡ between [] → Restores s (record s { restorer = returned })
    panics :
        {n : ℕ} {e : EndpointState} {es : List EndpointState}
        → s.restorer ≡ at n e es
        → Restores s (record s { restorer = clearing })
    completes :
        s.restorer ≡ returned
        → Restores s (record s { restore_complete = true; restorer = clearing })
    clears :
        s.restorer ≡ clearing
        → Restores s (record s { restore_cancel = false; restorer = cancelling })
    cancels :
        s.restorer ≡ cancelling → Restores s (record s { cancelled = true; restorer = leaving })
    leaves :
        s.restorer ≡ leaving
        → Restores s (record s { restore_wg = s.restore_wg - 1; restorer = ended })

module _ {W : Type 0} (env : Env (Held W)) (box : Sandbox W)
    (order : List DhcpManager → List DhcpManager)
    (close_server close_docker : Act (Held W) (Unit {0})) where
  -- The server first, and then the client of the Docker API.
  unfoldable pub close_both : Act (Held W) (Unit {0})
  close_both =
      wrapping (go "failed to close http server") close_server
      >> wrapping (go "failed to close docker client") close_docker

  -- A step of Close; `order` is that of the range over the managers.
  pub data Closes (s : Shutdown W) : Shutdown W → Type 0 where
    begins :
        s.closer ≡ running
        → Closes s (record s { cancelled = s.restore_cancel || s.cancelled; closer = waiting })
    passes :
        s.closer ≡ waiting
        → s.restore_wg ≡ 0
        → Closes s (record s {
          closer = stopping [] (order (values s.sys.plugin.persistent_dhcp));
          joined = [];
        })
    stops :
        {before ms : List DhcpManager} {m : DhcpManager}
        → s.closer ≡ stopping before (m ∷ ms)
        → Closes s (record s {
          sys = record s.sys { world = (stop_manager env box m s.sys.world).1 };
          closer = after_stop before m ms (stop_manager env box m s.sys.world).0;
        })
    finishes :
        {before : List DhcpManager}
        → s.closer ≡ stopping before []
        → Closes s (record s {
          sys = record s.sys { world = (close_both s.sys.world).1 };
          closer = closed before (close_both s.sys.world).0;
        })

module _ {W : Type 0} (env : Env (Held W)) (box : Sandbox W) (wire : Wire)
    (ping : Act (Held W) (Unit {0})) (order : List DhcpManager → List DhcpManager)
    (close_server close_docker : Act (Held W) (Unit {0})) where
  -- A step: one of the goroutine of StartRestore; one of Close; the end of the five minutes; a
  -- request; a critical section of the goroutine of a Join; or the world moves on.
  pub data Step (s : Shutdown W) : Shutdown W → Type 0 where
    restores : {t : Shutdown W} → Restores env box s t → Step s t
    closes : {t : Shutdown W} → Closes env box order close_server close_docker s t → Step s t
    expires : Step s (record s { cancelled = true })
    served :
        (path body : GoString) (w : Writer)
        → Step s (record s {
          sys =
              (serve env wire ping s.restore_complete path body
                (record { sys = s.sys; writer = w })).1.sys;
        })
    begun : (id : GoString) (ctx : ℕ) → Step s (record s { sys = join_begin env id ctx s.sys })
    joins :
        (id : GoString) (o : Outcome DhcpManager)
        → Step s (record s { sys = join_finish env id o s.sys; joined = and_joined o s.joined })
    moved : (w : Held W) → Step s (record s { sys = record s.sys { world = w } })

  pub data Reach (s : Shutdown W) : Shutdown W → Type 0 where
    here : Reach s s
    next : {t u : Shutdown W} → Reach s t → Step t u → Reach s u
