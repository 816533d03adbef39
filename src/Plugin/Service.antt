-- ===== src/Plugin/Service.antt =====
-- The life of the plugin: NewPlugin, StartRestore and Close of pkg/plugin/plugin.go, and all that
-- can change its tables as a step relation.
pub mod Actions
pub mod Endpoints
pub mod Handlers
pub mod Requests
pub mod Managers
pub mod Sections
pub mod Invariant
pub mod Restart
use docker_network_dhcp.Base.{
  ℕ, Bool, true, false, Option, none, some, List, [], ◌∷◌, GoString, go, if◌then◌else◌,
}
use docker_network_dhcp.Base.GoMap.{GoMap, values}
use docker_network_dhcp.Util.Errors.{GoError}
use docker_network_dhcp.Util.Outcome.{
  Outcome, ok, err, panic, Act, wrap, ◌>>=◌, ◌>>◌, wrapping, pure,
}
use docker_network_dhcp.Util.Json.{Writer}
use docker_network_dhcp.Plugin.Disk.{Disk}
use docker_network_dhcp.Plugin.State.{EndpointState, NetworkState, Codec, load_state, load_networks}
use docker_network_dhcp.Plugin.Types.{DhcpManager, Plugin}
use docker_network_dhcp.Plugin.Env.{Env, Sys, outside}
use docker_network_dhcp.Plugin.Table.{remove_state_entry}
use docker_network_dhcp.Plugin.Leave.{stop, join_begin, join_finish}
use docker_network_dhcp.Plugin.Manager.Start.{Held, Sandbox, release}
use docker_network_dhcp.Plugin.Restore.{
  Turns, Verdict, restored, dropped, cancelled, panicked, restore_all, register_restored,
}
use docker_network_dhcp.Plugin.Api.{Wire, serve}

-- A file that cannot be read or decoded counts as empty: that is only logged.
abbrev pub or_no_entries : {V : Type 0} → Outcome (GoMap V) → Outcome (GoMap V)
or_no_entries (ok m) = ok m
or_no_entries (err e) = ok []
or_no_entries panic = panic

unfoldable pub fresh_plugin : GoMap EndpointState → GoMap NetworkState → Plugin
fresh_plugin persisted nets = record {
  join_hints = [];
  persistent_dhcp = [];
  state = persisted;
  cancel_join = [];
  left_endpoints = [];
  networks = nets;
  cancelled = [];
}

abbrev pub and_nets : GoMap EndpointState → Outcome (GoMap NetworkState) → Outcome Plugin
and_nets persisted (ok nets) = ok (fresh_plugin persisted nets)
and_nets persisted (err e) = err e
and_nets persisted panic = panic

abbrev pub and_tables :
    Outcome (GoMap EndpointState) → Outcome (GoMap NetworkState) → Outcome Plugin
and_tables (ok persisted) nets = and_nets persisted nets
and_tables (err e) nets = err e
and_tables panic nets = panic

abbrev pub and_client : Outcome (Unit {0}) → Outcome Plugin → Outcome Plugin
and_client (ok _) p = p
and_client (err e) p = err e
and_client panic p = panic

-- Over the disk as it is found, where the system may refuse to read either file. `client` is what
-- the client of the Docker API returns; it does not connect yet.
unfoldable pub new_plugin :
    Codec EndpointState
    → Codec NetworkState
    → Outcome (Unit {0})
    → Option GoError
    → Option GoError
    → Disk
    → Outcome Plugin
new_plugin c n client fault fault' d =
    and_client (wrap (go "failed to create docker client") client)
      (and_tables (or_no_entries (load_state c fault d)) (or_no_entries (load_networks n fault' d)))

module _ {W : Type 0} (env : Env (Held W)) (box : Sandbox W) where
  -- Restore, over the entries in the order in which Go ranges over the table.
  unfoldable pub restore : (EndpointState → Turns) → Sys (Held W) → Verdict × Sys (Held W)
  unfolding restore_all
  restore turns s = restore_all env box turns (env.range_state (values s.plugin.state)) s

  -- The error of a Restore that was cancelled is only logged; a panic is recovered.
  abbrev pub is_complete : Verdict → Bool
  is_complete restored = true
  is_complete dropped = true
  is_complete cancelled = true
  is_complete panicked = false

  -- The goroutine of StartRestore, with the field restoreComplete that it leaves.
  unfoldable pub start_restore : (EndpointState → Turns) → Sys (Held W) → Bool × Sys (Held W)
  unfolding restore
  start_restore turns s = let (v, t) = restore turns s in (is_complete v, t)

  -- The error of a Stop is only logged.
  abbrev pub logged_only : {A : Type 0} → Outcome (Unit {0}) × A → Outcome (Unit {0}) × A
  logged_only (ok _, v) = (ok tt, v)
  logged_only (err e, v) = (ok tt, v)
  logged_only (panic, v) = (panic, v)

  -- Stop, which also closes the handles of a manager that has started.
  unfoldable pub stop_manager : DhcpManager → Act (Held W) (Unit {0})
  unfolding stop
  stop_manager m h = let (o, g) = stop env m h in (o, if m.started then release g else g)

  -- The loop over the managers.
  unfoldable pub stop_all : List DhcpManager → Act (Held W) (Unit {0})
  unfolding stop_manager
  stop_all [] w = (ok tt, w)
  stop_all (m ∷ ms) w = ((λ v. logged_only (stop_manager m v)) >> stop_all ms) w

  -- Close, after the Restore has come to its end; `order` is that of the range over the managers.
  unfoldable pub close :
      (List DhcpManager → List DhcpManager)
      → Act (Held W) (Unit {0})
      → Act (Held W) (Unit {0})
      → Act (Sys (Held W)) (Unit {0})
  unfolding stop_all
  close order close_server close_docker s =
      outside
        (stop_all (order (values s.plugin.persistent_dhcp))
          >> wrapping (go "failed to close http server") close_server
          >> wrapping (go "failed to close docker client") close_docker)
        s

  -- A step: a request; a critical section of the goroutine of Join; the end of an attempt to
  -- reattach, or the removal behind the last; or the world moves on.
  pub data Step (wire : Wire) (ping : Act (Held W) (Unit {0})) (s : Sys (Held W))
      : Sys (Held W) → Type 0 where
    served :
        (complete : Bool) (path body : GoString) (w : Writer)
        → Step wire ping s
            (serve env wire ping complete path body (record { sys = s; writer = w })).1.sys
    begun : (id : GoString) (ctx : ℕ) → Step wire ping s (join_begin env id ctx s)
    finished : (id : GoString) (o : Outcome DhcpManager) → Step wire ping s (join_finish env id o s)
    reattached :
        (id : GoString) (m : DhcpManager) → Step wire ping s (register_restored env box id m s).1
    given_up : (id : GoString) → Step wire ping s (remove_state_entry env id s)
    moved : (w : Held W) → Step wire ping s (record s { world = w })

  pub data Reach (wire : Wire) (ping : Act (Held W) (Unit {0})) (s : Sys (Held W))
      : Sys (Held W) → Type 0 where
    here : Reach wire ping s s
    next : {t u : Sys (Held W)} → Reach wire ping s t → Step wire ping t u → Reach wire ping s u
