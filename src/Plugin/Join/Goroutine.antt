-- ===== src/Plugin/Join/Goroutine.antt =====
-- The goroutine that Join of pkg/plugin/network.go starts, as a whole: it starts a manager at the
-- addresses of the hint and registers it.
use mathlib.Core.Option
use docker_network_dhcp.Base.{
  ◌≡◌, ◌≢◌, refl, true, ℕ, none, some, [], ◌==◌, if◌then◌else◌, GoString, Option-cases, Bool-cases,
  inl, inr,
}
use docker_network_dhcp.Base.GoMap.{lookup, lookup-delete_self, lookup-insert_self}
use docker_network_dhcp.Util.Outcome.{Outcome, ok, err, panic}
use docker_network_dhcp.Util.Await.{Context}
use docker_network_dhcp.Plugin.Types.{
  DhcpManager, DhcpNetworkOptions, JoinHint, JoinRequest, Plugin,
}
use docker_network_dhcp.Plugin.Env.{Env, Sys, locked}
use docker_network_dhcp.Plugin.State.{EndpointState}
use docker_network_dhcp.Plugin.Table.{update_entry, update_state_entry}
use docker_network_dhcp.Plugin.Leave.{join_begin, join_finish, join_end}
use docker_network_dhcp.Plugin.Leave.Laws.{lookup-join_finish, join_finish_of_left}
use docker_network_dhcp.Plugin.Manager.Start.{Held, Sandbox, new_manager, start}
use docker_network_dhcp.Plugin.Manager.Start.Result.{started_as, start-ok}

abbrev pub hinted_manager : JoinRequest → DhcpNetworkOptions → JoinHint → DhcpManager
hinted_manager r opts hint = record (new_manager r opts) {
  last_ip = hint.ipv4;
  last_ipv6 = hint.ipv6;
  if_index = hint.if_index;
}

abbrev pub with_hostname : GoString → EndpointState → EndpointState
with_hostname name e = record e { hostname = if name == [] then e.hostname else name }

-- A manager that has started for the request, at the addresses and the index of the hint.
pub record IsJoined (r : JoinRequest) (opts : DhcpNetworkOptions) (hint : JoinHint)
    (name : GoString) (x : DhcpManager) : Type 0 where
  pub request : x.join_req ≡ r
  pub options : x.opts ≡ opts
  pub ipv4 : x.last_ip ≡ hint.ipv4
  pub ipv6 : x.last_ipv6 ≡ hint.ipv6
  pub index : x.if_index ≡ hint.if_index
  pub namespace : x.ns_path ≡ r.sandbox_key
  pub hostname : x.hostname ≡ name
  pub started : x.started ≡ true

-- What has become of the manager: `o` is what Start returns, `q` the plugin before and `t` behind.
pub data Result (r : JoinRequest) (opts : DhcpNetworkOptions) (hint : JoinHint) (q : Plugin)
    (o : Outcome DhcpManager) (t : Plugin) : Type 0 where
  not_started :
      ((x : DhcpManager) → o ≢ ok x)
      → t.persistent_dhcp ≡ q.persistent_dhcp
      → t.state ≡ q.state
      → Result r opts hint q o t
  was_left :
      lookup r.endpoint_id q.left_endpoints ≡ some tt
      → lookup r.endpoint_id t.left_endpoints ≡ none
      → t.persistent_dhcp ≡ q.persistent_dhcp
      → t.state ≡ q.state
      → Result r opts hint q o t
  joined :
      (name : GoString) (x : DhcpManager)
      → lookup r.endpoint_id q.left_endpoints ≡ none
      → lookup r.endpoint_id t.persistent_dhcp ≡ some x
      → IsJoined r opts hint name x
      → lookup r.endpoint_id t.state
        ≡ Option.map (with_hostname name) (lookup r.endpoint_id q.state)
      → Result r opts hint q o t

module _ {W : Type 0} (env : Env (Held W)) (box : Sandbox W) where
  -- With the contexts of Start, the identity of the first, and what other calls do to the plugin
  -- while Start runs. A panic is recovered, after the deferred calls.
  unfoldable pub join_goroutine :
      Context W
      → Context W
      → ℕ
      → (Plugin → Plugin)
      → JoinRequest
      → DhcpNetworkOptions
      → JoinHint
      → Sys (Held W)
      → Sys (Held W)
  unfolding join_begin
  join_goroutine ctx short id during r opts hint s =
      let t = join_begin env r.endpoint_id id s in
      let (o, h) = start box ctx short (hinted_manager r opts hint) t.world in
      join_finish env r.endpoint_id o (locked during (record t { world = h }))

  -- The deferred deletion, in every case.
  cancel_join-join_finish :
      (id : GoString) (o : Outcome DhcpManager) (s : Sys (Held W))
      → lookup id (join_finish env id o s).plugin.cancel_join ≡ none
  unfolding join_finish join_end
  cancel_join-join_finish id o s = lookup-delete_self id _

  -- The record of the endpoint, if there is one, gets the hostname, if that is known.
  state-join_finish :
      (id : GoString) (m : DhcpManager) (s : Sys (Held W))
      → lookup id s.plugin.left_endpoints ≡ none
      → lookup id (join_finish env id (ok m) s).plugin.state
        ≡ Option.map (with_hostname m.hostname) (lookup id s.plugin.state)
  unfolding join_finish join_end update_state_entry update_entry
  state-join_finish id m s free = rw free (elim (Option-cases (lookup id s.plugin.state)) [
    | inl missing ↦ rw missing (elim (Bool-cases (m.hostname == [])) [
      | inl unnamed ↦ rw (unnamed, missing) refl
      | inr named ↦ rw (named, missing) refl
    ])
    | inr (e, there) ↦ rw there (elim (Bool-cases (m.hostname == [])) [
      | inl unnamed ↦ rw (unnamed, there) refl
      | inr named ↦ rw (named, lookup-insert_self id _ s.plugin.state) refl
    ])
  ])

  module _ (r : JoinRequest) (opts : DhcpNetworkOptions) (hint : JoinHint) where
    started_as-IsJoined :
        (name : GoString) → IsJoined r opts hint name (started_as name (hinted_manager r opts hint))
    unfolding new_manager
    started_as-IsJoined name = record {
      request = refl;
      options = refl;
      ipv4 = refl;
      ipv6 = refl;
      index = refl;
      namespace = refl;
      hostname = refl;
      started = refl;
    }

    finish-Result :
        (x : DhcpManager) (name : GoString) (s : Sys (Held W))
        → x ≡ started_as name (hinted_manager r opts hint)
        → Result r opts hint s.plugin (ok x) (join_finish env r.endpoint_id (ok x) s).plugin
    finish-Result x name s e = elim (Option-cases (lookup r.endpoint_id s.plugin.left_endpoints)) [
      | inl free ↦
          let m : DhcpManager = started_as name (hinted_manager r opts hint) in
          rw e (
            joined name m free (lookup-join_finish env r.endpoint_id m s free)
              (started_as-IsJoined name) (state-join_finish r.endpoint_id m s free))
      | inr (u, left) ↦
          let (unmarked, managers, state, _) = join_finish_of_left env r.endpoint_id x s left in
          was_left left unmarked managers state
    ]

    ended-Result :
        (o : Outcome DhcpManager) (s : Sys (Held W))
        → ((x : DhcpManager)
            → o ≡ ok x
            → (name : GoString) × (x ≡ started_as name (hinted_manager r opts hint)))
        → Result r opts hint s.plugin o (join_finish env r.endpoint_id o s).plugin
    unfolding join_finish join_end
    ended-Result (ok x) s started = let (name, e) = started x refl in finish-Result x name s e
    ended-Result (err e) s started = not_started (λ x q. cc) refl refl
    ended-Result panic s started = not_started (λ x q. cc) refl refl

  -- Whatever other calls do while Start runs, the goroutine of Join takes its CancelFunc out again. If
  -- Start fails, it leaves managers and records alone. If Start succeeds and the endpoint has been
  -- marked as left, it registers nothing and takes the mark away. Otherwise it registers a manager that
  -- stands at the addresses and the index of the hint, started in the namespace of the request, and its
  -- hostname, if there is one, goes into the record of the endpoint, if there is one.
  pub join_goroutine-Result :
      (ctx short : Context W) (id : ℕ) (during : Plugin → Plugin) (r : JoinRequest)
      (opts : DhcpNetworkOptions) (hint : JoinHint) (s : Sys (Held W))
      → (lookup r.endpoint_id (join_goroutine ctx short id during r opts hint s).plugin.cancel_join
          ≡ none)
        × Result r opts hint
            (during (join_begin env r.endpoint_id id s).plugin)
            (start box ctx short (hinted_manager r opts hint) s.world).0
            (join_goroutine ctx short id during r opts hint s).plugin
  unfolding join_goroutine join_begin
  join_goroutine-Result ctx short id during r opts hint s = (
    cancel_join-join_finish r.endpoint_id _ _,
    ended-Result r opts hint _ _
        (λ x e. start-ok box ctx short (hinted_manager r opts hint) s.world e),
  )
