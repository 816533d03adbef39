-- ===== src/Tests/Restore.antt =====
-- Witnesses for the waiting helpers, the start of a manager and Restore.
use docker_network_dhcp.Base.{
  ℕ, ◌≡◌, refl, ◌≢◌, Bool, true, false, Option, none, some, [], ◌∷◌, go, ◌==ℕ◌, if◌then◌else◌,
  GoString-discrete,
}
use docker_network_dhcp.Base.GoMap.{lookup, values}
use docker_network_dhcp.Base.Keyed.{SameElements}
use docker_network_dhcp.Util.Outcome.{ok, Act}
use docker_network_dhcp.Util.Await.{await_condition}
use docker_network_dhcp.Util.Await.Laws.{Ends, await_condition-Ends}
use docker_network_dhcp.Plugin.Names.{veth_pair_names}
use docker_network_dhcp.Plugin.Manager.Start.{
  Held, start, new_manager, start_clients, setup_client, restore_client, open_handle,
}
use docker_network_dhcp.Plugin.Manager.Start.Handles.{Balanced, start-Balanced}
use docker_network_dhcp.Plugin.State.{EndpointState}
use docker_network_dhcp.Plugin.Options.{short_options}
use docker_network_dhcp.Plugin.Types.{DhcpManager}
use docker_network_dhcp.Plugin.Leave.{join_begin}
use docker_network_dhcp.Plugin.Join.Goroutine.{
  Result, hinted_manager, join_goroutine, join_goroutine-Result,
}
use docker_network_dhcp.Plugin.Restore.{
  restored, restore_endpoint, restore_all, reattach, discard, read_sandbox, find_endpoint_link,
  current_v4, current_v6, first_global, attempts, restore_from_state, register_restored,
}
use docker_network_dhcp.Plugin.Restore.Endpoint.{
  Settled, restore_endpoint-Settled, left_meanwhile, restore_endpoint_after_leave,
}
use docker_network_dhcp.Plugin.Restore.Settled.{quiet_turn, quiet_turns, restore_all_covers}
use docker_network_dhcp.Tests.World.{
  World, the_join, the_hint, bridge_options, the_endpoint, endpoint_id, lease_addr,
}
use docker_network_dhcp.Tests.Sandbox.{box, held_sim, three_polls, nothing_held, restarted}

-- The world has counted to two.
abbrev at_two : Act World (Option ℕ)
at_two w = (ok (if w ==ℕ 2 then some 7 else none), w)

await_condition-Ends_example : Ends three_polls at_two 3 0 (await_condition three_polls at_two 0)
await_condition-Ends_example = await_condition-Ends three_polls at_two 0

start-Balanced_example :
    Balanced nothing_held
      (start box three_polls three_polls (new_manager the_join bridge_options) nothing_held).0
      (start box three_polls three_polls (new_manager the_join bridge_options) nothing_held).1
start-Balanced_example =
    start-Balanced box three_polls three_polls (new_manager the_join bridge_options) nothing_held

abbrev no_turn : ℕ → Bool
no_turn n = false

restore_endpoint-Settled_example :
    Settled held_sim box the_endpoint (
      restore_endpoint held_sim box the_endpoint
        (quiet_turns (λ e. no_turn) the_endpoint)
        restarted)
restore_endpoint-Settled_example =
    restore_endpoint-Settled held_sim box the_endpoint (quiet_turns (λ e. no_turn) the_endpoint)
      restarted

abbrev back : DhcpManager
back =
    record (new_manager
      (record { network_id = the_endpoint.network_id; endpoint_id = endpoint_id; sandbox_key = [] })
      (short_options (go "my-bridge") (go "bridge") false)) {
        last_ip = some lease_addr;
        if_index = 5;
        started = true;
      }

reattaches : (h : Held World) → (reattach box the_endpoint h).0 ≡ ok back
unfolding reattach read_sandbox find_endpoint_link current_v4 current_v6 first_global box
    restore_client start_clients setup_client new_manager short_options veth_pair_names open_handle
    go GoString-discrete
reattaches h = refl

no_manager : lookup endpoint_id restarted.plugin.persistent_dhcp ≡ none
unfolding lookup
no_manager = refl

restore_endpoint_after_leave_example :
    ((restore_endpoint held_sim box the_endpoint
        (left_meanwhile held_sim box endpoint_id (quiet_turn false) (quiet_turn false))
        restarted).0
      ≡ restored)
    × (lookup endpoint_id
          (restore_endpoint held_sim box the_endpoint
            (left_meanwhile held_sim box endpoint_id (quiet_turn false) (quiet_turn false))
            restarted).1.plugin.persistent_dhcp
        ≡ some back)
    × (lookup endpoint_id
          (restore_endpoint held_sim box the_endpoint
            (left_meanwhile held_sim box endpoint_id (quiet_turn false) (quiet_turn false))
            restarted).1.plugin.state
        ≡ none)
restore_endpoint_after_leave_example =
    restore_endpoint_after_leave held_sim box the_endpoint (quiet_turn false) (quiet_turn false)
      restarted no_manager (reattaches nothing_held)
      (reattaches (discard held_sim box back (reattach box the_endpoint nothing_held).1))

abbrev calm_restore : EndpointState → ℕ → Bool
calm_restore e n = false

covered :
    (restore_all held_sim box (quiet_turns calm_restore) (the_endpoint ∷ []) restarted).0 ≡ restored
unfolding restore_all restore_endpoint attempts restore_from_state register_restored reattach
    read_sandbox find_endpoint_link current_v4 current_v6 first_global box restore_client
    start_clients setup_client new_manager short_options veth_pair_names open_handle go
    GoString-discrete lookup
covered = refl

still_listed :
    lookup endpoint_id
      (restore_all held_sim box
        (quiet_turns calm_restore)
        (the_endpoint ∷ [])
        restarted).1.plugin.state
    ≡ some the_endpoint
unfolding restore_all restore_endpoint attempts restore_from_state register_restored reattach
    read_sandbox find_endpoint_link current_v4 current_v6 first_global box restore_client
    start_clients setup_client new_manager short_options veth_pair_names open_handle go
    GoString-discrete lookup
still_listed = refl

listing : SameElements (the_endpoint ∷ []) (values restarted.plugin.state)
unfolding values
listing e = (λ i. i, λ i. i)

restore_all_covers_example :
    lookup endpoint_id
      (restore_all held_sim box
        (quiet_turns calm_restore)
        (the_endpoint ∷ [])
        restarted).1.plugin.persistent_dhcp
    ≢ none
unfolding lookup
restore_all_covers_example =
    restore_all_covers held_sim box calm_restore (the_endpoint ∷ []) restarted endpoint_id
      (refl, refl, tt) listing covered still_listed

join_goroutine-Result_example :
    (lookup endpoint_id
        (join_goroutine held_sim box three_polls three_polls 9
          (λ p. p)
          the_join
          bridge_options
          the_hint
          restarted).plugin.cancel_join
      ≡ none)
    × Result the_join bridge_options the_hint
        (join_begin held_sim endpoint_id 9 restarted).plugin
        (start box three_polls three_polls
          (hinted_manager the_join bridge_options the_hint)
          restarted.world).0
        (join_goroutine held_sim box three_polls three_polls 9
          (λ p. p)
          the_join
          bridge_options
          the_hint
          restarted).plugin
join_goroutine-Result_example =
    join_goroutine-Result held_sim box three_polls three_polls 9 (λ p. p) the_join bridge_options
      the_hint restarted
