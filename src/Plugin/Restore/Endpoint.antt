-- ===== src/Plugin/Restore/Endpoint.antt =====
-- What Restore of pkg/plugin/plugin.go does with one endpoint.
use docker_network_dhcp.Base.{
  ◌≡◌, refl, ◌≢◌, ◌⊎◌, inl, inr, false, Option, none, some, List, [], ◌∷◌, GoString, arith,
  Bool-cases,
}
use docker_network_dhcp.Base.GoMap.{lookup, insert, lookup-insert_self, lookup-delete_self}
use docker_network_dhcp.Util.Outcome.{Outcome, ok, err, panic, Act, ◌>>=◌, >>=-eq-ok}
use docker_network_dhcp.Plugin.State.{EndpointState}
use docker_network_dhcp.Plugin.Types.{DhcpManager, Plugin}
use docker_network_dhcp.Plugin.Env.{Env, Sys, outside, locked}
use docker_network_dhcp.Plugin.Table.{remove_entry, remove_state_entry}
use docker_network_dhcp.Plugin.Table.Laws.{plugin-remove_state_entry}
use docker_network_dhcp.Plugin.Leave.{mark_left}
use docker_network_dhcp.Plugin.Manager.Start.{Held, Sandbox}
use docker_network_dhcp.Plugin.Restore.{
  Turn, Turns, Verdict, restored, dropped, cancelled, panicked, reattach, discard, enlist,
  register_restored, left_during_restore, clear_mark, unless_there, restore_from_state,
  next_attempt, attempts, restore_endpoint,
}

module _ {W : Type 0} (env : Env (Held W)) (box : Sandbox W) where
  abbrev pub HasManager : GoString → Sys (Held W) → Type 0
  HasManager id s = lookup id s.plugin.persistent_dhcp ≢ none

  enlist-HasManager :
      (id : GoString) (m : DhcpManager) (o : Option DhcpManager) (left : Option (Unit {0}))
      (s : Sys (Held W))
      → lookup id s.plugin.persistent_dhcp ≡ o
      → (enlist env box id m o left s).0 ≡ ok tt
      → HasManager id (enlist env box id m o left s).1
  enlist-HasManager id m (some x) left s e h = λ q. cc
  enlist-HasManager id m none (some x) s e h = cc
  enlist-HasManager id m none none s e h =
      λ q. cc (lookup-insert_self id m s.plugin.persistent_dhcp, q)

  unless_there-HasManager :
      (id : GoString) (o : Option DhcpManager) (m : Act (Sys (Held W)) (Unit {0}))
      (s : Sys (Held W))
      → lookup id s.plugin.persistent_dhcp ≡ o
      → ((m s).0 ≡ ok tt → HasManager id (m s).1)
      → (unless_there env box o m s).0 ≡ ok tt
      → HasManager id (unless_there env box o m s).1
  unless_there-HasManager id (some x) m s e later h = λ q. cc
  unless_there-HasManager id none m s e later h = later h

  restore_from_state-HasManager :
      (during : Plugin → Plugin) (e : EndpointState) (s : Sys (Held W))
      → (restore_from_state env box during e s).0 ≡ ok tt
      → HasManager e.endpoint_id (restore_from_state env box during e s).1
  unfolding restore_from_state register_restored
  restore_from_state-HasManager during e s h =
      unless_there-HasManager e.endpoint_id (lookup e.endpoint_id s.plugin.persistent_dhcp)
        (outside (reattach box e) >>= λ m t.
          register_restored env box e.endpoint_id m (locked during t))
        s refl
        (λ k.
          let (m, _, f, st) =
            >>=-eq-ok (outside (reattach box e))
              (λ m t. register_restored env box e.endpoint_id m (locked during t)) s k in
          rw st (enlist-HasManager e.endpoint_id m _ _ _ refl f))
        h

  -- How the attempts for one endpoint may end.
  abbrev pub Settled : EndpointState → Verdict × Sys (Held W) → Type 0
  Settled e end =
      ((end.0 ≡ restored) × HasManager e.endpoint_id end.1)
      ⊎ ((end.0 ≡ dropped)
          × (lookup e.endpoint_id end.1.plugin.state ≡ none)
          × (lookup e.endpoint_id end.1.plugin.left_endpoints ≡ none))
      ⊎ (end.0 ≡ cancelled)
      ⊎ (end.0 ≡ panicked)

  dropped-Settled :
      (e : EndpointState) (s : Sys (Held W))
      → Settled e (dropped, remove_state_entry env e.endpoint_id s)
  unfolding remove_entry
  dropped-Settled e s = inr (
      inl (
        refl,
        rw (plugin-remove_state_entry env e.endpoint_id s)
            (lookup-delete_self e.endpoint_id s.plugin.state),
        rw (plugin-remove_state_entry env e.endpoint_id s)
            (lookup-delete_self e.endpoint_id s.plugin.left_endpoints),
      ))

  next_attempt-Settled :
      (e : EndpointState) (p : Outcome (Unit {0}) × Sys (Held W))
      (later : Sys (Held W) → Verdict × Sys (Held W))
      → (p.0 ≡ ok tt → HasManager e.endpoint_id p.1)
      → ((s : Sys (Held W)) → Settled e (later s))
      → Settled e (next_attempt env box e p later)
  next_attempt-Settled e (ok _, s) later here rest = inl (refl, here refl)
  next_attempt-Settled e (err x, s) later here rest = rest s
  next_attempt-Settled e (panic, s) later here rest = inr (inr (inr refl))

  attempts-Settled :
      (e : EndpointState) (ts : List Turn) (s : Sys (Held W)) → Settled e (attempts env box e ts s)
  unfolding attempts
  attempts-Settled e [] s = dropped-Settled e s
  attempts-Settled e (t ∷ ts) s = elim (Bool-cases t.cancelled) [
    | inl c ↦ rw c (inr (inr (inl refl)))
    | inr c ↦ rw c (
        next_attempt-Settled e (restore_from_state env box t.during e (locked t.before s))
          (attempts env box e ts) (restore_from_state-HasManager t.during e (locked t.before s))
          (attempts-Settled e ts))
  ]

  -- Restore's attempts at an endpoint, whatever other calls do to the plugin around them, end
  -- with a manager for the endpoint, or with no record and no mark of it, unless the context ends
  -- or an attempt panics.
  pub restore_endpoint-Settled :
      (e : EndpointState) (t : Turns) (s : Sys (Held W))
      → Settled e (restore_endpoint env box e t s)
  unfolding restore_endpoint
  restore_endpoint-Settled e t s =
      attempts-Settled e (t.first ∷ t.second ∷ t.third ∷ t.fourth ∷ []) s

  managers-mark_left :
      (id : GoString) (p : Plugin) → (mark_left env id p).persistent_dhcp ≡ p.persistent_dhcp
  unfolding mark_left
  managers-mark_left id p = ground arith

  left-mark_left :
      (id : GoString) (p : Plugin) → lookup id (mark_left env id p).left_endpoints ≡ some tt
  unfolding mark_left
  left-mark_left id p = lookup-insert_self id tt _

  attempt_left :
      (e : EndpointState) (s : Sys (Held W)) {m : DhcpManager}
      → lookup e.endpoint_id s.plugin.persistent_dhcp ≡ none
      → (reattach box e s.world).0 ≡ ok m
      → restore_from_state env box (mark_left env e.endpoint_id) e s ≡ (
        err left_during_restore,
        record {
          plugin = clear_mark e.endpoint_id (mark_left env e.endpoint_id s.plugin);
          world = discard env box m (reattach box e s.world).1;
        },
      )
  unfolding restore_from_state register_restored
  attempt_left e s missing attached = rw missing (
      rw attached
        (rw managers-mark_left (rw missing (rw (left-mark_left e.endpoint_id s.plugin) refl))))

  attempt_attaches :
      (e : EndpointState) (s : Sys (Held W)) {m : DhcpManager}
      → lookup e.endpoint_id s.plugin.persistent_dhcp ≡ none
      → lookup e.endpoint_id s.plugin.left_endpoints ≡ none
      → (reattach box e s.world).0 ≡ ok m
      → restore_from_state env box (λ p. p) e s ≡ (
        ok tt,
        record {
          plugin = record s.plugin {
            persistent_dhcp = insert e.endpoint_id m s.plugin.persistent_dhcp;
          };
          world = (reattach box e s.world).1;
        },
      )
  unfolding restore_from_state register_restored
  attempt_attaches e s missing unmarked attached =
      rw missing (rw attached (rw (missing, unmarked) refl))

  -- A Leave that comes while the first attempt runs sets its mark, and removes the record and the
  -- mark before the second attempt.
  abbrev pub left_meanwhile : GoString → Turn → Turn → Turns
  left_meanwhile id third fourth = record {
    first = record { cancelled = false; before = λ p. p; during = mark_left env id };
    second = record { cancelled = false; before = remove_entry id; during = λ p. p };
    third = third;
    fourth = fourth;
  }

  -- A Leave comes while the first attempt of Restore at its endpoint runs, and has removed the
  -- record and its own mark before the second. If both attempts can reattach to the namespace, then
  -- Restore ends with a manager for the endpoint, which has left and has no record.
  pub restore_endpoint_after_leave :
      (e : EndpointState) (third fourth : Turn) (s : Sys (Held W)) {m m' : DhcpManager}
      → lookup e.endpoint_id s.plugin.persistent_dhcp ≡ none
      → (reattach box e s.world).0 ≡ ok m
      → (reattach box e (discard env box m (reattach box e s.world).1)).0 ≡ ok m'
      → ((restore_endpoint env box e (left_meanwhile e.endpoint_id third fourth) s).0 ≡ restored)
        × (lookup e.endpoint_id
              (restore_endpoint env box e
                (left_meanwhile e.endpoint_id third fourth)
                s).1.plugin.persistent_dhcp
            ≡ some m')
        × (lookup e.endpoint_id
              (restore_endpoint env box e
                (left_meanwhile e.endpoint_id third fourth)
                s).1.plugin.state
            ≡ none)
  unfolding restore_endpoint attempts remove_entry
  restore_endpoint_after_leave e third fourth s {m} {m'} missing first second =
      rw (attempt_left e s missing first) (
        rw
          (attempt_attaches e
            (record {
              plugin =
                  remove_entry e.endpoint_id
                    (clear_mark e.endpoint_id (mark_left env e.endpoint_id s.plugin));
              world = discard env box m (reattach box e s.world).1;
            })
            (rw managers-mark_left missing) (lookup-delete_self e.endpoint_id _) second)
          (refl, lookup-insert_self e.endpoint_id m' _, lookup-delete_self e.endpoint_id _))
