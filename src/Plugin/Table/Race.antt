-- ===== src/Plugin/Table/Race.antt =====
-- Two locks, one file: addStateEntry and the others change p.state and copy it under `mu`, let
-- `mu` go, and write the copy under `saveMu`. Between the two the calls of several goroutines
-- interleave: the step relation says how, and the file is what the order of the writes makes it.
use docker_network_dhcp.Base.{
  ◌≡◌, refl, ◌≢◌, ◌⊎◌, Option, none, some, All, List, [], ◌∷◌, ◌++◌, GoString, arith,
}
use docker_network_dhcp.Base.GoMap.{GoMap, lookup, lookup-insert, lookup-insert_self}
use docker_network_dhcp.Plugin.State.{EndpointState}
use docker_network_dhcp.Plugin.Types.{Plugin}
use docker_network_dhcp.Plugin.Table.{add_entry, update_entry, remove_entry, copy_state}

-- A call that changes the table and saves it.
pub data Change : Type 0 where
  add : EndpointState → Change
  update : GoString → (EndpointState → EndpointState) → Change
  remove : GoString → Change

unfoldable pub apply : Change → Plugin → Plugin
unfolding add_entry update_entry remove_entry
apply (add e) p = add_entry e p
apply (update id f) p = update_entry id f p
apply (remove id) p = remove_entry id p

-- The plugin, the content of the file, and the snapshots that are not yet written, the oldest
-- first.
pub record Shared : Type 0 where
  pub plugin : Plugin
  pub file : GoMap EndpointState
  pub pending : List (GoMap EndpointState)

-- A removal of what is not there is not saved.
abbrev if_existed : Option EndpointState → GoMap EndpointState → List (GoMap EndpointState)
if_existed none snapshot = []
if_existed (some e) snapshot = snapshot ∷ []

-- The snapshot that a call is going to write.
abbrev pub snapshots : Change → Plugin → List (GoMap EndpointState)
snapshots (add e) p = copy_state (apply (add e) p) ∷ []
snapshots (update id f) p = copy_state (apply (update id f) p) ∷ []
snapshots (remove id) p = if_existed (lookup id p.state) (copy_state (apply (remove id) p))

-- The critical section of `mu`.
unfoldable pub change_table : Change → Shared → Shared
unfolding apply copy_state
change_table c s = record s {
  plugin = apply c s.plugin;
  pending = s.pending ++ snapshots c s.plugin;
}

-- The critical section of `saveMu`, which any waiting call may enter next. A save that fails is only
-- logged.
pub data Step (s : Shared) : Shared → Type 0 where
  change : (c : Change) → Step s (change_table c s)
  write :
      (before after : List (GoMap EndpointState)) (snapshot : GoMap EndpointState)
      → s.pending ≡ before ++ (snapshot ∷ after)
      → Step s (record s { file = snapshot; pending = before ++ after })
  write_fails :
      (before after : List (GoMap EndpointState)) (snapshot : GoMap EndpointState)
      → s.pending ≡ before ++ (snapshot ∷ after)
      → Step s (record s { pending = before ++ after })

pub data Reach (s : Shared) : Shared → Type 0 where
  here : Reach s s
  next : {t u : Shared} → Reach s t → Step t u → Reach s u

module _ (s : Shared) where
  -- What was in the file at first, or the table at a moment between `s` and `t`.
  abbrev WasTable : Shared → GoMap EndpointState → Type 0
  WasTable t m = (m ≡ s.file) ⊎ ((u : Shared) × Reach s u × Reach u t × (m ≡ u.plugin.state))

  abbrev Known : Shared → Type 0
  Known t = WasTable t t.file × All (WasTable t) t.pending

-- The locks do not order the writes. Two calls of addStateEntry can leave the second entry out of
-- the file for good, while the table has it: the file keeps what it had before for that key.
pub lost_update :
    (s : Shared) (e1 e2 : EndpointState)
    → s.pending ≡ []
    → e1.endpoint_id ≢ e2.endpoint_id
    → (t : Shared) × Reach s t
      × (t.pending ≡ [])
      × (lookup e2.endpoint_id t.plugin.state ≡ some e2)
      × (lookup e2.endpoint_id t.file ≡ lookup e2.endpoint_id s.plugin.state)
unfolding change_table
lost_update s e1 e2 quiet apart =
    let s1 : Shared = change_table (add e1) s in
    let s2 : Shared = change_table (add e2) s1 in
    let m1 : GoMap EndpointState = s1.plugin.state in
    let m2 : GoMap EndpointState = s2.plugin.state in
    let both : s2.pending ≡ (m1 ∷ []) ++ (m2 ∷ []) = rw quiet in
    let t : Shared = record s2 { file = m1; pending = [] } in
    (
      t,
      next
          (next (next (next here (change (add e1))) (change (add e2))) (write (m1 ∷ []) [] m2 both))
          (write [] [] m1 refl),
      refl,
      lookup-insert_self e2.endpoint_id e2 s1.plugin.state,
      ground (arith, lookup-insert e1.endpoint_id e2.endpoint_id e1 s.plugin.state),
    )
