-- ===== src/Plugin/Service/Invariant.antt =====
-- What holds of the tables whatever the plugin goes through, from NewPlugin on.
use docker_network_dhcp.Base.{
  ◌≡◌, refl, Option, none, some, List, [], ◌∷◌, GoString, ◌==◌, ◌==ℕ◌, Bool-cases, inl, inr,
}
use docker_network_dhcp.Base.GoMap.{GoMap, insert}
use docker_network_dhcp.Base.Keyed.{IsKeyed, insert-IsKeyed}
use docker_network_dhcp.Util.Errors.{GoError}
use docker_network_dhcp.Util.Outcome.{Outcome, ok, err, panic, Act, wrap}
use docker_network_dhcp.Plugin.Disk.{Disk, File}
use docker_network_dhcp.Plugin.State.{
  EndpointState, NetworkState, Codec, upgrade, index_state, index_networks, read_with, mapped,
  load_state, load_networks,
}
use docker_network_dhcp.Plugin.Types.{Plugin, DhcpManager}
use docker_network_dhcp.Plugin.Env.{Env, Sys}
use docker_network_dhcp.Plugin.Leave.{join_begin}
use docker_network_dhcp.Plugin.Manager.Start.{Held, Sandbox}
use docker_network_dhcp.Plugin.Restore.{enlist, register_restored}
use docker_network_dhcp.Plugin.Api.{Wire}
use docker_network_dhcp.Plugin.Service.{
  or_no_entries, fresh_plugin, and_tables, and_client, new_plugin, Step, served, begun, finished,
  reattached, given_up, moved, Reach, here, next,
}
use docker_network_dhcp.Plugin.Service.Actions.{
  WellFormed, same_tables, add_entry-WellFormed, update_entry-WellFormed, remove_entry-WellFormed,
  network_added-WellFormed, network_removed-WellFormed,
}
use docker_network_dhcp.Plugin.Service.Sections.{
  Section, touches, registers, unregisters, adds, updates, removes, adds_network, removes_network,
  Sections, none_yet, then_one, Sections-Stable,
}
use docker_network_dhcp.Plugin.Service.Handlers.{join_finish_keeps}
use docker_network_dhcp.Plugin.Service.Requests.{serve_keeps}

abbrev KeyedState : GoMap EndpointState → Type 0
KeyedState = IsKeyed (λ (e : EndpointState). e.endpoint_id)

abbrev KeyedNetworks : GoMap NetworkState → Type 0
KeyedNetworks = IsKeyed (λ (e : NetworkState). e.network_id)

upgrade_keeps_id : (e : EndpointState) → (upgrade e).endpoint_id ≡ e.endpoint_id
unfolding upgrade
upgrade_keeps_id e = elim (Bool-cases (e.schema_version ==ℕ 0)) [
  | inl old ↦ rw old refl
  | inr new ↦ rw new refl
]

index_state-IsKeyed :
    (out : GoMap EndpointState) (es : List EndpointState)
    → KeyedState out
    → KeyedState (index_state out es)
unfolding index_state
index_state-IsKeyed out [] h = h
index_state-IsKeyed out (e ∷ es) h = index_state-IsKeyed (insert e.endpoint_id (upgrade e) out) es (
    insert-IsKeyed (λ (x : EndpointState). x.endpoint_id) e.endpoint_id (upgrade e) out
      (upgrade_keeps_id e) h)

index_networks-IsKeyed :
    (out : GoMap NetworkState) (es : List NetworkState)
    → KeyedNetworks out
    → KeyedNetworks (index_networks out es)
unfolding index_networks
index_networks-IsKeyed out [] h = h
index_networks-IsKeyed out (e ∷ es) h =
    index_networks-IsKeyed (insert e.network_id e out) es
      (insert-IsKeyed (λ (x : NetworkState). x.network_id) e.network_id e out refl h)

along_ok : {B : Type 0} (P : B → Type 0) {a b : B} → ok a ≡ ok b → P a → P b
along_ok P {a} {b} q h = rw (← same) h
  where
    same : a ≡ b
    same = cc (q)

-- What is read of a file holds `P` if an empty table does and every decoded one.
module _ {E B : Type 0} (P : B → Type 0) (index : List E → B)
    (every : (xs : List E) → P (index xs)) where
  mapped_holds :
      (txt : GoString) (o : Outcome (List E)) (b : B) → mapped index (wrap txt o) ≡ ok b → P b
  mapped_holds txt (ok xs) b q = along_ok P q (every xs)
  mapped_holds txt (err e) b q = cc
  mapped_holds txt panic b q = cc

  read_with_holds :
      (fault : Option GoError) (file : Option File) (txt txt' : GoString) (empty : B) (c : Codec E)
      → P empty
      → (b : B)
      → read_with fault file txt empty (λ text. mapped index (wrap txt' (c.decode text))) ≡ ok b
      → P b
  read_with_holds (some e) file txt txt' empty c h b q = cc
  read_with_holds none none txt txt' empty c h b q = along_ok P q h
  read_with_holds none (some file) txt txt' empty c h b q = elim (Bool-cases (file.content == [])) [
    | inl blank ↦ along_ok P (rw blank at q) h
    | inr full ↦ mapped_holds txt' (c.decode file.content) b (rw full at q)
  ]

load_state-IsKeyed :
    (c : Codec EndpointState) (fault : Option GoError) (d : Disk) (m : GoMap EndpointState)
    → load_state c fault d ≡ ok m
    → KeyedState m
unfolding load_state
load_state-IsKeyed c fault d m q =
    read_with_holds KeyedState (index_state []) (λ xs. index_state-IsKeyed [] xs tt) fault _ _ _ []
      c tt m q

load_networks-IsKeyed :
    (c : Codec NetworkState) (fault : Option GoError) (d : Disk) (m : GoMap NetworkState)
    → load_networks c fault d ≡ ok m
    → KeyedNetworks m
unfolding load_networks
load_networks-IsKeyed c fault d m q =
    read_with_holds KeyedNetworks (index_networks []) (λ xs. index_networks-IsKeyed [] xs tt) fault
      _ _ _ [] c tt m q

-- NewPlugin starts with the tables that it loads, or with empty ones.
tables-WellFormed :
    (o : Outcome (GoMap EndpointState)) (n : Outcome (GoMap NetworkState)) (p : Plugin)
    → ((m : GoMap EndpointState) → o ≡ ok m → KeyedState m)
    → ((m : GoMap NetworkState) → n ≡ ok m → KeyedNetworks m)
    → and_tables (or_no_entries o) (or_no_entries n) ≡ ok p
    → WellFormed p
unfolding fresh_plugin
tables-WellFormed (ok m) (ok ns) p hs hn q =
    along_ok WellFormed q (record { state = hs m refl; networks = hn ns refl })
tables-WellFormed (ok m) (err e) p hs hn q =
    along_ok WellFormed q (record { state = hs m refl; networks = tt })
tables-WellFormed (ok m) panic p hs hn q = cc
tables-WellFormed (err e) (ok ns) p hs hn q =
    along_ok WellFormed q (record { state = tt; networks = hn ns refl })
tables-WellFormed (err e) (err e') p hs hn q =
    along_ok WellFormed q (record { state = tt; networks = tt })
tables-WellFormed (err e) panic p hs hn q = cc
tables-WellFormed panic n p hs hn q = cc

client_ok :
    (o : Outcome (Unit {0})) (txt : GoString) (q : Outcome Plugin) (x : Plugin)
    → and_client (wrap txt o) q ≡ ok x
    → q ≡ ok x
client_ok (ok u) txt q x h = h
client_ok (err e) txt q x h = cc
client_ok panic txt q x h = cc

module _ (c : Codec EndpointState) (n : Codec NetworkState) where
  new_plugin-WellFormed :
      (client : Outcome (Unit {0})) (fault fault' : Option GoError) (d : Disk) (p : Plugin)
      → new_plugin c n client fault fault' d ≡ ok p
      → WellFormed p
  unfolding new_plugin
  new_plugin-WellFormed client fault fault' d p q =
      tables-WellFormed (load_state c fault d) (load_networks n fault' d) p
        (load_state-IsKeyed c fault d) (load_networks-IsKeyed n fault' d) (client_ok client _ _ p q)

Section-WellFormed : {p q : Plugin} → Section p q → WellFormed p → WellFormed q
Section-WellFormed (touches s n m) h = same_tables s n h
Section-WellFormed (registers id m) h = same_tables refl refl h
Section-WellFormed (unregisters id) h = same_tables refl refl h
Section-WellFormed {p} (adds e) h = add_entry-WellFormed e p h
Section-WellFormed {p} (updates id f same) h = update_entry-WellFormed id f p same h
Section-WellFormed {p} (removes id) h = remove_entry-WellFormed id p h
Section-WellFormed {p} (adds_network ns) h = network_added-WellFormed ns p h
Section-WellFormed {p} (removes_network id) h = network_removed-WellFormed id p h

pub Sections-WellFormed : {p q : Plugin} → Sections p q → WellFormed p → WellFormed q
Sections-WellFormed none_yet h = h
Sections-WellFormed (then_one r s) h = Section-WellFormed s (Sections-WellFormed r h)

module _ {W : Type 0} (env : Env (Held W)) (box : Sandbox W) (wire : Wire)
    (ping : Act (Held W) (Unit {0})) where
  enlist-Sections :
      (p : Plugin) (id : GoString) (m : DhcpManager) (o : Option DhcpManager)
      (left : Option (Unit {0})) (s : Sys (Held W))
      → Sections p s.plugin
      → Sections p (enlist env box id m o left s).1.plugin
  enlist-Sections p id m (some x) left s h = h
  enlist-Sections p id m none (some x) s h = then_one h (touches refl refl refl)
  enlist-Sections p id m none none s h = then_one h (registers id m)

  Step-Sections :
      (p : Plugin) {s t : Sys (Held W)}
      → Step env box wire ping s t
      → Sections p s.plugin
      → Sections p t.plugin
  unfolding join_begin register_restored
  Step-Sections p (served complete path body w) h =
      serve_keeps env (Sections p) (Sections-Stable env p) wire ping complete path body _ h
  Step-Sections p (begun id ctx) h = then_one h (touches refl refl refl)
  Step-Sections p {s} (finished id o) h =
      join_finish_keeps env (Sections p) (Sections-Stable env p) id o s
        (λ m e q k. then_one k (registers id m)) h
  Step-Sections p {s} (reattached id m) h = enlist-Sections p id m _ _ s h
  Step-Sections p {s} (given_up id) h = (Sections-Stable env p).entry_removed id s h
  Step-Sections p (moved w) h = h

  Reach-Sections : {s t : Sys (Held W)} → Reach env box wire ping s t → Sections s.plugin t.plugin
  Reach-Sections here = none_yet
  Reach-Sections {s} (next r step) = Step-Sections s.plugin step (Reach-Sections r)

  -- Whatever files NewPlugin finds, and whatever requests, Joins and restores come after it in
  -- whatever order: they do to the plugin what a sequence of critical sections of mu does; and, also
  -- after any further sections of requests that have not come to their end, in whatever order, every
  -- record of the two tables stands under its own identifier.
  pub reachable-WellFormed :
      (c : Codec EndpointState) (n : Codec NetworkState) (client : Outcome (Unit {0}))
      (fault fault' : Option GoError) (d : Disk) (s t : Sys (Held W)) (p : Plugin)
      → new_plugin c n client fault fault' d ≡ ok s.plugin
      → Reach env box wire ping s t
      → Sections t.plugin p
      → Sections s.plugin t.plugin × WellFormed p
  reachable-WellFormed c n client fault fault' d s t p q r more = (
    Reach-Sections r,
    Sections-WellFormed more (
        Sections-WellFormed (Reach-Sections r)
          (new_plugin-WellFormed c n client fault fault' d s.plugin q)),
  )
