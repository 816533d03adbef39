-- ===== src/Plugin/Service/Actions.antt =====
-- What the steps of the handlers keep, for any predicate that every single change keeps; and tables
-- whose entries stand under their own keys.
use docker_network_dhcp.Base.{
  ◌≡◌, refl, Bool, true, false, GoString, ◌∙◌, if◌then◌else◌, Option-cases, inl, inr,
}
use docker_network_dhcp.Base.GoMap.{lookup, insert, delete}
use docker_network_dhcp.Base.Keyed.{IsKeyed, insert-IsKeyed, delete-IsKeyed, lookup-In}
use docker_network_dhcp.Util.Outcome.{Outcome, ok, err, panic, Act, continue, ◌>>=◌}
use docker_network_dhcp.Plugin.State.{EndpointState, NetworkState}
use docker_network_dhcp.Plugin.Types.{Plugin}
use docker_network_dhcp.Plugin.Env.{Env, Sys}
use docker_network_dhcp.Plugin.Table.{
  add_entry, update_entry, remove_entry, add_state_entry, update_state_entry, remove_state_entry,
  add_network, remove_network,
}

pub record WellFormed (p : Plugin) : Type 0 where
  pub state : IsKeyed (λ (e : EndpointState). e.endpoint_id) p.state
  pub networks : IsKeyed (λ (n : NetworkState). n.network_id) p.networks

-- Only the two tables count.
pub same_tables :
    {p q : Plugin} → p.state ≡ q.state → p.networks ≡ q.networks → WellFormed p → WellFormed q
same_tables s n h = record { state = rw (← s) h.state; networks = rw (← n) h.networks }

-- What requests and goroutines may do to the plugin, and a predicate that all of it keeps: a manager
-- is taken out of the table, an entry or a network is added, changed or removed, and anything may
-- happen to the other fields.
pub record Stable {W : Type 0} (env : Env W) (P : Plugin → Type 0) : Type 0 where
  pub same :
      {p q : Plugin}
      → p.state ≡ q.state
      → p.networks ≡ q.networks
      → p.persistent_dhcp ≡ q.persistent_dhcp
      → P p
      → P q
  pub manager_left :
      (id : GoString) (p : Plugin)
      → P p
      → P (record p { persistent_dhcp = delete id p.persistent_dhcp })
  pub entry_added :
      (e : EndpointState) (s : Sys W) → P s.plugin → P (add_state_entry env e s).plugin
  pub entry_updated :
      (id : GoString) (f : EndpointState → EndpointState) (s : Sys W)
      → ((e : EndpointState) → (f e).endpoint_id ≡ e.endpoint_id)
      → P s.plugin
      → P (update_state_entry env id f s).plugin
  pub entry_removed :
      (id : GoString) (s : Sys W) → P s.plugin → P (remove_state_entry env id s).plugin
  pub network_added : (ns : NetworkState) (s : Sys W) → P s.plugin → P (add_network env ns s).plugin
  pub network_removed :
      (id : GoString) (s : Sys W) → P s.plugin → P (remove_network env id s).plugin

module _ {W : Type 0} (P : Plugin → Type 0) where
  abbrev pub Preserves : {A : Type 0} → Act (Sys W) A → Type 0
  Preserves m = (s : Sys W) → P s.plugin → P (m s).1.plugin

  -- A step that keeps the tables well formed, and what comes after it where it succeeds.
  pub then_keeps :
      {A B : Type 0} (o : Outcome A) (f : A → Act (Sys W) B) (t : Sys W)
      → P t.plugin
      → ((a : A) → P (f a t).1.plugin)
      → P (continue o f t).1.plugin
  then_keeps (ok a) f t h later = later a
  then_keeps (err e) f t h later = h
  then_keeps panic f t h later = h

  pub step_keeps :
      {A B : Type 0} (m : Act (Sys W) A) (f : A → Act (Sys W) B) (s : Sys W)
      → P (m s).1.plugin
      → ((a : A) (t : Sys W) → P t.plugin → P (f a t).1.plugin)
      → P ((m >>= f) s).1.plugin
  step_keeps m f s h later = then_keeps (m s).0 f (m s).1 h (λ a. later a (m s).1 h)

  pub if-Preserves :
      {A : Type 0} (b : Bool) (m n : Act (Sys W) A)
      → Preserves m
      → Preserves n
      → Preserves (if b then m else n)
  if-Preserves true m n p q = p
  if-Preserves false m n p q = q

pub add_entry-WellFormed :
    (e : EndpointState) (p : Plugin) → WellFormed p → WellFormed (add_entry e p)
unfolding add_entry
add_entry-WellFormed e p h = record {
  state =
      insert-IsKeyed (λ (x : EndpointState). x.endpoint_id) e.endpoint_id e p.state refl h.state;
  networks = h.networks;
}

pub update_entry-WellFormed :
    (id : GoString) (f : EndpointState → EndpointState) (p : Plugin)
    → ((e : EndpointState) → (f e).endpoint_id ≡ e.endpoint_id)
    → WellFormed p
    → WellFormed (update_entry id f p)
unfolding update_entry
update_entry-WellFormed id f p same h = elim (Option-cases (lookup id p.state)) [
  | inl missing ↦ rw missing (same_tables refl refl h)
  | inr (e, there) ↦ rw there (record {
    state =
        insert-IsKeyed (λ (x : EndpointState). x.endpoint_id) id (f e) p.state
          (same e ∙ (lookup-In (λ (x : EndpointState). x.endpoint_id) id e p.state h.state there).0)
          h.state;
    networks = h.networks;
  })
]

pub remove_entry-WellFormed :
    (id : GoString) (p : Plugin) → WellFormed p → WellFormed (remove_entry id p)
unfolding remove_entry
remove_entry-WellFormed id p h = record {
  state = delete-IsKeyed (λ (x : EndpointState). x.endpoint_id) id p.state h.state;
  networks = h.networks;
}

pub network_added-WellFormed :
    (ns : NetworkState) (p : Plugin)
    → WellFormed p
    → WellFormed (record p { networks = insert ns.network_id ns p.networks })
network_added-WellFormed ns p h = record {
  state = h.state;
  networks =
      insert-IsKeyed (λ (x : NetworkState). x.network_id) ns.network_id ns p.networks refl
        h.networks;
}

pub network_removed-WellFormed :
    (id : GoString) (p : Plugin)
    → WellFormed p
    → WellFormed (record p { networks = delete id p.networks })
network_removed-WellFormed id p h = record {
  state = h.state;
  networks = delete-IsKeyed (λ (x : NetworkState). x.network_id) id p.networks h.networks;
}
