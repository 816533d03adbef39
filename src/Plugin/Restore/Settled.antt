-- ===== src/Plugin/Restore/Settled.antt =====
-- What Restore of pkg/plugin/plugin.go leaves behind when no other call changes the plugin.
use docker_network_dhcp.Base.{
  ℕ, ◌≡◌, refl, ◌≢◌, ◌⊎◌, inl, inr, Bool, true, false, Option, none, some, List, [], ◌∷◌, GoString,
  arith, Option-cases, map,
}
use docker_network_dhcp.Base.GoMap.{lookup, insert, values, lookup-insert, lookup-delete}
use docker_network_dhcp.Base.Keyed.{In, SameElements, IsKeyed, lookup-In}
use docker_network_dhcp.Util.Outcome.{Outcome, ok, err, panic, Act, continue}
use docker_network_dhcp.Plugin.State.{EndpointState}
use docker_network_dhcp.Plugin.Types.{DhcpManager, Plugin}
use docker_network_dhcp.Plugin.Env.{Env, Sys, locked}
use docker_network_dhcp.Plugin.Table.{remove_entry}
use docker_network_dhcp.Plugin.Table.Laws.{plugin-remove_state_entry}
use docker_network_dhcp.Plugin.Manager.Start.{Held, Sandbox}
use docker_network_dhcp.Plugin.Restore.{
  Turn, Turns, Verdict, restored, dropped, cancelled, panicked, reattach, enlist, register_restored,
  unless_there, restore_from_state, next_attempt, attempts, restore_endpoint, go_on, restore_all,
}
use docker_network_dhcp.Plugin.Restore.Endpoint.{Settled, restore_endpoint-Settled}

-- No other call changes the plugin; the context may end before any attempt.
abbrev pub quiet_turn : Bool → Turn
quiet_turn c = record { cancelled = c; before = λ p. p; during = λ p. p }

abbrev pub quiet_turns : (EndpointState → ℕ → Bool) → EndpointState → Turns
quiet_turns c e = record {
  first = quiet_turn (c e 0);
  second = quiet_turn (c e 1);
  third = quiet_turn (c e 2);
  fourth = quiet_turn (c e 3);
}

-- From `p` to `p'` no manager goes and no record comes.
pub record Keeps (p p' : Plugin) : Type 0 where
  pub managers :
      (id : GoString) → lookup id p.persistent_dhcp ≢ none → lookup id p'.persistent_dhcp ≢ none
  pub records : (id : GoString) → lookup id p.state ≡ none → lookup id p'.state ≡ none

Keeps-refl : (p : Plugin) → Keeps p p
Keeps-refl p = record { managers = λ id h. h; records = λ id h. h }

Keeps-trans : {p q r : Plugin} → Keeps p q → Keeps q r → Keeps p r
Keeps-trans a b = record {
  managers = λ id h. b.managers id (a.managers id h);
  records = λ id h. b.records id (a.records id h);
}

Keeps-insert :
    (id : GoString) (m : DhcpManager) (p : Plugin)
    → Keeps p (record p { persistent_dhcp = insert id m p.persistent_dhcp })
Keeps-insert id m p = record {
  managers = λ k h. ground (arith, lookup-insert id k m p.persistent_dhcp);
  records = λ k h. h;
}

Keeps-remove_entry : (id : GoString) (p : Plugin) → Keeps p (remove_entry id p)
unfolding remove_entry
Keeps-remove_entry id p = record {
  managers = λ k h. h;
  records = λ k h. ground (arith, lookup-delete id k p.state);
}

absent_present : {A : Type 0} {o : Option A} {a : A} → o ≡ none → o ≡ some a → ⊥
absent_present p q = cc (p, q)

module _ {W : Type 0} (env : Env (Held W)) (box : Sandbox W) where
  enlist-Keeps :
      (id : GoString) (m : DhcpManager) (o : Option DhcpManager) (left : Option (Unit {0}))
      (s : Sys (Held W))
      → Keeps s.plugin (enlist env box id m o left s).1.plugin
  enlist-Keeps id m (some x) left s = Keeps-refl s.plugin
  enlist-Keeps id m none (some x) s = record { managers = λ k h. h; records = λ k h. h }
  enlist-Keeps id m none none s = Keeps-insert id m s.plugin

  attached-Keeps :
      (id : GoString) (p : Outcome DhcpManager × Held W) (s : Sys (Held W))
      → Keeps s.plugin
          (continue p.0
            (λ m t. register_restored env box id m (locked (λ q. q) t))
            (record s { world = p.1 })).1.plugin
  unfolding register_restored
  attached-Keeps id (ok m, w) s = enlist-Keeps id m _ _ (record s { world = w })
  attached-Keeps id (err e, w) s = Keeps-refl s.plugin
  attached-Keeps id (panic, w) s = Keeps-refl s.plugin

  unless_there-Keeps :
      (o : Option DhcpManager) (m : Act (Sys (Held W)) (Unit {0})) (s : Sys (Held W))
      → Keeps s.plugin (m s).1.plugin
      → Keeps s.plugin (unless_there env box o m s).1.plugin
  unless_there-Keeps (some x) m s later = Keeps-refl s.plugin
  unless_there-Keeps none m s later = later

  restore_from_state-Keeps :
      (e : EndpointState) (s : Sys (Held W))
      → Keeps s.plugin (restore_from_state env box (λ p. p) e s).1.plugin
  unfolding restore_from_state
  restore_from_state-Keeps e s =
      unless_there-Keeps (lookup e.endpoint_id s.plugin.persistent_dhcp) _ s
        (attached-Keeps e.endpoint_id (reattach box e s.world) s)

  next_attempt-Keeps :
      (e : EndpointState) (p : Plugin) (r : Outcome (Unit {0}) × Sys (Held W))
      (later : Sys (Held W) → Verdict × Sys (Held W))
      → Keeps p r.1.plugin
      → ((s : Sys (Held W)) → Keeps s.plugin (later s).1.plugin)
      → Keeps p (next_attempt env box e r later).1.plugin
  next_attempt-Keeps e p (ok _, s) later k rest = k
  next_attempt-Keeps e p (err x, s) later k rest = Keeps-trans k (rest s)
  next_attempt-Keeps e p (panic, s) later k rest = k

  attempts-Keeps :
      (e : EndpointState) (cs : List Bool) (s : Sys (Held W))
      → Keeps s.plugin (attempts env box e (map quiet_turn cs) s).1.plugin
  unfolding attempts
  attempts-Keeps e [] s =
      rw (plugin-remove_state_entry env e.endpoint_id s) (Keeps-remove_entry e.endpoint_id s.plugin)
  attempts-Keeps e (true ∷ cs) s = Keeps-refl s.plugin
  attempts-Keeps e (false ∷ cs) s =
      next_attempt-Keeps e s.plugin (restore_from_state env box (λ p. p) e s)
        (attempts env box e (map quiet_turn cs)) (restore_from_state-Keeps e s)
        (attempts-Keeps e cs)

  restore_endpoint-Keeps :
      (c : EndpointState → ℕ → Bool) (e : EndpointState) (s : Sys (Held W))
      → Keeps s.plugin (restore_endpoint env box e (quiet_turns c e) s).1.plugin
  unfolding restore_endpoint
  restore_endpoint-Keeps c e s = attempts-Keeps e (c e 0 ∷ c e 1 ∷ c e 2 ∷ c e 3 ∷ []) s

  -- An endpoint that has a manager or no record.
  abbrev IsDone : GoString → Plugin → Type 0
  IsDone id p = (lookup id p.persistent_dhcp ≢ none) ⊎ (lookup id p.state ≡ none)

  IsDone-Keeps : (id : GoString) {p q : Plugin} → Keeps p q → IsDone id p → IsDone id q
  IsDone-Keeps id k (inl h) = inl (k.managers id h)
  IsDone-Keeps id k (inr h) = inr (k.records id h)

  -- What is shown of the loop over `es`.
  record AllDone (es : List EndpointState) (s : Sys (Held W)) (r : Verdict × Sys (Held W))
      : Type 0 where
    keeps : Keeps s.plugin r.1.plugin
    done : r.0 ≡ restored → (e : EndpointState) → In e es → IsDone e.endpoint_id r.1.plugin

  Settled-IsDone :
      (e : EndpointState) (v : Verdict) (t : Sys (Held W))
      → (v ≡ restored) ⊎ (v ≡ dropped)
      → Settled env box e (v, t)
      → IsDone e.endpoint_id t.plugin
  Settled-IsDone e v t h (inl (_, there)) = inl there
  Settled-IsDone e v t h (inr (inl (_, gone, _))) = inr gone
  Settled-IsDone e v t (inl p) (inr (inr (inl q))) = cc
  Settled-IsDone e v t (inr p) (inr (inr (inl q))) = cc
  Settled-IsDone e v t (inl p) (inr (inr (inr q))) = cc
  Settled-IsDone e v t (inr p) (inr (inr (inr q))) = cc

  AllDone-cons :
      (e : EndpointState) (es : List EndpointState) (s t : Sys (Held W))
      (r : Verdict × Sys (Held W))
      → Keeps s.plugin t.plugin
      → IsDone e.endpoint_id t.plugin
      → AllDone es t r
      → AllDone (e ∷ es) s r
  AllDone-cons e es s t r k d rest = record {
    keeps = Keeps-trans k rest.keeps;
    done = λ q x i. elim i [
      | inl p ↦ rw p (IsDone-Keeps e.endpoint_id rest.keeps d)
      | inr j ↦ rest.done q x j
    ];
  }

  go_on-AllDone :
      (e : EndpointState) (es : List EndpointState) (s : Sys (Held W)) (r : Verdict × Sys (Held W))
      (later : Sys (Held W) → Verdict × Sys (Held W))
      → Keeps s.plugin r.1.plugin
      → Settled env box e r
      → ((t : Sys (Held W)) → AllDone es t (later t))
      → AllDone (e ∷ es) s (go_on env box r later)
  go_on-AllDone e es s (restored, t) later k settled rest =
      AllDone-cons e es s t _ k (Settled-IsDone e restored t (inl refl) settled) (rest t)
  go_on-AllDone e es s (dropped, t) later k settled rest =
      AllDone-cons e es s t _ k (Settled-IsDone e dropped t (inr refl) settled) (rest t)
  go_on-AllDone e es s (cancelled, t) later k settled rest = record { keeps = k; done = λ q. cc }
  go_on-AllDone e es s (panicked, t) later k settled rest = record { keeps = k; done = λ q. cc }

  restore_all-AllDone :
      (c : EndpointState → ℕ → Bool) (es : List EndpointState) (s : Sys (Held W))
      → AllDone es s (restore_all env box (quiet_turns c) es s)
  unfolding restore_all
  restore_all-AllDone c [] s = record { keeps = Keeps-refl s.plugin; done = λ q e i. elim i [ ] }
  restore_all-AllDone c (e ∷ es) s =
      go_on-AllDone e es s (restore_endpoint env box e (quiet_turns c e) s)
        (restore_all env box (quiet_turns c) es) (restore_endpoint-Keeps c e s)
        (restore_endpoint-Settled env box e (quiet_turns c e) s) (restore_all-AllDone c es)

  -- A Restore that comes to its end, over any listing of the table and with no other call between,
  -- leaves a manager for every record that is still in the table.
  pub restore_all_covers :
      (c : EndpointState → ℕ → Bool) (es : List EndpointState) (s : Sys (Held W)) (id : GoString)
      {e : EndpointState}
      → IsKeyed (λ x. x.endpoint_id) s.plugin.state
      → SameElements es (values s.plugin.state)
      → (restore_all env box (quiet_turns c) es s).0 ≡ restored
      → lookup id (restore_all env box (quiet_turns c) es s).1.plugin.state ≡ some e
      → lookup id (restore_all env box (quiet_turns c) es s).1.plugin.persistent_dhcp ≢ none
  restore_all_covers c es s id {e} keyed same finished listed =
      let all = restore_all-AllDone c es s in
      elim (Option-cases (lookup id s.plugin.state)) [
        | inl missing ↦ absurd (absent_present (all.keeps.records id missing) listed)
        | inr (x, there) ↦
            let (named, i) =
              lookup-In (λ (x : EndpointState). x.endpoint_id) id x s.plugin.state keyed there in
            elim (all.done finished x ((same x).1 i)) [
              | inl h ↦ λ q. h (rw named q)
              | inr gone ↦ absurd (absent_present (rw (← named) gone) listed)
            ]
      ]
