-- ===== src/Plugin/Manager/Start/Handles.antt =====
-- The handles that Start and RestoreClient of pkg/plugin/dhcp_manager.go leave open.
use docker_network_dhcp.Base.{ℕ, ◌+◌, ◌≡◌, refl, ◌⊎◌, inl, inr, GoString, arith}
use docker_network_dhcp.Util.Errors.{GoError}
use docker_network_dhcp.Util.Outcome.{Outcome, ok, err, panic, Act, continue, wrap}
use docker_network_dhcp.Util.Await.{Context, await_value}
use docker_network_dhcp.Plugin.Types.{DhcpManager, Link}
use docker_network_dhcp.Plugin.Manager.Start.{
  Held, Sandbox, close_namespace, release, or_else, got_namespace, got_handle, open_handle,
  start_clients, restore_client, fetch_hostname, attach, start,
}

module _ {W : Type 0} where
  -- The two counts of open handles are those of `h` with `n` more.
  abbrev pub Opened : ℕ → Held W → Held W → Type 0
  Opened n h h' = (h'.namespaces ≡ h.namespaces + n) × (h'.netlinks ≡ h.netlinks + n)

  -- A success holds one more handle of each kind, an error none.
  abbrev pub Balanced : {A : Type 0} → Held W → Outcome A → Held W → Type 0
  Balanced {A} h r h' =
      (((a : A) × (r ≡ ok a)) × Opened 1 h h')
      ⊎ (((e : GoError) × (r ≡ err e)) × Opened 0 h h')
      ⊎ (r ≡ panic)

  released-Balanced :
      {A : Type 0} (h g : Held W) (p : Outcome A × W)
      → Opened 1 h g
      → Balanced h
          (or_else release (p.0, record g { world = p.1 })).0
          (or_else release (p.0, record g { world = p.1 })).1
  released-Balanced h g (ok a, w) o = inl ((a, refl), o)
  released-Balanced h g (err e, w) (n, l) = inr (inl ((e, refl), (omega arith, omega arith)))
  released-Balanced h g (panic, w) o = inr (inr refl)

  module _ {A : Type 0} (h : Held W) (rest : Act (Held W) A) where
    -- `rest` is balanced against a state with `n` handles fewer.
    abbrev After : ℕ → ℕ → Type 0
    After n l =
        (g : Held W)
        → g.namespaces ≡ h.namespaces + n
        → g.netlinks ≡ h.netlinks + l
        → Balanced h (rest g).0 (rest g).1

    handle-Balanced :
        (text : GoString) (p : Outcome (Unit {0}) × W) (g : Held W)
        → g.namespaces ≡ h.namespaces + 1
        → g.netlinks ≡ h.netlinks + 0
        → After 1 1
        → Balanced h
            (continue
              (or_else close_namespace (got_handle (wrap text p.0, record g { world = p.1 }))).0
              (λ _. rest)
              (or_else close_namespace (got_handle (wrap text p.0, record g { world = p.1 }))).1).0
            (continue
              (or_else close_namespace (got_handle (wrap text p.0, record g { world = p.1 }))).0
              (λ _. rest)
              (or_else close_namespace (got_handle (wrap text p.0, record g { world = p.1 }))).1).1
    handle-Balanced text (ok _, w) g n l later = later _ n (omega arith)
    handle-Balanced text (err e, w) g n l later = inr (inl ((_, refl), (omega arith, omega arith)))
    handle-Balanced text (panic, w) g n l later = inr (inr refl)

    namespace-Balanced :
        (text : GoString) (p : Outcome (Unit {0}) × W) (g : Held W)
        → g.namespaces ≡ h.namespaces + 0
        → g.netlinks ≡ h.netlinks + 0
        → After 1 0
        → Balanced h
            (continue
              (got_namespace (wrap text p.0, record g { world = p.1 })).0
              (λ _. rest)
              (got_namespace (wrap text p.0, record g { world = p.1 })).1).0
            (continue
              (got_namespace (wrap text p.0, record g { world = p.1 })).0
              (λ _. rest)
              (got_namespace (wrap text p.0, record g { world = p.1 })).1).1
    namespace-Balanced text (ok _, w) g n l later = later _ (omega arith) l
    namespace-Balanced text (err e, w) g n l later = inr (inl ((_, refl), (n, l)))
    namespace-Balanced text (panic, w) g n l later = inr (inr refl)

  world-Balanced :
      {A B : Type 0} (h : Held W) (rest : A → Act (Held W) B) (p : Outcome A × W)
      → ((a : A) → After h (rest a) 0 0)
      → Balanced h
          (continue p.0 rest (record h { world = p.1 })).0
          (continue p.0 rest (record h { world = p.1 })).1
  world-Balanced h rest (ok a, w) later = later a _ (omega arith) (omega arith)
  world-Balanced h rest (err e, w) later = inr (inl ((e, refl), (omega arith, omega arith)))
  world-Balanced h rest (panic, w) later = inr (inr refl)

module _ {W : Type 0} (box : Sandbox W) where
  -- Start holds both handles of the manager open if it succeeds, and none if it fails. A handle
  -- that AwaitNetNS opens while its context ends, and that nobody reads, is not counted.
  pub start-Balanced :
      (ctx short : Context W) (m : DhcpManager) (h : Held W)
      → Balanced h (start box ctx short m h).0 (start box ctx short m h).1
  unfolding start open_handle
  start-Balanced ctx short m h =
      world-Balanced h _ (fetch_hostname box short m h.world) λ hostname g n l.
        namespace-Balanced h _ _
          (await_value ctx (box.get_from_path m.join_req.sandbox_key) g.world) g n l
          λ g1 n1 l1.
            handle-Balanced h _ _ (box.new_handle_at g1.world) g1 n1 l1
              λ g2 n2 l2. released-Balanced h g2 (attach box ctx _ g2.world) (n2, l2)

  -- RestoreClient keeps the two handles that it is given open if it succeeds, and closes both if
  -- it fails.
  pub restore_client-Balanced :
      (m : DhcpManager) (link : Link) (h g : Held W)
      → Opened 1 h g
      → Balanced h (restore_client box m link g).0 (restore_client box m link g).1
  unfolding restore_client
  restore_client-Balanced m link h g o = released-Balanced h g (start_clients box m link g.world) o
