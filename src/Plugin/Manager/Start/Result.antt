-- ===== src/Plugin/Manager/Start/Result.antt =====
-- The manager that a Start of pkg/plugin/dhcp_manager.go has started.
use docker_network_dhcp.Base.{◌≡◌, true, false, GoString, go, ◌++◌, if◌then◌else◌}
use docker_network_dhcp.Util.Outcome.{Outcome, ok, err, panic, given_ok, pure, wrapping}
use docker_network_dhcp.Util.Await.{Context, await_value}
use docker_network_dhcp.Plugin.Types.{DhcpManager, Link}
use docker_network_dhcp.Plugin.Manager.Start.{
  Held, Sandbox, or_else, within, got_namespace, open_handle, setup_client, start_clients, locate,
  await_link, attach, fetch_hostname, start,
}

-- `m` with the namespace of its request and a hostname, started.
abbrev pub started_as : GoString → DhcpManager → DhcpManager
started_as name m = record m { ns_path = m.join_req.sandbox_key; hostname = name; started = true }

pure-ok : {A : Type 0} {a b : A} → ok a ≡ ok b → b ≡ a
pure-ok e = cc (e)

module _ {W : Type 0} where
  pub or_else-ok :
      {A : Type 0} (undo : Held W → Held W) (o : Outcome A) (h : Held W) {a : A}
      → (or_else undo (o, h)).0 ≡ ok a
      → o ≡ ok a
  or_else-ok undo (ok x) h e = e
  or_else-ok undo (err x) h e = cc
  or_else-ok undo panic h e = cc

module _ {W : Type 0} (box : Sandbox W) where
  pub start_clients-ok :
      (m : DhcpManager) (link : Link) (w : W) {m' : DhcpManager}
      → (start_clients box m link w).0 ≡ ok m'
      → m' ≡ record m { started = true }
  unfolding start_clients
  start_clients-ok m link w e = given_ok (setup_client box false m link w).0 _ _ e λ _ he1 e1.
      given_ok
        ((if m.opts.ipv6 then setup_client box true m link else pure tt)
          (setup_client box false m link w).1).0
        _ _ e1 λ _ he2 e2. pure-ok e2

  attach-ok :
      (ctx : Context W) (m : DhcpManager) (w : W) {m' : DhcpManager}
      → (attach box ctx m w).0 ≡ ok m'
      → m' ≡ record m { started = true }
  unfolding attach
  attach-ok ctx m w e = given_ok (locate box m w).0 _ _ e λ found he1 e1.
      given_ok (await_link box ctx found.0 found.1 (locate box m w).1).0 _ _ e1
        λ link he2 e2. start_clients-ok m link _ e2

  -- A Start that succeeds gives the manager with the namespace of its request and a hostname, and
  -- changes nothing else of it.
  pub start-ok :
      (ctx short : Context W) (m : DhcpManager) (h : Held W) {m' : DhcpManager}
      → (start box ctx short m h).0 ≡ ok m'
      → (name : GoString) × (m' ≡ started_as name m)
  unfolding start
  start-ok ctx short m h e = given_ok (fetch_hostname box short m h.world).0 _ _ e λ name he1 e1.
      given_ok (in_namespace (fetched h)).0 _ _ e1 λ _ he2 e2.
        given_ok (open_handle box handle_text (in_namespace (fetched h)).1).0 _ _ e2
          λ _ he3 e3. (name, attach-ok ctx _ _ (or_else-ok _ _ _ e3))
    where
      fetched : Held W → Held W
      fetched g = record g { world = (fetch_hostname box short m g.world).1 }

      handle_text : GoString
      handle_text = go "failed to open netlink handle in sandbox namespace"

      in_namespace : Held W → Outcome (Unit {0}) × Held W
      in_namespace g = got_namespace (
          wrapping (go "failed to await container netns " ++ m.join_req.sandbox_key)
            (within (await_value ctx (box.get_from_path m.join_req.sandbox_key))) g)
