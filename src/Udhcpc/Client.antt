-- ===== src/Udhcpc/Client.antt =====
-- NewDHCPClient and GetIP of pkg/udhcpc/client.go, from the pipes of the command to the lease.
use docker_network_dhcp.Base.{◌≡◌, refl, inl, inr, true, false, none, List, ◌∷◌, GoString, go}
use docker_network_dhcp.Util.Outcome.{
  Outcome, ok, err, panic, Act, ◌>>◌, wrapping, pure, >>=-eq-ok, wrap-ok,
}
use docker_network_dhcp.Plugin.Env.{Info}
use docker_network_dhcp.Plugin.Manager.{Event}
use docker_network_dhcp.Udhcpc.{DhcpClientOptions, client_args, get_ip}
use docker_network_dhcp.Udhcpc.Lease.{IsLast, get_ip_iff}
use docker_network_dhcp.Udhcpc.Process.{Thread, System, on_world, start, finish}
use docker_network_dhcp.Udhcpc.Process.Namespace.{CanReturn, wanted, start_lem, StartedIn}

-- The pipes of a command of os/exec.
pub record Pipes (W : Type 0) : Type 0 where
  pub stderr_pipe : Act W (Unit {0})
  pub stdout_pipe : Act W (Unit {0})

-- With the arguments of the command.
unfoldable pub new_dhcp_client :
    {W : Type 0} → Pipes W → GoString → DhcpClientOptions → Act W (List GoString)
new_dhcp_client pipes iface opts =
    wrapping (go "failed to set up udhcpc stderr pipe") pipes.stderr_pipe
    >> wrapping (go "failed to set up udhcpc stdout pipe") pipes.stdout_pipe
    >> pure (client_args iface opts)

abbrev pub once : DhcpClientOptions → DhcpClientOptions
once opts = record opts { once = true }

-- `events` are those that the collector has taken when Finish returns; Collecting.antt says which
-- these may be.
module _ {W : Type 0} (pipes : Pipes W) (sys : System W) (events : W → List Event) where
  abbrev pub got : Outcome (Unit {0}) × W → Thread W → Outcome Info × Thread W
  got (o, w) t = (get_ip o (events w), record t { world = w })

  -- NewDHCPClient and Start.
  unfoldable pub started_once : GoString → DhcpClientOptions → Act (Thread W) (Unit {0})
  unfolding new_dhcp_client
  started_once iface opts =
      wrapping (go "failed to create DHCP client")
        (on_world (new_dhcp_client pipes iface (once opts)))
      >> wrapping (go "failed to start DHCP client") (start sys (once opts))

  unfoldable pub get_lease : GoString → DhcpClientOptions → Act (Thread W) Info
  unfolding started_once
  get_lease iface opts = started_once iface opts >> λ t. got (finish sys (once opts) t.world) t

  of_finish :
      (o : Outcome (Unit {0})) (es : List Event) {info : Info}
      → get_ip o es ≡ ok info
      → (o ≡ ok tt) × IsLast info es
  unfolding get_ip
  of_finish (ok u) es {info} e = (refl, (get_ip_iff es info).0 e)
  of_finish (err x) es e = cc
  of_finish panic es e = cc

  -- The thread is in the plugin's own namespace, with no handle more and not locked, and udhcpc was
  -- started in the namespace of the options.
  abbrev pub StartedOnce : DhcpClientOptions → Thread W → Thread W → Type 0
  StartedOnce opts t u =
      (u.namespace ≡ none)
      × (u.handles ≡ t.handles)
      × (u.locked ≡ false)
      × (u.started ≡ wanted opts ∷ t.started)

  started_once-StartedOnce :
      (iface : GoString) (opts : DhcpClientOptions) (t : Thread W)
      → CanReturn sys
      → t.namespace ≡ none
      → t.locked ≡ false
      → {v : Unit {0}} → (started_once iface opts t).0 ≡ ok v
      → StartedOnce opts t (started_once iface opts t).1
  unfolding started_once
  started_once-StartedOnce iface opts t back home free e =
      let (_, _, q, same) = >>=-eq-ok created (λ _. starting) t e in
      rw same (
        in_place behind.0 (created t).1 behind.1
          (start_lem sys back (once opts) (created t).1 home free) (wrap-ok _ behind.0 q))
    where
      created : Act (Thread W) (List GoString)
      created =
          wrapping (go "failed to create DHCP client")
            (on_world (new_dhcp_client pipes iface (once opts)))

      behind : Outcome (Unit {0}) × Thread W
      behind = start sys (once opts) (created t).1

      starting : Act (Thread W) (Unit {0})
      starting = wrapping (go "failed to start DHCP client") (start sys (once opts))

      in_place :
          (r : Outcome (Unit {0})) (t' u : Thread W) {v : Unit {0}}
          → (u.namespace ≡ none)
            × (u.handles ≡ t'.handles)
            × (u.locked ≡ false)
            × StartedIn (wanted (once opts)) t' r u
          → r ≡ ok v
          → (u.namespace ≡ none)
            × (u.handles ≡ t'.handles)
            × (u.locked ≡ false)
            × (u.started ≡ wanted opts ∷ t'.started)
      in_place r t' u (n, h, l, inl (_, s)) q = (n, h, l, s)
      in_place r t' u (n, h, l, inr (not_ok, _)) q = absurd (not_ok q)

  -- A GetIP that returns a lease has started udhcpc in the namespace of the options and left its thread
  -- in the plugin's own, not locked and with no handle more; udhcpc has exited well, and the lease is
  -- that of the last bound or renew event that the collector has taken; where netns.Set to the plugin's
  -- own namespace does not fail.
  pub get_lease-ok :
      (iface : GoString) (opts : DhcpClientOptions) (t : Thread W) {info : Info}
      → CanReturn sys
      → t.namespace ≡ none
      → t.locked ≡ false
      → (get_lease iface opts t).0 ≡ ok info
      → StartedOnce opts t (get_lease iface opts t).1
        × IsLast info (events (get_lease iface opts t).1.world)
        × ((finish sys (once opts) (started_once iface opts t).1.world).0 ≡ ok tt)
  unfolding get_lease
  get_lease-ok iface opts t back home free e =
      let (_, q, k, same) =
        >>=-eq-ok (started_once iface opts) (λ _ u. got (finish sys (once opts) u.world) u) t e in
      let (well, last) = of_finish _ _ k in
      rw same (started_once-StartedOnce iface opts t back home free q, last, well)
