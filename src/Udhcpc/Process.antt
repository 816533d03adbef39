-- ===== src/Udhcpc/Process.antt =====
-- Start, Finish and Drain of pkg/udhcpc/client.go: the process of udhcpc, and the network namespace of
-- the thread that starts it.
pub mod Namespace
use docker_network_dhcp.Base.{
  ℕ, ◌+◌, ◌-◌, Bool, true, false, not, Option, none, some, List, [], ◌∷◌, ◌++◌, GoString, go, ◌==◌,
  if◌then◌else◌,
}
use docker_network_dhcp.Util.Errors.{GoError}
use docker_network_dhcp.Util.Outcome.{Outcome, ok, err, panic, Act, ◌>>=◌, ◌>>◌, wrapping, pure}
use docker_network_dhcp.Udhcpc.{DhcpClientOptions}

-- The thread of the goroutine: the path of the namespace that it is in, none for the plugin's own;
-- the handles of namespaces that are open; whether it is locked; and the namespaces in which it has
-- started a process, the latest first.
pub record Thread (W : Type 0) : Type 0 where
  pub world : W
  pub namespace : Option GoString
  pub handles : ℕ
  pub locked : Bool
  pub started : List (Option GoString)

-- netns and the process of udhcpc.
pub record System (W : Type 0) : Type 0 where
  pub get : Act W (Unit {0})
  pub get_from_path : GoString → Act W (Unit {0})
  -- netns.Set, to the namespace at a path or back to the plugin's own
  pub set : Option GoString → Act W (Unit {0})
  pub start_command : Act W (Unit {0})
  pub sigterm : Act W (Unit {0})
  pub kill : Act W (Unit {0})
  -- what the process exits with, or none if the context ends first, and the error of the context
  pub wait : W → Option (Outcome (Unit {0})) × W
  pub ended : GoError

module _ {W : Type 0} where
  abbrev pub on_world : {A : Type 0} → Act W A → Act (Thread W) A
  on_world m t = let (r, w) = m t.world in (r, record t { world = w })

  -- What a call that succeeds does to the thread.
  abbrev pub having :
      (Thread W → Thread W) → Outcome (Unit {0}) × Thread W → Outcome (Unit {0}) × Thread W
  having f (ok _, t) = (ok tt, f t)
  having f (err e, t) = (err e, t)
  having f (panic, t) = (panic, t)

  abbrev pub opened : Thread W → Thread W
  opened t = record t { handles = t.handles + 1 }

  abbrev pub closed : Thread W → Thread W
  closed t = record t { handles = t.handles - 1 }

  -- `defer`
  abbrev pub deferred :
      (Thread W → Thread W) → Act (Thread W) (Unit {0}) → Act (Thread W) (Unit {0})
  deferred last m t = let (r, t') = m t in (r, last t')

module _ {W : Type 0} (sys : System W) where
  -- `defer netns.Set(origNS)`, whose error nobody reads.
  abbrev pub set_back : Outcome (Unit {0}) × W → Thread W → Thread W
  set_back (ok _, w) t = record t { namespace = none; world = w }
  set_back (_, w) t = record t { world = w }

  abbrev pub go_back : Thread W → Thread W
  go_back t = set_back (sys.set none t.world) t

  unfoldable pub launch : Act (Thread W) (Unit {0})
  launch t =
      having (λ u. record u { started = u.namespace ∷ u.started }) (on_world sys.start_command t)

  unfoldable pub enter : GoString → Act (Thread W) (Unit {0})
  unfolding launch
  enter path =
      (λ t.
        having (λ u. record u { namespace = some path })
          (wrapping (go "failed to enter network namespace") (on_world (sys.set (some path))) t))
      >> deferred go_back launch

  -- The text of the error quotes the path.
  unfoldable pub launch_in : GoString → Act (Thread W) (Unit {0})
  unfolding enter
  launch_in path =
      (λ t. having opened (
        wrapping (go "failed to open network namespace " ++ (96 ∷ (path ++ (96 ∷ []))))
          (on_world (sys.get_from_path path)) t))
      >> deferred closed (enter path)

  -- With the thread locked, and the plugin's own namespace held open.
  unfoldable pub start : DhcpClientOptions → Act (Thread W) (Unit {0})
  unfolding launch_in launch
  start opts t =
      if opts.namespace == []
      then launch t
      else deferred (λ u. record u { locked = false })
          ((λ u.
              having opened
                (wrapping (go "failed to open current network namespace") (on_world sys.get) u))
            >> deferred closed (launch_in opts.namespace))
          (record t { locked = true })

  -- A context that ends first has the process killed; an error of Kill is only logged.
  abbrev pub exited : Option (Outcome (Unit {0})) × W → Outcome (Unit {0}) × W
  exited (some o, w) = (o, w)
  exited (none, w) = (err sys.ended, (sys.kill w).1)

  unfoldable pub finish : DhcpClientOptions → Act W (Unit {0})
  finish opts =
      (if opts.once then pure tt else wrapping (go "failed to send SIGTERM to udhcpc") sys.sigterm)
      >> (λ w. exited (sys.wait w))

  -- Drain, for a process that has ended by itself.
  unfoldable pub drain : W → W
  drain w = (sys.wait w).1
