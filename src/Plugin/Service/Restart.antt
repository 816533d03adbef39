-- ===== src/Plugin/Service/Restart.antt =====
-- A restart of the plugin: what the tables held is what the next NewPlugin starts with.
use mathlib.Core.Option
use docker_network_dhcp.Base.{
  ◌≡◌, refl, ◌≢◌, Option, none, some, List, [], GoString, go, ◌==◌, Bool-cases, inl, inr, All, map,
  ◌∙◌, ap,
}
use docker_network_dhcp.Base.GoMap.{GoMap, lookup, values}
use docker_network_dhcp.Base.Keyed.{SameElements}
use docker_network_dhcp.Util.Errors.{GoError}
use docker_network_dhcp.Util.Outcome.{Outcome, ok, err, panic, Act, wrap}
use docker_network_dhcp.Plugin.Disk.{Disk, File, Faults}
use docker_network_dhcp.Plugin.Disk.Atomic.{begin}
use docker_network_dhcp.Plugin.State.{
  EndpointState, NetworkState, Codec, stamp, load_state, load_networks, save_state, networks_file,
  index_networks, mapped, read_with,
}
use docker_network_dhcp.Plugin.State.RoundTrip.{IsQuiet, IsLossless, load_state-save_state}
use docker_network_dhcp.Plugin.Types.{Plugin}
use docker_network_dhcp.Plugin.Env.{Env, Sys}
use docker_network_dhcp.Plugin.Manager.Start.{Held, Sandbox}
use docker_network_dhcp.Plugin.Api.{Wire}
use docker_network_dhcp.Plugin.Service.{or_no_entries, fresh_plugin, and_nets, new_plugin, Reach}
use docker_network_dhcp.Plugin.Service.Sections.{none_yet}
use docker_network_dhcp.Plugin.Service.Invariant.{reachable-WellFormed}

-- Networks that cannot be read do not keep the plugin from starting.
starts_with :
    (m : GoMap EndpointState) (o : Outcome (GoMap NetworkState))
    → o ≢ panic
    → (p : Plugin) × (and_nets m (or_no_entries o) ≡ ok p)
      × (p.state ≡ m)
      × (p.persistent_dhcp ≡ [])
unfolding fresh_plugin
starts_with m (ok ns) h = (fresh_plugin m ns, refl, refl, refl)
starts_with m (err e) h = (fresh_plugin m [], refl, refl, refl)
starts_with m panic h = absurd (h refl)

-- Where json.Unmarshal does not panic, loadNetworks does not.
pub load_networks-ne-panic :
    (n : Codec NetworkState) (fault : Option GoError)
    → ((text : GoString) → n.decode text ≢ panic)
    → (d : Disk) → load_networks n fault d ≢ panic
unfolding load_networks
load_networks-ne-panic n (some e) calm d = λ q. cc
load_networks-ne-panic n none calm d = of_file (lookup networks_file d.files)
  where
    decoded :
        (txt : GoString) (o : Outcome (List NetworkState))
        → o ≢ panic
        → mapped (index_networks []) (wrap txt o) ≢ panic
    decoded txt (ok xs) h = λ q. cc
    decoded txt (err e) h = λ q. cc
    decoded txt panic h = λ q. h refl

    of_file :
        (o : Option File)
        → read_with none o
            (go "read networks file")
            []
            (λ text. mapped (index_networks []) (wrap (go "decode networks file") (n.decode text)))
          ≢ panic
    of_file none = λ q. cc
    of_file (some file) = elim (Bool-cases (file.content == [])) [
      | inl blank ↦ rw blank (λ q. cc)
      | inr full ↦ rw full (decoded _ (n.decode file.content) (calm file.content))
    ]

new_plugin-load_state :
    (c : Codec EndpointState) (n : Codec NetworkState) (fault fault' : Option GoError) (d : Disk)
    (m : GoMap EndpointState)
    → load_state c fault d ≡ ok m
    → load_networks n fault' d ≢ panic
    → (p : Plugin) × (new_plugin c n (ok tt) fault fault' d ≡ ok p)
      × (p.state ≡ m)
      × (p.persistent_dhcp ≡ [])
unfolding new_plugin
new_plugin-load_state c n fault fault' d m loaded calm =
    rw loaded (starts_with m (load_networks n fault' d) calm)

module _ {W : Type 0} (env : Env (Held W)) (box : Sandbox W) (wire : Wire)
    (ping : Act (Held W) (Unit {0})) where
  -- From any start of the plugin and after anything that it has gone through: if the table of
  -- endpoints is saved, the system refusing nothing, then the next NewPlugin starts with every
  -- entry under its key, in the current version, with no other entry and with no manager yet,
  -- whether or not the file of the networks can be read.
  pub restart_keeps :
      (c : Codec EndpointState) (n : Codec NetworkState) (client : Outcome (Unit {0}))
      (fault fault' fault'' : Option GoError) (d d' : Disk) (s t : Sys (Held W)) (f : Faults)
      (order : List EndpointState → List EndpointState) {Writable : EndpointState → Type 0}
      → new_plugin c n client fault fault' d ≡ ok s.plugin
      → Reach env box wire ping s t
      → IsQuiet f
      → IsLossless c Writable
      → SameElements (order (values t.plugin.state)) (values t.plugin.state)
      → All Writable (map stamp (order (values t.plugin.state)))
      → ((text : GoString) → n.decode text ≢ panic)
      → (p : Plugin) × (new_plugin c n
            (ok tt)
            none
            fault''
            (save_state f c order t.plugin.state (begin d')).1.disk
          ≡ ok p)
        × ((k : GoString) → lookup k p.state ≡ Option.map stamp (lookup k t.plugin.state))
        × (p.persistent_dhcp ≡ [])
  restart_keeps c n client fault fault' fault'' d d' s t f order q r quiet law same fits calm =
      let keyed =
        (reachable-WellFormed env box wire ping c n client fault fault' d s t t.plugin q r
          none_yet).1.state in
      let (m, loaded, entries) =
        load_state-save_state f c order t.plugin.state d' quiet law same keyed fits in
      let (p, started, is_m, idle) =
        new_plugin-load_state c n none fault'' _ m loaded
          (load_networks-ne-panic n fault'' calm _) in
      (p, started, λ k. ap (lookup k) is_m ∙ entries k, idle)
