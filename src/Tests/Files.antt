-- ===== src/Tests/Files.antt =====
-- Witnesses for the saves and for the order in which they are written.
use mathlib.Core.Option
use docker_network_dhcp.Base.{◌≡◌, refl, ◌≢◌, true, none, some, [], ◌∷◌, GoString}
use docker_network_dhcp.Base.GoMap.{GoMap, lookup, values}
use docker_network_dhcp.Util.Outcome.{ok}
use docker_network_dhcp.Plugin.Disk.{Disk}
use docker_network_dhcp.Plugin.Disk.Atomic.{begin}
use docker_network_dhcp.Plugin.State.{
  NetworkState, EndpointState, stamp, state_file, save_state, load_state,
}
use docker_network_dhcp.Plugin.State.Save.{IsAtomicSave, save_state_atomic}
use docker_network_dhcp.Plugin.State.RoundTrip.{load_state-save_state}
use docker_network_dhcp.Plugin.Table.Race.{Shared, Reach, lost_update}
use docker_network_dhcp.Tests.Codecs.{unary, unary-IsLossless, quiet, quiet-IsQuiet, full_disk}
use docker_network_dhcp.Tests.World.{the_endpoint, the_network, endpoint_id, net_id, empty_plugin}

abbrev old_disk : Disk
old_disk = record {
  dir = true;
  files = (state_file, record { mode = 384; content = 1 ∷ []; synced = true }) ∷ [];
}

abbrev table : GoMap EndpointState
table = (endpoint_id, the_endpoint) ∷ []

abbrev networks : GoMap NetworkState
networks = (net_id, the_network) ∷ []

save_state_atomic_example :
    IsAtomicSave full_disk
      (unary the_endpoint)
      (λ es. es)
      table
      old_disk
      (save_state full_disk (unary the_endpoint) (λ es. es) table (begin old_disk)).0
      (save_state full_disk (unary the_endpoint) (λ es. es) table (begin old_disk)).1
save_state_atomic_example =
    save_state_atomic full_disk (unary the_endpoint) (λ es. es) table old_disk

load_state-save_state_example :
    (loaded : GoMap EndpointState) × (load_state
        (unary the_endpoint)
        none
        (save_state quiet (unary the_endpoint) (λ es. es) table (begin old_disk)).1.disk
      ≡ ok loaded)
    × ((k : GoString) → lookup k loaded ≡ Option.map stamp (lookup k table))
unfolding values stamp lookup
load_state-save_state_example =
    load_state-save_state quiet (unary the_endpoint) (λ es. es) table old_disk quiet-IsQuiet
      (unary-IsLossless the_endpoint) (λ e. (λ i. i, λ i. i)) (refl, refl, tt) (refl, tt)

abbrev calm : Shared
calm = record { plugin = empty_plugin; file = []; pending = [] }

abbrev one_saved : Shared
one_saved = record { plugin = record empty_plugin { state = table }; file = table; pending = [] }

abbrev second : EndpointState
second = record the_endpoint { endpoint_id = 9 ∷ [] }

two_apart : the_endpoint.endpoint_id ≢ second.endpoint_id
two_apart e = cc

lost_update_example :
    (t : Shared) × Reach calm t
    × (t.pending ≡ [])
    × (lookup second.endpoint_id t.plugin.state ≡ some second)
    × (lookup second.endpoint_id t.file ≡ lookup second.endpoint_id calm.plugin.state)
lost_update_example = lost_update calm the_endpoint second refl two_apart
