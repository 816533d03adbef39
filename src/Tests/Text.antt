-- ===== src/Tests/Text.antt =====
-- Witnesses for the statuses, the names and the test of a plugin's image.
use docker_network_dhcp.Base.{◌≡◌, refl, ◌≢◌, [], ◌∷◌, ◌++◌, GoString, go, length, arith}
use docker_network_dhcp.Util.Errors.{GoError, sentinel, wrapped, err_bridge_used}
use docker_network_dhcp.Util.Outcome.{ok}
use docker_network_dhcp.Plugin.Names.{veth_pair_names}
use docker_network_dhcp.Plugin.Names.Laws.{max_name, veth_pair_names_lem}
use docker_network_dhcp.Tests.World.{endpoint_id}

abbrev deep : GoError
deep = wrapped (go "a") (wrapped (go "b") (sentinel err_bridge_used))

veth_pair_names_lem_example :
    (host : GoString) × (ctr : GoString) × (veth_pair_names endpoint_id ≡ ok (host, ctr))
    × (length host ≡ max_name)
    × (length ctr ≡ max_name)
    × (host ≢ ctr)
veth_pair_names_lem_example = veth_pair_names_lem endpoint_id (omega arith)

abbrev other_id : GoString
other_id = 1 ∷ 2 ∷ 3 ∷ 4 ∷ 5 ∷ 6 ∷ 7 ∷ 8 ∷ 9 ∷ 10 ∷ 11 ∷ 12 ∷ 99 ∷ []

abbrev cut : GoString
cut = 1 ∷ 2 ∷ 3 ∷ 4 ∷ 5 ∷ 6 ∷ 7 ∷ 8 ∷ 9 ∷ 10 ∷ 11 ∷ 12 ∷ []

abbrev names : GoString × GoString
names = (go "dh-" ++ cut, cut ++ go "-dh")

named : veth_pair_names endpoint_id ≡ ok names
unfolding veth_pair_names
named = refl

other_named : veth_pair_names other_id ≡ ok names
unfolding veth_pair_names
other_named = refl

abbrev image : GoString
image = go "ghcr.io/docker-net-dhcp:latest"
