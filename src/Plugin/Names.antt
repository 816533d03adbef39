-- ===== src/Plugin/Names.antt =====
-- The names that are cut from an identifier (shortID in pkg/plugin/plugin.go, vethPairNames in
-- pkg/plugin/network.go).
pub mod Laws
use docker_network_dhcp.Base.{◌++◌, GoString, go, length, take, ltb, leb, if◌then◌else◌}
use docker_network_dhcp.Util.Outcome.{Outcome, ok, panic}

unfoldable pub short_id : GoString → GoString
short_id id = if leb (length id) 12 then id else take 12 id

-- `id[:12]`: out of range for a shorter string, which panics.
unfoldable pub slice12 : GoString → Outcome GoString
slice12 id = if ltb (length id) 12 then panic else ok (take 12 id)

abbrev pub with_names : Outcome GoString → Outcome (GoString × GoString)
with_names (ok cut) = ok (go "dh-" ++ cut, cut ++ go "-dh")
with_names _ = panic

unfoldable pub veth_pair_names : GoString → Outcome (GoString × GoString)
unfolding slice12
veth_pair_names id = with_names (slice12 id)
