-- ===== src/Tests/Sandbox.antt =====
-- A container's namespace with one interface, and contexts of three polls.
use docker_network_dhcp.Base.{◌+◌, true, [], ◌∷◌, go}
use docker_network_dhcp.Util.Errors.{other}
use docker_network_dhcp.Util.Await.{Context}
use docker_network_dhcp.Plugin.Types.{Link}
use docker_network_dhcp.Plugin.Env.{Env, Sys}
use docker_network_dhcp.Plugin.Manager.Start.{Held, Sandbox}
use docker_network_dhcp.Tests.World.{
  World, known, sim_of, lease_addr, endpoint_id, empty_plugin, the_endpoint,
}

abbrev pub tick : World → World
tick w = w + 1

-- The host's end of the pair, and the container's end under the name that Docker gives it.
abbrev pub host_end : Link
host_end = record { name = go "dh-0102"; index = 4; hardware_addr = 2 ∷ []; kind = go "veth" }

abbrev pub container_end : Link
container_end = record { name = go "eth0"; index = 5; hardware_addr = 3 ∷ []; kind = go "veth" }

unfoldable pub box : Sandbox World
box = record {
  get_from_path = λ path. known tick tt;
  new_handle_at = known tick tt;
  link_by_name = λ name. known tick host_end;
  veth_peer_index = λ l. known tick 5;
  link_by_index = λ i. known tick container_end;
  addr_list = λ l family. known tick (lease_addr ∷ []);
  is_global_unicast = λ a. true;
  new_client = λ v6 m l. known tick tt;
  start_client = λ v6 m l. known tick tt;
  containers = λ net. known tick ((go "web", endpoint_id) ∷ []);
  container_hostname = λ ctr. known tick ctr;
  decimal = λ n. go "5";
}

unfoldable pub held_sim : Env (Held World)
unfolding sim_of
held_sim = sim_of (λ h. record h { world = h.world + 1 })

abbrev pub three_polls : Context World
three_polls = record {
  ended = other (go "context deadline exceeded");
  polls_left = λ w. 3;
  wait = λ w. w + 1;
}

abbrev pub nothing_held : Held World
nothing_held = record { world = 0; namespaces = 0; netlinks = 0 }

-- The plugin after a restart: one record, no manager.
abbrev pub restarted : Sys (Held World)
restarted = record {
  plugin = record empty_plugin { state = (endpoint_id, the_endpoint) ∷ [] };
  world = nothing_held;
}
