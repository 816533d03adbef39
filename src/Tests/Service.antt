-- ===== src/Tests/Service.antt =====
-- Witnesses for the answers to requests and for the life of the plugin.
use mathlib.Core.Option
use docker_network_dhcp.Base.{
  ◌≡◌, refl, ◌↔◌, true, false, none, some, [], ◌∷◌, GoString, go, All, map, GoString-discrete,
}
use docker_network_dhcp.Base.GoMap.{lookup, insert, values}
use docker_network_dhcp.Util.Errors.{other, error_text, bad_request}
use docker_network_dhcp.Util.Outcome.{Outcome, ok, err, Act}
use docker_network_dhcp.Util.Json.{Writer}
use docker_network_dhcp.Util.Json.Laws.{HasStatus}
use docker_network_dhcp.Plugin.Disk.{Disk}
use docker_network_dhcp.Plugin.Disk.Atomic.{begin}
use docker_network_dhcp.Plugin.State.{
  state_file, networks_file, stamp, upgrade, index_state, load_state, load_networks, save_state,
}
use docker_network_dhcp.Plugin.Types.{Plugin, CreateNetworkRequest}
use docker_network_dhcp.Plugin.Env.{Sys}
use docker_network_dhcp.Plugin.Network.{create_network}
use docker_network_dhcp.Base.Keyed.{SameElements}
use docker_network_dhcp.Plugin.Leave.{join_begin}
use docker_network_dhcp.Plugin.Manager.Start.{Held}
use docker_network_dhcp.Plugin.Api.{Wire, Exchange, empty, answer, healthz, patterns, serve}
use docker_network_dhcp.Plugin.Api.Laws.{IsFaulty, answer-bad_request}
use docker_network_dhcp.Plugin.Api.Once.{AnswersOnce, serve-AnswersOnce}
use docker_network_dhcp.Plugin.Service.{
  fresh_plugin, new_plugin, served, begun, moved, Reach, here, next,
}
use docker_network_dhcp.Plugin.Table.{add_entry}
use docker_network_dhcp.Plugin.Service.Actions.{WellFormed}
use docker_network_dhcp.Plugin.Service.Sections.{Sections, adds, none_yet, then_one}
use docker_network_dhcp.Plugin.Service.Invariant.{reachable-WellFormed}
use docker_network_dhcp.Plugin.Service.Restart.{restart_keeps}
use docker_network_dhcp.Tests.World.{
  World, the_join, the_request, the_endpoint, the_network, endpoint_id, net_id,
}
use docker_network_dhcp.Tests.Sandbox.{box, held_sim, nothing_held, restarted}
use docker_network_dhcp.Tests.Codecs.{unary, unary-IsLossless, quiet, quiet-IsQuiet}

-- An empty body does not parse, and any other is the same request.
abbrev pub parses : {A : Type 0} → A → GoString → Outcome A
parses a [] = err (other (go "EOF"))
parses a (x ∷ xs) = ok a

abbrev pub creation : CreateNetworkRequest
creation = record { network_id = net_id; options = []; ipv4_data = [] }

abbrev pub json : GoString
json = go "{}"

abbrev pub wire : Wire
wire = record {
  create_network_request = parses creation;
  delete_network_request = parses net_id;
  create_endpoint_request =
      parses (record { network_id = net_id; endpoint_id = endpoint_id; interface = none });
  endpoint_request = parses the_request;
  join_request = parses the_join;
  capabilities_response = λ r. ok json;
  empty_response = ok json;
  create_endpoint_response = λ r. ok json;
  info_response = λ r. ok json;
  join_response = λ r. ok json;
  healthz_response = λ r. ok json;
  json_error = λ e. ok (error_text e);
  not_found = λ w. w;
}

abbrev blank : Writer
blank = record { content_type = []; statuses = []; body = [] }

abbrev exchange : Exchange (Held World)
exchange = record { sys = restarted; writer = blank }

abbrev pub no_docker : Act (Held World) (Unit {0})
no_docker h = (err (other (go "connection refused")), h)

answer-bad_request_example :
    HasStatus
      (answer wire (parses creation) (create_network held_sim) (empty wire) [] exchange).1.writer
      bad_request
    ↔ IsFaulty wire
        (empty wire)
        (λ e. (error_text e, refl))
        (create_network held_sim)
        (parses creation [])
        restarted
answer-bad_request_example =
    answer-bad_request wire (empty wire) (λ e. (error_text e, refl)) (create_network held_sim)
      (parses creation) [] exchange refl

healthz_path : lookup (go "/healthz") patterns ≡ some healthz
unfolding lookup patterns go GoString-discrete
healthz_path = refl

serve-AnswersOnce_example :
    AnswersOnce
      (serve held_sim wire no_docker false (go "/healthz") [] exchange).0
      (serve held_sim wire no_docker false (go "/healthz") [] exchange).1.writer
serve-AnswersOnce_example =
    serve-AnswersOnce held_sim wire no_docker false (go "/healthz") [] healthz exchange healthz_path
      refl

-- A disk with the record of one endpoint, and with no file of networks.
abbrev one_record : Disk
one_record = record {
  dir = true;
  files = (state_file, record { mode = 384; content = 0 ∷ 1 ∷ []; synced = true }) ∷ [];
}

abbrev pub started : Sys (Held World)
started = record {
  plugin = fresh_plugin ((endpoint_id, the_endpoint) ∷ []) [];
  world = nothing_held;
}

starts :
    new_plugin (unary the_endpoint) (unary the_network) (ok tt) none none one_record
    ≡ ok started.plugin
unfolding new_plugin load_state load_networks state_file networks_file index_state upgrade lookup
    insert go GoString-discrete
starts = refl

-- A CreateNetwork, and then the world moves on.
abbrev after_request : Sys (Held World)
after_request =
    (serve held_sim wire no_docker false (go "/NetworkDriver.CreateNetwork") json
      (record { sys = started; writer = blank })).1.sys

abbrev later :
    Reach held_sim box wire no_docker started (record after_request { world = nothing_held })
later =
    next (next here (served false (go "/NetworkDriver.CreateNetwork") json blank))
      (moved nothing_held)

-- And then a section of another request.
reachable-WellFormed_example :
    Sections started.plugin after_request.plugin
    × WellFormed (add_entry the_endpoint after_request.plugin)
reachable-WellFormed_example =
    reachable-WellFormed held_sim box wire no_docker (unary the_endpoint) (unary the_network)
      (ok tt) none none one_record started (record after_request { world = nothing_held })
      (add_entry the_endpoint after_request.plugin) starts later
      (then_one none_yet (adds the_endpoint))

-- The goroutine of a Join has begun.
abbrev joining : Sys (Held World)
joining = join_begin held_sim endpoint_id 9 started

same_listing : SameElements (values joining.plugin.state) (values joining.plugin.state)
same_listing e = (λ i. i, λ i. i)

writable : All (λ e. e ≡ the_endpoint) (map stamp (values joining.plugin.state))
unfolding values stamp join_begin fresh_plugin
writable = (refl, tt)

restart_keeps_example :
    (p : Plugin) × (new_plugin
        (unary the_endpoint)
        (unary the_network)
        (ok tt)
        none
        none
        (save_state quiet
          (unary the_endpoint)
          (λ es. es)
          joining.plugin.state
          (begin one_record)).1.disk
      ≡ ok p)
    × ((k : GoString) → lookup k p.state ≡ Option.map stamp (lookup k joining.plugin.state))
    × (p.persistent_dhcp ≡ [])
restart_keeps_example =
    restart_keeps held_sim box wire no_docker (unary the_endpoint) (unary the_network) (ok tt) none
      none none one_record one_record started joining quiet (λ es. es) starts
      (next here (begun endpoint_id 9)) quiet-IsQuiet (unary-IsLossless the_endpoint) same_listing
      writable (λ text p. cc)
