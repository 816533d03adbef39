-- ===== src/Plugin/Api.antt =====
-- pkg/plugin/endpoints.go, and the routes and the health check of pkg/plugin/plugin.go: a request
-- is decoded, handled, and its outcome is encoded.
pub mod Laws
pub mod Once
use docker_network_dhcp.Base.{
  ℕ, Bool, true, false, not, Option, none, some, List, [], ◌∷◌, ◌++◌, GoString, go, length,
  if◌then◌else◌,
}
use docker_network_dhcp.Base.GoMap.{GoMap, lookup}
use docker_network_dhcp.Util.Errors.{GoError}
use docker_network_dhcp.Util.Outcome.{Outcome, ok, err, panic, Act}
use docker_network_dhcp.Util.Json.{
  Writer, status_ok, json_response, json_err_response, parse_json_body,
}
use docker_network_dhcp.Plugin.Types.{
  CreateNetworkRequest, CreateEndpointRequest, EndpointRequest, EndpointInterface, JoinRequest,
  JoinResponse,
}
use docker_network_dhcp.Plugin.Env.{Env, Sys}
use docker_network_dhcp.Plugin.Network.{create_network, delete_network}
use docker_network_dhcp.Plugin.Endpoint.Create.{create_endpoint}
use docker_network_dhcp.Plugin.Endpoint.Delete.{OperInfo, delete_endpoint, endpoint_oper_info}
use docker_network_dhcp.Plugin.Join.{join}
use docker_network_dhcp.Plugin.Leave.{leave}

pub record CapabilitiesResponse : Type 0 where
  pub scope : GoString
  pub connectivity_scope : GoString

pub record HealthzResponse : Type 0 where
  pub status : GoString
  pub docker_connected : Bool
  pub endpoints : ℕ
  pub restore_complete : Bool

-- encoding/json at the requests and responses, and ServeMux where no pattern is registered.
pub record Wire : Type 0 where
  pub create_network_request : GoString → Outcome CreateNetworkRequest
  pub delete_network_request : GoString → Outcome GoString
  pub create_endpoint_request : GoString → Outcome CreateEndpointRequest
  pub endpoint_request : GoString → Outcome EndpointRequest
  pub join_request : GoString → Outcome JoinRequest
  pub capabilities_response : CapabilitiesResponse → Outcome GoString
  pub empty_response : Outcome GoString
  pub create_endpoint_response : EndpointInterface → Outcome GoString
  pub info_response : Option OperInfo → Outcome GoString
  pub join_response : JoinResponse → Outcome GoString
  pub healthz_response : HealthzResponse → Outcome GoString
  pub json_error : GoError → Outcome GoString
  pub not_found : Writer → Writer

-- The plugin with its world, and the answer to one request.
pub record Exchange (W : Type 0) : Type 0 where
  pub sys : Sys W
  pub writer : Writer

-- The handlers that NewPlugin registers.
pub data Api : Type 0 where
  get_capabilities create_network_api delete_network_api create_endpoint_api : Api
  endpoint_oper_info_api delete_endpoint_api join_api leave_api healthz noop : Api

abbrev pub driver_path : GoString → GoString
driver_path method = go "/NetworkDriver." ++ method

unfoldable pub patterns : GoMap Api
patterns =
    (driver_path (go "GetCapabilities"), get_capabilities)
    ∷ (driver_path (go "CreateNetwork"), create_network_api)
    ∷ (driver_path (go "DeleteNetwork"), delete_network_api)
    ∷ (driver_path (go "CreateEndpoint"), create_endpoint_api)
    ∷ (driver_path (go "EndpointOperInfo"), endpoint_oper_info_api)
    ∷ (driver_path (go "DeleteEndpoint"), delete_endpoint_api)
    ∷ (driver_path (go "Join"), join_api)
    ∷ (driver_path (go "Leave"), leave_api)
    ∷ (go "/healthz", healthz)
    ∷ (driver_path (go "ProgramExternalConnectivity"), noop)
    ∷ (driver_path (go "RevokeExternalConnectivity"), noop)
    ∷ (driver_path (go "AllocateNetwork"), noop)
    ∷ (driver_path (go "FreeNetwork"), noop)
    ∷ (driver_path (go "DiscoverNew"), noop)
    ∷ (driver_path (go "DiscoverDelete"), noop)
    ∷ []

abbrev pub capabilities : CapabilitiesResponse
capabilities = record { scope = go "local"; connectivity_scope = go "global" }

abbrev pub status_service_unavailable : ℕ
status_service_unavailable = 503

abbrev pub is_ok : {A : Type 0} → Outcome A → Bool
is_ok (ok a) = true
is_ok (err e) = false
is_ok panic = false

module _ {W : Type 0} where
  abbrev pub exchange : Sys W → Outcome (Unit {0}) × Writer → Outcome (Unit {0}) × Exchange W
  exchange s (o, w) = (o, record { sys = s; writer = w })

  abbrev pub writing : Act Writer (Unit {0}) → Act (Exchange W) (Unit {0})
  writing m x = exchange x.sys (m x.writer)

-- `struct{}{}`
abbrev pub empty : Wire → Unit {0} → Outcome GoString
empty wire u = wire.empty_response

module _ {W : Type 0} (wire : Wire) where
  abbrev pub respond :
      {A : Type 0}
      → (A → Outcome GoString)
      → Outcome A × Sys W
      → Writer
      → Outcome (Unit {0}) × Exchange W
  respond encode (ok a, s) w = exchange s (json_response (encode a) status_ok w)
  respond encode (err e, s) w = exchange s (json_err_response wire.json_error e 0 w)
  respond encode (panic, s) w = (panic, record { sys = s; writer = w })

  -- `if err := util.ParseJSONBody(…); err != nil { return }`
  abbrev pub with_request :
      {R A : Type 0}
      → (R → Act (Sys W) A)
      → (A → Outcome GoString)
      → Outcome R × Writer
      → Sys W
      → Outcome (Unit {0}) × Exchange W
  with_request handler encode (ok r, w) s = respond encode (handler r s) w
  with_request handler encode (err e, w) s = (ok tt, record { sys = s; writer = w })
  with_request handler encode (panic, w) s = (panic, record { sys = s; writer = w })

  -- The body that the handlers of endpoints.go share.
  unfoldable pub answer :
      {R A : Type 0}
      → (GoString → Outcome R)
      → (R → Act (Sys W) A)
      → (A → Outcome GoString)
      → GoString
      → Act (Exchange W) (Unit {0})
  unfolding parse_json_body json_response json_err_response
  answer decode handler encode body x =
      with_request handler encode (parse_json_body wire.json_error decode body x.writer) x.sys

module _ {W : Type 0} (env : Env W) (wire : Wire) (ping : Act W (Unit {0})) where
  unfoldable pub api_get_capabilities : GoString → Act (Exchange W) (Unit {0})
  unfolding json_response
  api_get_capabilities body =
      writing (json_response (wire.capabilities_response capabilities) status_ok)

  unfoldable pub api_create_network : GoString → Act (Exchange W) (Unit {0})
  unfolding answer
  api_create_network = answer wire wire.create_network_request (create_network env) (empty wire)

  unfoldable pub api_delete_network : GoString → Act (Exchange W) (Unit {0})
  unfolding answer
  api_delete_network = answer wire wire.delete_network_request (delete_network env) (empty wire)

  unfoldable pub api_create_endpoint : GoString → Act (Exchange W) (Unit {0})
  unfolding answer
  api_create_endpoint =
      answer wire wire.create_endpoint_request (create_endpoint env) wire.create_endpoint_response

  unfoldable pub api_endpoint_oper_info : GoString → Act (Exchange W) (Unit {0})
  unfolding answer
  api_endpoint_oper_info =
      answer wire wire.endpoint_request (endpoint_oper_info env) wire.info_response

  unfoldable pub api_delete_endpoint : GoString → Act (Exchange W) (Unit {0})
  unfolding answer
  api_delete_endpoint = answer wire wire.endpoint_request (delete_endpoint env) (empty wire)

  unfoldable pub api_join : GoString → Act (Exchange W) (Unit {0})
  unfolding answer
  api_join = answer wire wire.join_request (join env) wire.join_response

  unfoldable pub api_leave : GoString → Act (Exchange W) (Unit {0})
  unfolding answer
  api_leave = answer wire wire.endpoint_request (leave env) (empty wire)

  -- What is read of the plugin, once Docker has answered the ping or not.
  abbrev pub health : Bool → ℕ → Bool → HealthzResponse
  health docker_ok endpoints complete = record {
    status = if docker_ok then go "ok" else go "degraded";
    docker_connected = docker_ok;
    endpoints = endpoints;
    restore_complete = complete;
  }

  abbrev pub pinged : Bool → Outcome (Unit {0}) × W → Act (Exchange W) (Unit {0})
  pinged complete (panic, w) x = (panic, record x { sys = record x.sys { world = w } })
  pinged complete (o, w) x =
      exchange (record x.sys { world = w })
        (json_response
          (wire.healthz_response (health (is_ok o) (length x.sys.plugin.persistent_dhcp) complete))
          (if is_ok o then status_ok else status_service_unavailable) x.writer)

  -- `complete` is the field restoreComplete.
  unfoldable pub api_healthz : Bool → GoString → Act (Exchange W) (Unit {0})
  unfolding json_response
  api_healthz complete body x = pinged complete (ping x.sys.world) x

  unfoldable pub call : Bool → Api → GoString → Act (Exchange W) (Unit {0})
  unfolding json_response
  call complete get_capabilities = api_get_capabilities
  call complete create_network_api = api_create_network
  call complete delete_network_api = api_delete_network
  call complete create_endpoint_api = api_create_endpoint
  call complete endpoint_oper_info_api = api_endpoint_oper_info
  call complete delete_endpoint_api = api_delete_endpoint
  call complete join_api = api_join
  call complete leave_api = api_leave
  call complete healthz = api_healthz complete
  call complete noop = λ body. writing (json_response wire.empty_response status_ok)

  abbrev pub routed : Bool → Option Api → GoString → Act (Exchange W) (Unit {0})
  routed complete (some api) body x = call complete api body x
  routed complete none body x = (ok tt, record x { writer = wire.not_found x.writer })

  -- A request by its path and its body.
  unfoldable pub serve : Bool → GoString → GoString → Act (Exchange W) (Unit {0})
  unfolding patterns call
  serve complete path body = routed complete (lookup path patterns) body
