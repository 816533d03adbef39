-- ===== src/Plugin/Service/Requests.antt =====
-- Every request keeps what every change of the tables keeps.
use docker_network_dhcp.Base.{refl, Bool, Option, none, some, GoString}
use docker_network_dhcp.Base.GoMap.{lookup}
use docker_network_dhcp.Util.Outcome.{Outcome, ok, err, panic, Act}
use docker_network_dhcp.Util.Json.{Writer, parse_json_body}
use docker_network_dhcp.Plugin.Types.{Plugin}
use docker_network_dhcp.Plugin.Env.{Env, Sys}
use docker_network_dhcp.Plugin.Network.{create_network, delete_network}
use docker_network_dhcp.Plugin.Endpoint.Create.{create_endpoint}
use docker_network_dhcp.Plugin.Endpoint.Delete.{delete_endpoint, endpoint_oper_info}
use docker_network_dhcp.Plugin.Join.{join}
use docker_network_dhcp.Plugin.Leave.{leave}
use docker_network_dhcp.Plugin.Api.{
  Wire, Exchange, Api, get_capabilities, create_network_api, delete_network_api,
  create_endpoint_api, endpoint_oper_info_api, delete_endpoint_api, join_api, leave_api, healthz,
  noop, empty, respond, with_request, answer, pinged, api_healthz, call, routed, patterns, serve,
  api_get_capabilities, api_create_network, api_delete_network, api_create_endpoint,
  api_endpoint_oper_info, api_delete_endpoint, api_join, api_leave,
}
use docker_network_dhcp.Plugin.Service.Actions.{Stable, Preserves}
use docker_network_dhcp.Plugin.Service.Endpoints.{
  create_network-Preserves, delete_network-Preserves, create_endpoint-Preserves,
}
use docker_network_dhcp.Plugin.Service.Handlers.{
  delete_endpoint-Preserves, leave-Preserves, endpoint_oper_info-Preserves, join-Preserves,
}

module _ {W : Type 0} (P : Plugin → Type 0) (wire : Wire) where
  respond_keeps :
      {A : Type 0} (encode : A → Outcome GoString) (p : Outcome A × Sys W) (w : Writer)
      → P p.1.plugin
      → P (respond wire encode p w).1.sys.plugin
  respond_keeps encode (ok a, s) w h = h
  respond_keeps encode (err e, s) w h = h
  respond_keeps encode (panic, s) w h = h

  with_request_keeps :
      {R A : Type 0} (handler : R → Act (Sys W) A) (encode : A → Outcome GoString)
      (p : Outcome R × Writer) (s : Sys W)
      → ((r : R) → Preserves P (handler r))
      → P s.plugin
      → P (with_request wire handler encode p s).1.sys.plugin
  with_request_keeps handler encode (ok r, w) s keeps h =
      respond_keeps encode (handler r s) w (keeps r s h)
  with_request_keeps handler encode (err e, w) s keeps h = h
  with_request_keeps handler encode (panic, w) s keeps h = h

  answer_keeps :
      {R A : Type 0} (decode : GoString → Outcome R) (handler : R → Act (Sys W) A)
      (encode : A → Outcome GoString) (body : GoString) (x : Exchange W)
      → ((r : R) → Preserves P (handler r))
      → P x.sys.plugin
      → P (answer wire decode handler encode body x).1.sys.plugin
  unfolding answer
  answer_keeps decode handler encode body x keeps h =
      with_request_keeps handler encode (parse_json_body wire.json_error decode body x.writer) x.sys
        keeps h

module _ {W : Type 0} (env : Env W) (P : Plugin → Type 0) (stable : Stable env P) (wire : Wire)
    (ping : Act W (Unit {0})) where
  pinged_keeps :
      (complete : Bool) (p : Outcome (Unit {0}) × W) (x : Exchange W)
      → P x.sys.plugin
      → P (pinged env wire ping complete p x).1.sys.plugin
  pinged_keeps complete (ok u, w) x h = stable.same refl refl refl h
  pinged_keeps complete (err e, w) x h = stable.same refl refl refl h
  pinged_keeps complete (panic, w) x h = stable.same refl refl refl h

  call_keeps :
      (complete : Bool) (api : Api) (body : GoString) (x : Exchange W)
      → P x.sys.plugin
      → P (call env wire ping complete api body x).1.sys.plugin
  unfolding call api_get_capabilities api_create_network api_delete_network api_create_endpoint
      api_endpoint_oper_info api_delete_endpoint api_join api_leave api_healthz
  call_keeps complete get_capabilities body x h = h
  call_keeps complete create_network_api body x h =
      answer_keeps P wire wire.create_network_request (create_network env) (empty wire) body x
        (create_network-Preserves env P stable) h
  call_keeps complete delete_network_api body x h =
      answer_keeps P wire wire.delete_network_request (delete_network env) (empty wire) body x
        (delete_network-Preserves env P stable) h
  call_keeps complete create_endpoint_api body x h =
      answer_keeps P wire wire.create_endpoint_request (create_endpoint env)
        wire.create_endpoint_response body x (create_endpoint-Preserves env P stable) h
  call_keeps complete endpoint_oper_info_api body x h =
      answer_keeps P wire wire.endpoint_request (endpoint_oper_info env) wire.info_response body x
        (endpoint_oper_info-Preserves env P stable) h
  call_keeps complete delete_endpoint_api body x h =
      answer_keeps P wire wire.endpoint_request (delete_endpoint env) (empty wire) body x
        (delete_endpoint-Preserves env P stable) h
  call_keeps complete join_api body x h =
      answer_keeps P wire wire.join_request (join env) wire.join_response body x
        (join-Preserves env P stable) h
  call_keeps complete leave_api body x h =
      answer_keeps P wire wire.endpoint_request (leave env) (empty wire) body x
        (leave-Preserves env P stable) h
  call_keeps complete healthz body x h = pinged_keeps complete (ping x.sys.world) x h
  call_keeps complete noop body x h = h

  routed_keeps :
      (complete : Bool) (o : Option Api) (body : GoString) (x : Exchange W)
      → P x.sys.plugin
      → P (routed env wire ping complete o body x).1.sys.plugin
  routed_keeps complete (some api) body x h = call_keeps complete api body x h
  routed_keeps complete none body x h = h

  pub serve_keeps :
      (complete : Bool) (path body : GoString) (x : Exchange W)
      → P x.sys.plugin
      → P (serve env wire ping complete path body x).1.sys.plugin
  unfolding serve
  serve_keeps complete path body x h = routed_keeps complete (lookup path patterns) body x h
