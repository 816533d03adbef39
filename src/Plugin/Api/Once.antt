-- ===== src/Plugin/Api/Once.antt =====
-- Every request to a registered path is answered by one status.
use docker_network_dhcp.Base.{
  ℕ, ◌≡◌, refl, ◌⊎◌, inl, inr, Bool, true, false, some, GoString, go, length,
}
use docker_network_dhcp.Base.GoMap.{lookup}
use docker_network_dhcp.Util.Errors.{
  GoError, wrapped, bad_request, internal_server_error, err_to_status,
}
use docker_network_dhcp.Util.Errors.Status.{err_to_status_cases}
use docker_network_dhcp.Util.Outcome.{Outcome, ok, err, panic, Act, continue, fail}
use docker_network_dhcp.Util.Json.{
  Writer, status_ok, json_response, json_err_response, parse_json_body, or_bad_request,
}
use docker_network_dhcp.Util.Json.Laws.{
  HasStatus, IsFresh, Writes, send-Writes, json_response-Writes, json_err_response-Writes,
}
use docker_network_dhcp.Plugin.Env.{Env, Sys}
use docker_network_dhcp.Plugin.Network.{create_network, delete_network}
use docker_network_dhcp.Plugin.Endpoint.Create.{create_endpoint}
use docker_network_dhcp.Plugin.Endpoint.Delete.{delete_endpoint, endpoint_oper_info}
use docker_network_dhcp.Plugin.Join.{join}
use docker_network_dhcp.Plugin.Leave.{leave}
use docker_network_dhcp.Plugin.Api.{
  Wire, Exchange, Api, get_capabilities, create_network_api, delete_network_api,
  create_endpoint_api, endpoint_oper_info_api, delete_endpoint_api, join_api, leave_api, healthz,
  noop, status_service_unavailable, respond, with_request, answer, pinged, api_healthz, exchange,
  health, empty, capabilities, api_get_capabilities, api_create_network, api_delete_network,
  api_create_endpoint, api_endpoint_oper_info, api_delete_endpoint, api_join, api_leave, call,
  patterns, serve,
}

-- The statuses with which the plugin answers.
abbrev pub IsAnswer : ℕ → Type 0
IsAnswer c =
    (c ≡ status_ok)
    ⊎ (c ≡ bad_request)
    ⊎ (c ≡ internal_server_error)
    ⊎ (c ≡ status_service_unavailable)

-- One status, or a panic before any has been written.
abbrev pub AnswersOnce : Outcome (Unit {0}) → Writer → Type 0
AnswersOnce o w = ((o ≡ panic) × IsFresh w) ⊎ ((o ≡ ok tt) × ((c : ℕ) × HasStatus w c × IsAnswer c))

Writes-AnswersOnce :
    (r : Outcome (Unit {0}) × Writer) (c : ℕ) → IsAnswer c → Writes r c → AnswersOnce r.0 r.1
Writes-AnswersOnce r c a (inl p) = inl p
Writes-AnswersOnce r c a (inr (p, inl h)) = inr (p, (c, h, a))
Writes-AnswersOnce r c a (inr (p, inr h)) =
    inr (p, (internal_server_error, h, inr (inr (inl refl))))

err_to_status-IsAnswer : (e : GoError) → IsAnswer (err_to_status e)
err_to_status-IsAnswer e = elim (err_to_status_cases e) [
  | inl (p, _) ↦ inr (inl p)
  | inr (p, _) ↦ inr (inr (inl p))
]

-- A parsed request leaves the writer alone; another has been answered.
abbrev IsParsed : {R : Type 0} → Outcome R × Writer → Type 0
IsParsed (ok r, w) = IsFresh w
IsParsed (err e, w) = HasStatus w bad_request ⊎ HasStatus w internal_server_error
IsParsed (panic, w) = IsFresh w

refused-IsParsed :
    (R : Type 0) (e : GoError) (p : Outcome (Unit {0}) × Writer)
    → Writes p bad_request
    → IsParsed {R = R} (continue p.0 (λ _. fail e) p.1)
refused-IsParsed R e (ok _, w) (inl (q, h)) = cc
refused-IsParsed R e (ok _, w) (inr (q, h)) = h
refused-IsParsed R e (err x, w) (inl (q, h)) = cc
refused-IsParsed R e (err x, w) (inr (q, h)) = cc
refused-IsParsed R e (panic, w) (inl (q, h)) = h
refused-IsParsed R e (panic, w) (inr (q, h)) = cc

parse_json_body-IsParsed :
    {R : Type 0} (encode : GoError → Outcome GoString) (decode : GoString → Outcome R)
    (body : GoString) (w : Writer)
    → IsFresh w
    → IsParsed (parse_json_body encode decode body w)
unfolding parse_json_body json_err_response
parse_json_body-IsParsed {R} encode decode body w h = of_request (decode body)
  where
    of_request : (o : Outcome R) → IsParsed (or_bad_request encode o w)
    of_request (ok r) = h
    of_request (err e) =
        refused-IsParsed R e
          (json_err_response encode (wrapped (go "failed to parse request body") e) bad_request w)
          (send-Writes bad_request _ (encode (wrapped (go "failed to parse request body") e)) _ h)
    of_request panic = h

module _ {W : Type 0} (wire : Wire) where
  abbrev Once : Outcome (Unit {0}) × Exchange W → Type 0
  Once r = AnswersOnce r.0 r.1.writer

  json_response-Once :
      (encoded : Outcome GoString) (c : ℕ) (s : Sys W) (w : Writer)
      → IsAnswer c
      → IsFresh w
      → Once (exchange s (json_response encoded c w))
  json_response-Once encoded c s w a h =
      Writes-AnswersOnce (json_response encoded c w) c a (json_response-Writes encoded c w h)

  respond-Once :
      {A : Type 0} (encode : A → Outcome GoString) (p : Outcome A × Sys W) (w : Writer)
      → IsFresh w
      → Once (respond wire encode p w)
  respond-Once encode (ok a, s) w h = json_response-Once (encode a) status_ok s w (inl refl) h
  respond-Once encode (err e, s) w h =
      Writes-AnswersOnce (json_err_response wire.json_error e 0 w) (err_to_status e)
        (err_to_status-IsAnswer e) (json_err_response-Writes wire.json_error e w h)
  respond-Once encode (panic, s) w h = inl (refl, h)

  with_request-Once :
      {R A : Type 0} (handler : R → Act (Sys W) A) (encode : A → Outcome GoString)
      (p : Outcome R × Writer) (s : Sys W)
      → IsParsed p
      → Once (with_request wire handler encode p s)
  with_request-Once handler encode (ok r, w) s h = respond-Once encode (handler r s) w h
  with_request-Once handler encode (err e, w) s (inl h) =
      inr (refl, (bad_request, h, inr (inl refl)))
  with_request-Once handler encode (err e, w) s (inr h) =
      inr (refl, (internal_server_error, h, inr (inr (inl refl))))
  with_request-Once handler encode (panic, w) s h = inl (refl, h)

  answer-Once :
      {R A : Type 0} (decode : GoString → Outcome R) (handler : R → Act (Sys W) A)
      (encode : A → Outcome GoString) (body : GoString) (x : Exchange W)
      → IsFresh x.writer
      → Once (answer wire decode handler encode body x)
  unfolding answer
  answer-Once decode handler encode body x h =
      with_request-Once handler encode _ x.sys
        (parse_json_body-IsParsed wire.json_error decode body x.writer h)

module _ {W : Type 0} (env : Env W) (wire : Wire) (ping : Act W (Unit {0})) where
  api_healthz-Once :
      (complete : Bool) (body : GoString) (x : Exchange W)
      → IsFresh x.writer
      → Once wire (api_healthz env wire ping complete body x)
  unfolding api_healthz
  api_healthz-Once complete body x h = of_ping (ping x.sys.world)
    where
      of_ping : (p : Outcome (Unit {0}) × W) → Once wire (pinged env wire ping complete p x)
      of_ping (ok u, w) =
          json_response-Once wire
            (wire.healthz_response
              (health env wire ping true (length x.sys.plugin.persistent_dhcp) complete))
            status_ok (record x.sys { world = w }) x.writer (inl refl) h
      of_ping (err e, w) =
          json_response-Once wire
            (wire.healthz_response
              (health env wire ping false (length x.sys.plugin.persistent_dhcp) complete))
            status_service_unavailable (record x.sys { world = w }) x.writer (inr (inr (inr refl)))
            h
      of_ping (panic, w) = inl (refl, h)

  call-Once :
      (complete : Bool) (api : Api) (body : GoString) (x : Exchange W)
      → IsFresh x.writer
      → Once wire (call env wire ping complete api body x)
  unfolding call api_get_capabilities api_create_network api_delete_network api_create_endpoint
      api_endpoint_oper_info api_delete_endpoint api_join api_leave
  call-Once complete get_capabilities body x h =
      json_response-Once wire (wire.capabilities_response capabilities) status_ok x.sys x.writer
        (inl refl) h
  call-Once complete create_network_api body x h =
      answer-Once wire wire.create_network_request (create_network env) (empty wire) body x h
  call-Once complete delete_network_api body x h =
      answer-Once wire wire.delete_network_request (delete_network env) (empty wire) body x h
  call-Once complete create_endpoint_api body x h =
      answer-Once wire wire.create_endpoint_request (create_endpoint env)
        wire.create_endpoint_response body x h
  call-Once complete endpoint_oper_info_api body x h =
      answer-Once wire wire.endpoint_request (endpoint_oper_info env) wire.info_response body x h
  call-Once complete delete_endpoint_api body x h =
      answer-Once wire wire.endpoint_request (delete_endpoint env) (empty wire) body x h
  call-Once complete join_api body x h =
      answer-Once wire wire.join_request (join env) wire.join_response body x h
  call-Once complete leave_api body x h =
      answer-Once wire wire.endpoint_request (leave env) (empty wire) body x h
  call-Once complete healthz body x h = api_healthz-Once complete body x h
  call-Once complete noop body x h =
      json_response-Once wire wire.empty_response status_ok x.sys x.writer (inl refl) h

  -- A request to a registered path writes exactly one status, which is 200, 400, 500 or 503, or
  -- panics before it has written one.
  pub serve-AnswersOnce :
      (complete : Bool) (path body : GoString) (api : Api) (x : Exchange W)
      → lookup path patterns ≡ some api
      → IsFresh x.writer
      → AnswersOnce
          (serve env wire ping complete path body x).0
          (serve env wire ping complete path body x).1.writer
  unfolding serve
  serve-AnswersOnce complete path body api x p h = rw p (call-Once complete api body x h)
