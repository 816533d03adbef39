-- ===== src/Plugin/Api/Laws.antt =====
-- What a request is answered, and with which status.
use docker_network_dhcp.Base.{
  ℕ, ◌≡◌, refl, ◌≢◌, ◌⊎◌, inl, inr, ◌↔◌, [], ◌∷◌, GoString, arith, sym, ◌∙◌,
}
use docker_network_dhcp.Util.Errors.{
  Sentinel, GoError, Wraps, IsClientFault, err_to_status, bad_request, internal_server_error,
}
use docker_network_dhcp.Util.Errors.Status.{err_to_status_cases}
use docker_network_dhcp.Util.Outcome.{Outcome, ok, err, panic, Act}
use docker_network_dhcp.Util.Json.{
  Writer, status_ok, json_response, or_bad_request, parse_json_body,
}
use docker_network_dhcp.Util.Json.Laws.{
  HasStatus, IsFresh, Writes, json_response-Writes, EncodesErrors, json_err_response-HasStatus,
  or_bad_request_lem,
}
use docker_network_dhcp.Plugin.Env.{Sys}
use docker_network_dhcp.Plugin.Api.{Wire, Exchange, respond, with_request, answer}

-- The error is, however deeply wrapped, a fault of the request.
abbrev pub BlamesClient : GoError → Type 0
BlamesClient e = (s : Sentinel) × Wraps e s × IsClientFault s

one_status : {c d : ℕ} → c ∷ [] ≡ d ∷ [] → c ≡ d
one_status p = cc (p)

-- A response that is not asked to be 400 is not.
Writes-ne_bad_request :
    (r : Outcome (Unit {0}) × Writer) {c : ℕ}
    → c ≢ bad_request
    → Writes r c
    → ¬ HasStatus r.1 bad_request
Writes-ne_bad_request r n (inl (p, h)) q = cc (h, q)
Writes-ne_bad_request r n (inr (p, inl h)) q = n (cc (h, q))
Writes-ne_bad_request r n (inr (p, inr h)) q = absurd (differ (one_status (sym h ∙ q)))
  where
    differ : internal_server_error ≢ bad_request
    differ = λ p. omega arith

err_to_status-bad_request : (e : GoError) → (err_to_status e ≡ bad_request) ↔ BlamesClient e
err_to_status-bad_request e = elim (err_to_status_cases e) [
  | inl (p, b) ↦ (λ q. b, λ b'. p)
  | inr (p, never) ↦ (λ q. ground (arith, sym p ∙ q), λ b. absurd (never b.0 b.1 b.2))
]

module _ {W : Type 0} (wire : Wire) {A : Type 0} (encode : A → Outcome GoString)
    (encodes : EncodesErrors wire.json_error) where
  respond-bad_request :
      (p : Outcome A × Sys W) (w : Writer)
      → IsFresh w
      → HasStatus (respond wire encode p w).1.writer bad_request
        ↔ ((e : GoError) × (p.0 ≡ err e) × BlamesClient e)
  respond-bad_request (ok a, s) w h = (
    λ q. absurd (
        Writes-ne_bad_request (json_response (encode a) status_ok w) (λ x. omega arith)
          (json_response-Writes (encode a) status_ok w h) q),
    λ b. cc,
  )
  respond-bad_request (err e, s) w h =
      let written = json_err_response-HasStatus wire.json_error e w encodes h in
      (
        λ q. (e, refl, (err_to_status-bad_request e).0 (cc (written, q))),
        λ b. cc (written, b.1, (err_to_status-bad_request b.0).1 b.2),
      )
  respond-bad_request (panic, s) w h = (λ q. cc (h, q), λ b. cc)

  with_request-err :
      {R : Type 0} (handler : R → Act (Sys W) A) {e : GoError} (p : Outcome R × Writer) (s : Sys W)
      → p.0 ≡ err e
      → (with_request wire handler encode p s).1.writer ≡ p.1
  with_request-err handler (ok r, w) s q = cc
  with_request-err handler (err x, w) s q = refl
  with_request-err handler (panic, w) s q = refl

  module _ {R : Type 0} (handler : R → Act (Sys W) A) where
    -- The request is at fault: its body does not parse, or the handler blames it.
    abbrev pub IsFaulty : Outcome R → Sys W → Type 0
    IsFaulty o s =
        ((e : GoError) × (o ≡ err e))
        ⊎ ((r : R) × (e : GoError) × (o ≡ ok r) × ((handler r s).0 ≡ err e) × BlamesClient e)

    with_body :
        (o : Outcome R) (w : Writer) (s : Sys W)
        → IsFresh w
        → HasStatus
            (with_request wire handler encode (or_bad_request wire.json_error o w) s).1.writer
            bad_request
          ↔ IsFaulty o s
    with_body (ok r) w s h =
        let (only, all) = respond-bad_request (handler r s) w h in
        (
          λ q. let (e, p, b) = only q in inr (r, e, refl, p, b),
          λ f. elim f [ inl x ↦ cc (x.1) | inr (r', e, p, q, b) ↦ all (e, cc (p, q), b) ],
        )
    with_body (err e) w s h =
        let (failed, written) = or_bad_request_lem wire.json_error {A = R} e w encodes h in
        let same = with_request-err handler (or_bad_request wire.json_error (err e) w) s failed in
        (λ q. inl (e, refl), λ f. rw same written)
    with_body panic w s h =
        (λ q. cc (h, q), λ f. elim f [ inl x ↦ cc (x.1) | inr (r', e, p, q, b) ↦ cc (p) ])

    -- A request is answered with 400 exactly if its body does not parse or its handler fails by an
    -- error that a fault of the request stands behind, however deeply wrapped.
    pub answer-bad_request :
        (decode : GoString → Outcome R) (body : GoString) (x : Exchange W)
        → IsFresh x.writer
        → HasStatus (answer wire decode handler encode body x).1.writer bad_request
          ↔ IsFaulty (decode body) x.sys
    unfolding answer parse_json_body
    answer-bad_request decode body x h = with_body (decode body) x.writer x.sys h
