-- ===== src/Util/Json/Laws.antt =====
-- How many statuses the helpers of pkg/util/json.go write, and which.
use docker_network_dhcp.Base.{ℕ, ◌≡◌, refl, ◌⊎◌, inl, inr, [], ◌∷◌, GoString, go}
use docker_network_dhcp.Util.Errors.{
  GoError, wrapped, err_to_status, bad_request, internal_server_error,
}
use docker_network_dhcp.Util.Outcome.{Outcome, ok, err, panic}
use docker_network_dhcp.Util.Json.{Writer, send, json_response, json_err_response, or_bad_request}

-- `w` carries the one status `c`.
abbrev pub HasStatus : Writer → ℕ → Type 0
HasStatus w c = w.statuses ≡ c ∷ []

abbrev pub IsFresh : Writer → Type 0
IsFresh w = w.statuses ≡ []

-- What a response does to a fresh writer: the status `c`, or 500 where the value does not encode.
abbrev pub Writes : Outcome (Unit {0}) × Writer → ℕ → Type 0
Writes r c =
    ((r.0 ≡ panic) × IsFresh r.1)
    ⊎ ((r.0 ≡ ok tt) × (HasStatus r.1 c ⊎ HasStatus r.1 internal_server_error))

pub send-Writes :
    (code : ℕ) (fallback : GoString) (encoded : Outcome GoString) (w : Writer)
    → IsFresh w
    → Writes (send code fallback encoded w) code
send-Writes code fallback (ok text) w h = inr (refl, inl (rw h refl))
send-Writes code fallback (err e) w h = inr (refl, inr (rw h refl))
send-Writes code fallback panic w h = inl (refl, h)

pub json_response-Writes :
    (encoded : Outcome GoString) (code : ℕ) (w : Writer)
    → IsFresh w
    → Writes (json_response encoded code w) code
unfolding json_response
json_response-Writes encoded code w h = send-Writes code _ encoded _ h

module _ (encode : GoError → Outcome GoString) where
  pub json_err_response-Writes :
      (e : GoError) (w : Writer)
      → IsFresh w
      → Writes (json_err_response encode e 0 w) (err_to_status e)
  unfolding json_err_response
  json_err_response-Writes e w h = send-Writes (err_to_status e) _ (encode e) _ h

  -- json.Encode does not fail on a struct with one string.
  abbrev pub EncodesErrors : Type 0
  EncodesErrors = (e : GoError) → (text : GoString) × (encode e ≡ ok text)

  pub json_err_response-HasStatus :
      (e : GoError) (w : Writer)
      → EncodesErrors
      → IsFresh w
      → HasStatus (json_err_response encode e 0 w).1 (err_to_status e)
  unfolding json_err_response
  json_err_response-HasStatus e w encodes h = let (text, p) = encodes e in rw (p, h) refl

  -- A body that does not parse is answered by 400.
  pub or_bad_request_lem :
      {A : Type 0} (e : GoError) (w : Writer)
      → EncodesErrors
      → IsFresh w
      → ((or_bad_request {A = A} encode (err e) w).0 ≡ err e)
        × HasStatus (or_bad_request {A = A} encode (err e) w).1 bad_request
  unfolding json_err_response
  or_bad_request_lem e w encodes h =
      let (text, p) = encodes (wrapped (go "failed to parse request body") e) in
      rw (p, h) (refl, refl)
