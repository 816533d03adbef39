-- ===== src/Util/Json.antt =====
-- pkg/util/json.go. encoding/json is a parameter: what Encode and Decode return for a value and a
-- body.
pub mod Laws
use docker_network_dhcp.Base.{ℕ, ◌==ℕ◌, List, [], ◌∷◌, ◌++◌, GoString, go, if◌then◌else◌}
use docker_network_dhcp.Util.Errors.{
  GoError, wrapped, err_to_status, bad_request, internal_server_error,
}
use docker_network_dhcp.Util.Outcome.{Outcome, ok, err, panic, Act, continue, ◌>>=◌, ◌>>◌, fail}

-- An http.ResponseWriter: its Content-Type, the calls of WriteHeader, of which net/http sends the
-- first, and the body that is handed to it.
pub record Writer : Type 0 where
  pub content_type : GoString
  pub statuses : List ℕ
  pub body : GoString

abbrev pub status_ok : ℕ
status_ok = 200

abbrev pub write_header : ℕ → Writer → Writer
write_header code w = record w { statuses = w.statuses ++ (code ∷ []) }

abbrev pub fprint : GoString → Writer → Writer
fprint text w = record w { body = w.body ++ text }

-- The encoded value under its status, or else a fixed text.
abbrev pub send : ℕ → GoString → Outcome GoString → Act Writer (Unit {0})
send code fallback (ok text) w = (ok tt, fprint text (write_header code w))
send code fallback (err e) w = (ok tt, fprint fallback (write_header internal_server_error w))
send code fallback panic w = (panic, w)

unfoldable pub json_response : Outcome GoString → ℕ → Act Writer (Unit {0})
json_response encoded code w =
    send code (go "Failed to serialize JSON payload") encoded
      (record w { content_type = go "application/json" })

-- `{"Err": "Internal server error"}`
abbrev pub plain_error : GoString
plain_error =
    go "{"
    ++ (34 ∷ (go "Err" ++ (34 ∷ (go ": " ++ (34 ∷ (go "Internal server error" ++ (34 ∷ go "}")))))))

-- The status 0 stands for the status of the error. jsonError has the error's text alone, and
-- `encode` encodes it.
unfoldable pub json_err_response :
    (GoError → Outcome GoString) → GoError → ℕ → Act Writer (Unit {0})
json_err_response encode e code w =
    send (if code ==ℕ 0 then err_to_status e else code) plain_error (encode e)
      (record w { content_type = go "application/problem+json" })

-- A body that does not parse is answered here.
abbrev pub or_bad_request : {A : Type 0} → (GoError → Outcome GoString) → Outcome A → Act Writer A
or_bad_request encode (ok a) w = (ok a, w)
or_bad_request encode (err e) w =
    (json_err_response encode (wrapped (go "failed to parse request body") e) bad_request >> fail e)
      w
or_bad_request encode panic w = (panic, w)

unfoldable pub parse_json_body :
    {A : Type 0} → (GoError → Outcome GoString) → (GoString → Outcome A) → GoString → Act Writer A
unfolding json_err_response
parse_json_body encode decode body w = or_bad_request encode (decode body) w
