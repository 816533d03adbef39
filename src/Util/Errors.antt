-- ===== src/Util/Errors.antt =====
-- pkg/util/errors.go: the sentinel errors and the HTTP status that each answers.
pub mod Status
use docker_network_dhcp.Base.{ℕ, Bool, true, false, ◌||◌, ◌++◌, GoString, go, if◌then◌else◌}

pub data Sentinel : Type 0 where
  err_ipam err_bridge_required err_not_bridge err_bridge_used err_mac_address : Sentinel
  err_invalid_mode err_no_lease err_no_hint err_not_veth err_no_container err_no_sandbox : Sentinel

-- An `error`: a sentinel, one wrapped by `fmt.Errorf("…: %w", err)`, or one that wraps nothing.
pub data GoError : Type 0 where
  sentinel : Sentinel → GoError
  wrapped : GoString → GoError → GoError
  other : GoString → GoError

unfoldable pub sentinel_text : Sentinel → GoString
sentinel_text err_ipam = go "only the null IPAM driver is supported"
sentinel_text err_bridge_required = go "bridge required"
sentinel_text err_not_bridge = go "network interface is not a bridge"
sentinel_text err_bridge_used = go "bridge already in use by Docker"
sentinel_text err_mac_address = go "invalid MAC address"
sentinel_text err_invalid_mode = go "invalid mode: must be 'bridge', 'macvlan', or 'ipvlan'"
sentinel_text err_no_lease = go "udhcpc did not output a lease"
sentinel_text err_no_hint = go "missing CreateEndpoint hints"
sentinel_text err_not_veth = go "host link is not a veth interface"
sentinel_text err_no_container = go "couldn't find container by endpoint on the network"
sentinel_text err_no_sandbox = go "missing joined endpoint state"

-- `err.Error()`
unfoldable pub error_text : GoError → GoString
error_text (sentinel s) = sentinel_text s
error_text (wrapped prefix e) = prefix ++ (go ": " ++ error_text e)
error_text (other text) = text

Sentinel-discrete : Discrete Sentinel
Sentinel-discrete = hlevel

same_sentinel : Sentinel → Sentinel → Bool
same_sentinel s t = elim (Sentinel-discrete s t) [ yes _ ↦ true | no _ ↦ false ]

-- `errors.Is(err, target)`
unfoldable pub is : GoError → Sentinel → Bool
unfolding same_sentinel Sentinel-discrete
is (sentinel s) target = same_sentinel s target
is (wrapped prefix e) target = is e target
is (other text) target = false

abbrev pub bad_request : ℕ
bad_request = 400

abbrev pub internal_server_error : ℕ
internal_server_error = 500

unfoldable pub err_to_status : GoError → ℕ
unfolding is
err_to_status e =
    if is e err_ipam
      || is e err_bridge_required
      || is e err_not_bridge
      || is e err_bridge_used
      || is e err_mac_address
      || is e err_invalid_mode
    then bad_request
    else internal_server_error

-- The sentinel at the end of a chain of wrapped errors.
pub data Wraps : GoError → Sentinel → Type 0 where
  root : (s : Sentinel) → Wraps (sentinel s) s
  under : (prefix : GoString) {e : GoError} {s : Sentinel} → Wraps e s → Wraps (wrapped prefix e) s

-- The faults of a request, which the caller can mend.
abbrev pub IsClientFault : Sentinel → Type 0
IsClientFault err_ipam = Unit
IsClientFault err_bridge_required = Unit
IsClientFault err_not_bridge = Unit
IsClientFault err_bridge_used = Unit
IsClientFault err_mac_address = Unit
IsClientFault err_invalid_mode = Unit
IsClientFault _ = ⊥
