-- ===== src/Util/Errors/Status.antt =====
-- ErrToStatus of pkg/util/errors.go against the chain of wrapped errors.
use docker_network_dhcp.Base.{◌≡◌, refl, ◌⊎◌, inl, inr, GoString, ◌∙◌}
use docker_network_dhcp.Util.Errors.{
  Sentinel, GoError, sentinel, wrapped, other, Wraps, root, under, IsClientFault, err_to_status,
  bad_request, internal_server_error, err_ipam, err_bridge_required, err_not_bridge,
  err_bridge_used, err_mac_address, err_invalid_mode,
}

-- `errors.Is` looks through the wrapping, whatever the prefix says.
pub err_to_status-wrapped :
    (prefix : GoString) (e : GoError) → err_to_status (wrapped prefix e) ≡ err_to_status e
unfolding err_to_status
err_to_status-wrapped prefix e = refl

client_fault : (s : Sentinel) → IsClientFault s ⊎ ¬ IsClientFault s
client_fault err_ipam = inl tt
client_fault err_bridge_required = inl tt
client_fault err_not_bridge = inl tt
client_fault err_bridge_used = inl tt
client_fault err_mac_address = inl tt
client_fault err_invalid_mode = inl tt
client_fault _ = inr (λ h. h)

status_of_sentinel :
    (s : Sentinel)
    → ((err_to_status (sentinel s) ≡ bad_request) × IsClientFault s)
      ⊎ ((err_to_status (sentinel s) ≡ internal_server_error) × (¬ IsClientFault s))
unfolding err_to_status
status_of_sentinel err_ipam = inl (refl, tt)
status_of_sentinel err_bridge_required = inl (refl, tt)
status_of_sentinel err_not_bridge = inl (refl, tt)
status_of_sentinel err_bridge_used = inl (refl, tt)
status_of_sentinel err_mac_address = inl (refl, tt)
status_of_sentinel err_invalid_mode = inl (refl, tt)
status_of_sentinel _ = inr (refl, λ h. h)

-- An error answers 400 if a fault of the request stands at the end of its chain, however deeply
-- wrapped, and any other error answers 500.
pub err_to_status_cases :
    (e : GoError)
    → ((err_to_status e ≡ bad_request) × ((s : Sentinel) × Wraps e s × IsClientFault s))
      ⊎ ((err_to_status e ≡ internal_server_error)
          × ((s : Sentinel) → Wraps e s → ¬ IsClientFault s))
err_to_status_cases (sentinel s) = elim (status_of_sentinel s) [
  | inl (p, f) ↦ inl (p, (s, root s, f))
  | inr (p, f) ↦ inr (p, only s f)
]
  where
    only :
        (s : Sentinel)
        → ¬ IsClientFault s
        → (t : Sentinel) → Wraps (sentinel s) t
        → ¬ IsClientFault t
    only s f t (root _) = f
err_to_status_cases (wrapped prefix e) = elim (err_to_status_cases e) [
  | inl (p, (s, w, f)) ↦ inl (err_to_status-wrapped prefix e ∙ p, (s, under prefix w, f))
  | inr (p, f) ↦ inr (err_to_status-wrapped prefix e ∙ p, through prefix f)
]
  where
    through :
        (prefix : GoString) {e : GoError}
        → ((s : Sentinel) → Wraps e s → ¬ IsClientFault s)
        → (s : Sentinel) → Wraps (wrapped prefix e) s
        → ¬ IsClientFault s
    through prefix f s (under _ w) = f s w
err_to_status_cases (other text) = inr (none_of text, none_in text)
  where
    none_of : (text : GoString) → err_to_status (other text) ≡ internal_server_error
    none_of text = unfold err_to_status in refl

    none_in : (text : GoString) → (s : Sentinel) → Wraps (other text) s → ¬ IsClientFault s
    none_in text s w = elim w [ ]
