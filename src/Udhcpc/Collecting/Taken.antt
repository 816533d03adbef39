-- ===== src/Udhcpc/Collecting/Taken.antt =====
-- What the lines that the getter has taken decode to, line by line.
use docker_network_dhcp.Base.{
  ◌≡◌, ◌≢◌, refl, ap, Option, none, List, [], ◌∷◌, ◌++◌, GoString, All, append-nil,
}
use docker_network_dhcp.Util.Errors.{GoError}
use docker_network_dhcp.Util.Outcome.{Outcome, ok, err, panic}
use docker_network_dhcp.Plugin.Env.{Info}
use docker_network_dhcp.Plugin.Manager.{Event}
use docker_network_dhcp.Udhcpc.{collect}
use docker_network_dhcp.Udhcpc.Lease.{collect-append}
use docker_network_dhcp.Udhcpc.Pipe.{scan, and_decoded}
use docker_network_dhcp.Udhcpc.Collecting.{with_lease}

module _ (decode : GoString → Outcome Event) where
  abbrev pub Decodes : GoString → Type 0
  Decodes l = decode l ≢ panic

  scan-append :
      (xs ys : List GoString)
      → All Decodes xs
      → scan decode (xs ++ ys) ≡ scan decode xs ++ scan decode ys
  unfolding scan
  scan-append [] ys h = refl
  scan-append (x ∷ xs) ys (h, hs) = onto (decode x) _ _ _ h (scan-append xs ys hs)
    where
      onto :
          (o : Outcome Event) (xs ys zs : List Event)
          → o ≢ panic
          → xs ≡ ys ++ zs
          → and_decoded o xs ≡ and_decoded o ys ++ zs
      onto (ok e) xs ys zs h p = ap (λ t. e ∷ t) p
      onto (err x) xs ys zs h p = p
      onto panic xs ys zs h p = absurd (h refl)

  scan-one : (l : GoString) (e : Event) → decode l ≡ ok e → scan decode (l ∷ []) ≡ e ∷ []
  unfolding scan
  scan-one l e d = rw d refl

  scan-left_out : (l : GoString) (x : GoError) → decode l ≡ err x → scan decode (l ∷ []) ≡ []
  unfolding scan
  scan-left_out l x d = rw d refl

  pub info-collects :
      (taken : List GoString) (l : GoString) (e : Event) (info : Option Info)
      → All Decodes taken
      → decode l ≡ ok e
      → info ≡ collect none (scan decode taken)
      → with_lease e info ≡ collect none (scan decode (taken ++ (l ∷ [])))
  unfolding collect
  info-collects taken l e info all d h =
      rw
        (
          scan-append taken (l ∷ []) all,
          scan-one l e d,
          collect-append none (scan decode taken) (e ∷ []),
          h,
        )
        refl

  pub info-leaves_out :
      (taken : List GoString) (l : GoString) (x : GoError)
      → All Decodes taken
      → decode l ≡ err x
      → collect none (scan decode taken) ≡ collect none (scan decode (taken ++ (l ∷ [])))
  info-leaves_out taken l x all d =
      rw (scan-append taken (l ∷ []) all, scan-left_out l x d, append-nil (scan decode taken)) refl
