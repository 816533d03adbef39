-- ===== src/Udhcpc/Lease.antt =====
-- The lease that GetIP of pkg/udhcpc/client.go returns.
use docker_network_dhcp.Base.{
  ◌≡◌, refl, ◌↔◌, ◌⊎◌, inl, inr, true, false, Option, none, some, List, [], ◌∷◌, ◌++◌, All,
  if◌then◌else◌, Bool-cases,
}
use docker_network_dhcp.Util.Outcome.{ok}
use docker_network_dhcp.Plugin.Env.{Info}
use docker_network_dhcp.Plugin.Manager.{Event}
use docker_network_dhcp.Udhcpc.{is_lease, collect, lease_or_error, get_ip}

-- The last event of the list that carries a lease carries this one.
pub record IsLast (info : Info) (events : List Event) : Type 0 where
  pub before : List Event
  pub last : Event
  pub after : List Event
  pub whole : events ≡ before ++ (last ∷ after)
  pub carries : is_lease last ≡ true
  pub lease : last.info ≡ info
  pub none_after : All (λ e. is_lease e ≡ false) after

collect-none :
    (info : Option Info) (es : List Event)
    → All (λ e. is_lease e ≡ false) es
    → collect info es ≡ info
unfolding collect
collect-none info [] h = refl
collect-none info (e ∷ es) (h, hs) = rw h (collect-none info es hs)

pub collect-append :
    (info : Option Info) (xs ys : List Event)
    → collect info (xs ++ ys) ≡ collect (collect info xs) ys
unfolding collect
collect-append info [] ys = refl
collect-append info (x ∷ xs) ys = collect-append (if is_lease x then some x.info else info) xs ys

collect_cases :
    (start : Option Info) (info : Info) (es : List Event)
    → collect start es ≡ some info
    → IsLast info es ⊎ ((start ≡ some info) × All (λ e. is_lease e ≡ false) es)
unfolding collect
collect_cases start info [] h = inr (h, tt)
collect_cases start info (e ∷ es) h = elim (Bool-cases (is_lease e)) [
  | inl c ↦ elim (collect_cases (some e.info) info es (rw c at h)) [
    | inl l ↦ inl (record {
      before = e ∷ l.before;
      last = l.last;
      after = l.after;
      whole = cc (l.whole);
      carries = l.carries;
      lease = l.lease;
      none_after = l.none_after;
    })
    | inr (p, rest) ↦ inl (record {
      before = [];
      last = e;
      after = es;
      whole = refl;
      carries = c;
      lease = cc (p);
      none_after = rest;
    })
  ]
  | inr c ↦ elim (collect_cases start info es (rw c at h)) [
    | inl l ↦ inl (record {
      before = e ∷ l.before;
      last = l.last;
      after = l.after;
      whole = cc (l.whole);
      carries = l.carries;
      lease = l.lease;
      none_after = l.none_after;
    })
    | inr (p, rest) ↦ inr (p, (c, rest))
  ]
]

IsLast-collect : (info : Info) (es : List Event) → IsLast info es → collect none es ≡ some info
unfolding collect
IsLast-collect info es l =
    rw (l.whole, collect-append none l.before (l.last ∷ l.after))
      (rw l.carries (rw (collect-none (some l.last.info) l.after l.none_after) (rw l.lease refl)))

lease_or_error-ok : (o : Option Info) (info : Info) → lease_or_error o ≡ ok info → o ≡ some info
lease_or_error-ok none info h = cc
lease_or_error-ok (some i) info h = cc

-- Where the client finishes well, GetIP returns a lease exactly if that is the one of the last
-- bound or renew event that it has read.
pub get_ip_iff :
    (events : List Event) (info : Info) → (get_ip (ok tt) events ≡ ok info) ↔ IsLast info events
unfolding get_ip
get_ip_iff events info = (
  λ h. elim (collect_cases none info events (lease_or_error-ok (collect none events) info h)) [
    | inl l ↦ l
    | inr (p, _) ↦ cc (p)
  ],
  λ l. rw (IsLast-collect info events l),
)
