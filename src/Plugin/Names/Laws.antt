-- ===== src/Plugin/Names/Laws.antt =====
-- Interface names: their length, and what tells two of them apart.
use docker_network_dhcp.Base.{
  ℕ, ◌≡◌, refl, ◌≢◌, ◌≤◌, ◌<◌, [], ◌∷◌, ◌++◌, arith, GoString, go, length, length-take,
  length-append, take, take-all, ◌↔◌, take,
}
use docker_network_dhcp.Util.Outcome.{ok, panic}
use docker_network_dhcp.Plugin.Names.{short_id, veth_pair_names}

-- The longest name that Linux accepts: IFNAMSIZ - 1.
abbrev pub max_name : ℕ
max_name = 15

host_ne_ctr : (cut : GoString) → length cut ≡ 12 → go "dh-" ++ cut ≢ cut ++ go "-dh"
unfolding go
host_ne_ctr (a ∷ b ∷ c ∷ d ∷ e ∷ f ∷ g ∷ h ∷ i ∷ j ∷ k ∷ l ∷ []) len same = ground arith
host_ne_ctr _ len same = absurd (omega arith)

-- For an identifier of at least twelve bytes the two names of a veth pair fit into an interface
-- name, differ from each other, and are exactly what the prefix of the identifier gives.
pub veth_pair_names_lem :
    (id : GoString)
    → 12 ≤ length id
    → (host : GoString) × (ctr : GoString) × (veth_pair_names id ≡ ok (host, ctr))
      × (length host ≡ max_name)
      × (length ctr ≡ max_name)
      × (host ≢ ctr)
unfolding veth_pair_names go
veth_pair_names_lem id h = (
  go "dh-" ++ take 12 id,
  take 12 id ++ go "-dh",
  ground arith,
  omega (arith, length-take 12 id),
  omega (arith, length-append {0} (take 12 id) (go "-dh"), length-take {0} 12 id),
  host_ne_ctr (take 12 id) (omega (arith, length-take {0} 12 id)),
)

-- A shorter identifier is out of the slice's range.
pub veth_pair_names_panic : (id : GoString) → length id < 12 → veth_pair_names id ≡ panic
unfolding veth_pair_names
veth_pair_names_panic id h = ground arith

append_same :
    (cut cut' rest : GoString) → length cut ≡ length cut' → cut ++ rest ≡ cut' ++ rest → cut ≡ cut'
append_same [] [] rest h e = refl
append_same [] (y ∷ ys) rest h e = absurd (omega arith)
append_same (x ∷ xs) [] rest h e = absurd (omega arith)
append_same (x ∷ xs) (y ∷ ys) rest h e = cc (append_same xs ys rest (omega arith) (cc))

take12-eq-short_id : (id : GoString) → 12 ≤ length id → take 12 id ≡ short_id id
unfolding short_id
take12-eq-short_id id h = ground (arith, take-all 12 id)

-- What the two names are made of.
names_of :
    (id : GoString) {h c : GoString}
    → veth_pair_names id ≡ ok (h, c)
    → (h ≡ go "dh-" ++ short_id id) × (c ≡ short_id id ++ go "-dh") × (length (short_id id) ≡ 12)
unfolding veth_pair_names
names_of id e = ground (arith, take12-eq-short_id id, length-take 12 id)

host_cut : (x y : GoString) → go "dh-" ++ x ≡ go "dh-" ++ y → x ≡ y
unfolding go
host_cut x y e = cc

-- Two endpoints get the same pair of names exactly when their identifiers agree on the first
-- twelve bytes, and each of the two names alone decides that.
veth_pair_names-eq_iff :
    (a b : GoString) {h c h' c' : GoString}
    → veth_pair_names a ≡ ok (h, c)
    → veth_pair_names b ≡ ok (h', c')
    → ((h ≡ h') ↔ (short_id a ≡ short_id b)) × ((c ≡ c') ↔ (short_id a ≡ short_id b))
veth_pair_names-eq_iff a b p q =
    let (ha, ca, la) = names_of a p in
    let (hb, cb, lb) = names_of b q in
    (
      (λ e. host_cut (short_id a) (short_id b) (cc), λ e. cc),
      (λ e. append_same (short_id a) (short_id b) (go "-dh") (omega arith) (cc), λ e. cc),
    )
