-- ===== src/Plugin/Join/Routes.antt =====
-- The routes of Join: the loop of addRoutes against a description by filters.
use docker_network_dhcp.Base.{
  ℕ, ◌≡◌, refl, Bool, true, false, not, ◌||◌, Option, none, some, List, [], ◌∷◌, ◌++◌, map,
  GoString, ◌==◌, ◌==ℕ◌, arith, if◌then◌else◌, append-nil, append_assoc, ap,
}
use mathlib.Core.Path.{fun_ext}
use docker_network_dhcp.Util.Outcome.{ok}
use docker_network_dhcp.Plugin.Types.{Addr, IpNet, JoinHint, JoinResponse, StaticRoute}
use docker_network_dhcp.Plugin.Env.{Env, Route}
use docker_network_dhcp.Plugin.Join.{
  route_loop, gw_string, static_route, rtprot_kernel, lease_of, bind, add_route, set_gateway,
}

-- The gateways of the default routes.
abbrev pub default_gateways : List Route → List (Option GoString)
default_gateways [] = []
default_gateways (t ∷ ts) = elim t.dst [
  | none ↦ t.gw ∷ default_gateways ts
  | some _ ↦ default_gateways ts
]

-- The first text that is not empty.
abbrev pub first_nonempty : GoString → List GoString → GoString
first_nonempty x [] = x
first_nonempty x (y ∷ ys) = if x == [] then first_nonempty y ys else first_nonempty x ys

module _ {W : Type 0} (env : Env W) where
  -- A route that the container needs: not made by the kernel, and not around its own address.
  abbrev pub is_needed : Addr → IpNet → ℕ → Bool
  is_needed lease dst protocol =
      not (protocol ==ℕ rtprot_kernel || env.contains dst lease.ip_net.ip)

  abbrev pub needed : Addr → Option IpNet → Option GoString → ℕ → List StaticRoute
  needed lease none gw protocol = []
  needed lease (some dst) gw protocol =
      if is_needed lease dst protocol then static_route env dst gw ∷ [] else []

  abbrev pub needed_routes : Addr → List Route → List StaticRoute
  needed_routes lease [] = []
  needed_routes lease (t ∷ ts) = needed lease t.dst t.gw t.protocol ++ needed_routes lease ts

  abbrev pub with_all : Bool → Bool → List GoString → List StaticRoute → JoinResponse → JoinResponse
  with_all skip v6 gateways statics res = record res {
    gateway = if v6 then res.gateway else first_nonempty res.gateway gateways;
    gateway_ipv6 = if v6 then first_nonempty res.gateway_ipv6 gateways else res.gateway_ipv6;
    static_routes = if skip then res.static_routes else res.static_routes ++ statics;
  }

  abbrev pub with_routes : Bool → Bool → Addr → List Route → JoinResponse → JoinResponse
  with_routes skip v6 lease routes =
      with_all skip v6 (map (gw_string env) (default_gateways routes)) (needed_routes lease routes)

  set_gateway-step :
      (skip v6 : Bool) (gw : Option GoString) (gs : List GoString) (ss : List StaticRoute)
      (res : JoinResponse)
      → with_all skip v6 gs ss (set_gateway env v6 gw res)
        ≡ with_all skip v6 (gw_string env gw ∷ gs) ss res
  set_gateway-step skip true gw gs ss res = ground arith
  set_gateway-step skip false gw gs ss res = ground arith

  static-step :
      (v6 : Bool) (x : StaticRoute) (gs : List GoString) (ss : List StaticRoute)
      (res : JoinResponse)
      → with_all false v6 gs ss (record res { static_routes = res.static_routes ++ (x ∷ []) })
        ≡ with_all false v6 gs (x ∷ ss) res
  static-step v6 x gs ss res = rw append_assoc

  -- One turn of the loop, with the rest of the loop described.
  turn :
      (skip v6 : Bool) (hint : JoinHint) (lease : Addr) (dst : Option IpNet) (gw : Option GoString)
      (protocol : ℕ) (gs : List GoString) (ss : List StaticRoute) (res : JoinResponse)
      → lease_of env v6 hint ≡ some lease
      → bind env
          (add_route env skip v6 hint dst gw protocol res)
          (λ x. ok (with_all skip v6 gs ss x))
        ≡ ok (
            with_all skip v6
              (elim dst [ none ↦ gw_string env gw ∷ gs | some _ ↦ gs ])
              (needed lease dst gw protocol ++ ss)
              res)
  turn skip v6 hint lease none gw protocol gs ss res h =
      ap ok (set_gateway-step skip v6 gw gs ss res)
  turn true v6 hint lease (some dst) gw protocol gs ss res h = ground arith
  turn false v6 hint lease (some dst) gw protocol gs ss res h =
      rw h (ground (arith, static-step v6 (static_route env dst gw) gs ss res))

  gateways-cons :
      (dst : Option IpNet) (gw : Option GoString) (ts : List Route)
      → map
          (gw_string env)
          (elim dst [ none ↦ gw ∷ default_gateways ts | some _ ↦ default_gateways ts ])
        ≡ elim dst [
          | none ↦ gw_string env gw ∷ map (gw_string env) (default_gateways ts)
          | some _ ↦ map (gw_string env) (default_gateways ts)
        ]
  gateways-cons none gw ts = refl
  gateways-cons (some _) gw ts = refl

  -- With a lease in the hint, the loop succeeds. The gateway is the one that was there before,
  -- or else the first text that is not empty among those of the gateways of the default routes, where
  -- a default route without a gateway has the text <nil>; the static routes that are added are the
  -- needed ones in their order, or none if routes are to be skipped.
  pub route_loop_lem :
      (skip v6 : Bool) (hint : JoinHint) (lease : Addr) (routes : List Route) (res : JoinResponse)
      → lease_of env v6 hint ≡ some lease
      → route_loop env skip v6 hint routes res ≡ ok (with_routes skip v6 lease routes res)
  unfolding route_loop
  route_loop_lem true true hint lease [] res h = refl
  route_loop_lem true false hint lease [] res h = refl
  route_loop_lem false true hint lease [] res h = rw append-nil
  route_loop_lem false false hint lease [] res h = rw append-nil
  route_loop_lem skip v6 hint lease (t ∷ routes) res h =
      rw (fun_ext (λ x. route_loop_lem skip v6 hint lease routes x h)) (
        rw gateways-cons (
          turn skip v6 hint lease t.dst t.gw t.protocol
            (map (gw_string env) (default_gateways routes)) (needed_routes lease routes) res h))
