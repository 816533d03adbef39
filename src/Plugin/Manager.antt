-- ===== src/Plugin/Manager.antt =====
-- The persistent DHCP client of an endpoint (pkg/plugin/dhcp_manager.go): renew, the handling of
-- the events of udhcpc, and the restarts of udhcpc.
pub mod Steps
pub mod Lease
pub mod Relaunch
pub mod Start
pub mod Stopping
use docker_network_dhcp.Base.{
  ℕ, Bool, true, false, ◌||◌, not, Option, none, some, List, [], ◌∷◌, GoString, go, ◌==◌,
  if◌then◌else◌,
}
use docker_network_dhcp.Util.Errors.{wrapped}
use docker_network_dhcp.Util.Outcome.{
  Outcome, ok, err, panic, Act, ◌>>=◌, ◌>>◌, wrap, wrapping, pure, lift,
}
use docker_network_dhcp.Plugin.Types.{Addr, DhcpManager}
use docker_network_dhcp.Plugin.Env.{Route, Info}

-- netlink in the container's namespace, at the container's link, and package net. A nil net.IP
-- is none.
pub record Netns (W : Type 0) : Type 0 where
  pub parse_addr : GoString → Outcome Addr
  pub addr_equal : Addr → Addr → Bool
  pub parse_ip : GoString → Option GoString
  pub ip_equal : Option GoString → Option GoString → Bool
  pub addr_del : Addr → Act W (Unit {0})
  pub addr_add : Addr → Act W (Unit {0})
  pub default_routes : Act W (List Route)
  pub route_add : Option GoString → Act W (Unit {0})
  pub route_replace : Route → Act W (Unit {0})

-- udhcpc.Event
pub record Event : Type 0 where
  pub kind : GoString
  pub info : Info

-- The manager and the container's namespace.
pub record Managed (W : Type 0) : Type 0 where
  pub manager : DhcpManager
  pub world : W

-- The fields of the two families.
abbrev pub last_of : Bool → DhcpManager → Option Addr
last_of true m = m.last_ipv6
last_of false m = m.last_ip

abbrev pub deconfigured_of : Bool → DhcpManager → Bool
deconfigured_of true m = m.deconfigured_v6
deconfigured_of false m = m.deconfigured

abbrev pub primed_of : Bool → DhcpManager → Bool
primed_of true m = m.primed_v6
primed_of false m = m.primed

abbrev pub install : Bool → Addr → DhcpManager → DhcpManager
install true ip m = record m { last_ipv6 = some ip; deconfigured_v6 = false }
install false ip m = record m { last_ip = some ip; deconfigured = false }

abbrev pub prime : Bool → DhcpManager → DhcpManager
prime true m = record m { primed_v6 = true }
prime false m = record m { primed = true }

abbrev pub defer_removal : Bool → DhcpManager → DhcpManager
defer_removal true m = record m { deconfigured_v6 = true }
defer_removal false m = record m { deconfigured = true }

abbrev pub forget_lease : Bool → DhcpManager → DhcpManager
forget_lease true m = record m { primed_v6 = false; deconfigured_v6 = false }
forget_lease false m = record m { primed = false; deconfigured = false }

module _ {W : Type 0} (n : Netns W) where
  -- The old address goes, whatever netlink says; if the new one is refused, the old one is added
  -- again.
  abbrev pub added :
      Bool → Addr → Addr → Managed W → Outcome (Unit {0}) × W → Outcome (Unit {0}) × Managed W
  added v6 ip last s (ok _, w) = (ok tt, record { manager = install v6 ip s.manager; world = w })
  added v6 ip last s (err e, w) =
      (err (wrapped (go "failed to add IP address") e), record s { world = (n.addr_add last w).1 })
  added v6 ip last s (panic, w) = (panic, record s { world = w })

  unfoldable pub replace_address : Bool → Addr → Addr → Act (Managed W) (Unit {0})
  replace_address v6 ip last s = added v6 ip last s (n.addr_add ip (n.addr_del last s.world).1)

  -- `*lastIP`: without a last address, a panic.
  abbrev pub apply_address : Bool → Addr → Option Addr → Act (Managed W) (Unit {0})
  apply_address v6 ip none s = (panic, s)
  apply_address v6 ip (some last) s =
      if not (n.addr_equal ip last) || deconfigured_of v6 s.manager
      then replace_address v6 ip last s
      else (ok tt, s)

  abbrev pub set_route : Option GoString → List Route → Act W (Unit {0})
  set_route gw [] = wrapping (go "failed to add default route") (n.route_add gw)
  set_route gw (r ∷ rs) =
      if n.ip_equal gw r.gw
      then pure tt
      else wrapping (go "failed to replace default route") (n.route_replace (record r { gw = gw }))

  unfoldable pub apply_gateway : GoString → Act W (Unit {0})
  apply_gateway gateway = do
    routes ← wrapping (go "failed to list routes") n.default_routes
    set_route (n.parse_ip gateway) routes

  abbrev pub in_world : Act W (Unit {0}) → Act (Managed W) (Unit {0})
  in_world m s = let (r, w) = m s.world in (r, record s { world = w })

  -- Only IPv4 leases bring a gateway.
  abbrev pub gateway_step : Bool → GoString → Act (Managed W) (Unit {0})
  gateway_step true gateway = pure tt
  gateway_step false gateway = if gateway == [] then pure tt else in_world (apply_gateway gateway)

  unfoldable pub renew : Bool → Info → Act (Managed W) (Unit {0})
  unfolding replace_address apply_gateway
  renew v6 info = do
    ip ← lift (wrap (go "failed to parse IP address") (n.parse_addr info.ip))
    λ s. apply_address v6 ip (last_of v6 s.manager) s
    gateway_step v6 info.gateway

  -- An error of renew is logged.
  abbrev pub logged : Outcome (Unit {0}) × Managed W → Outcome (Unit {0}) × Managed W
  logged (ok _, s) = (ok tt, s)
  logged (err e, s) = (ok tt, s)
  logged (panic, s) = (panic, s)

  abbrev pub on_lease : Bool → Info → Act (Managed W) (Unit {0})
  on_lease v6 info s = logged (renew v6 info (record s { manager = prime v6 s.manager }))

  -- The deconfig that udhcpc sends at its start is ignored.
  abbrev pub on_deconfig : Bool → Act (Managed W) (Unit {0})
  on_deconfig v6 s =
      if primed_of v6 s.manager
      then (ok tt, record s { manager = defer_removal v6 s.manager })
      else (ok tt, s)

  -- The switch on the type of an event; a failed lease and a NAK are only logged.
  unfoldable pub handle : Bool → Event → Act (Managed W) (Unit {0})
  handle v6 e =
      if e.kind == go "deconfig"
      then on_deconfig v6
      else if e.kind == go "bound" || e.kind == go "renew"
      then on_lease v6 e.info
      else pure tt

-- One of the three attempts at a restart, after its delay: the manager is told to stop, udhcpc
-- does not start, or it does.
pub data Attempt : Type 0 where
  told_to_stop fails starts : Attempt

pub data Ending : Type 0 where
  finished panicked gave_up : Ending

-- The event loop: under way, or at its end.
pub data Loop (W : Type 0) : Type 0 where
  running : Managed W → Loop W
  ended : Ending → Managed W → Loop W

unfoldable pub restart : {W : Type 0} → Bool → List Attempt → Managed W → Loop W
restart v6 [] s = ended gave_up s
restart v6 (told_to_stop ∷ rest) s = ended finished s
restart v6 (starts ∷ rest) s = running (record s { manager = forget_lease v6 s.manager })
restart v6 (fails ∷ rest) s = restart v6 rest s
