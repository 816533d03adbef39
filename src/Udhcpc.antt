-- ===== src/Udhcpc.antt =====
-- pkg/udhcpc/client.go: the command line of udhcpc and the lease that GetIP takes from its
-- events; and cmd/udhcpc-handler/main.go, which udhcpc runs for every event.
pub mod Fqdn
pub mod Lease
pub mod Process
pub mod Pipe
pub mod Collecting
pub mod Client
use docker_network_dhcp.Base.{
  ℕ, ◌+◌, ◌/◌, ◌%◌, ltb, length, Bool, true, false, ◌||◌, Option, none, some, List, [], ◌∷◌, ◌++◌,
  GoString, go, ◌==◌, if◌then◌else◌,
}
use docker_network_dhcp.Util.Errors.{GoError, sentinel, err_no_lease}
use docker_network_dhcp.Util.Outcome.{Outcome, ok, err, panic}
use docker_network_dhcp.Plugin.Env.{Info}
use docker_network_dhcp.Plugin.Manager.{Event}

abbrev pub default_handler : GoString
default_handler = go "/usr/lib/net-dhcp/udhcpc-handler"

abbrev pub vendor_id : GoString
vendor_id = go "docker-net-dhcp"

pub record DhcpClientOptions : Type 0 where
  pub hostname : GoString
  pub v6 : Bool
  pub once : Bool
  pub namespace : GoString
  pub handler_script : GoString

-- hex.EncodeToString
abbrev pub hex_digit : ℕ → ℕ
hex_digit d = if ltb d 10 then 48 + d else 87 + d

unfoldable pub hex_encode : GoString → GoString
hex_encode [] = []
hex_encode (b ∷ bs) = hex_digit (b / 16) ∷ hex_digit (b % 16) ∷ hex_encode bs

-- The data of option 0x27: the flags with the S bit, the length in one byte, and the name.
unfoldable pub fqdn_data : GoString → GoString
fqdn_data hostname = 1 ∷ length hostname % 256 ∷ hostname

unfoldable pub hostname_option : DhcpClientOptions → GoString
unfolding fqdn_data hex_encode
hostname_option opts =
    if opts.v6
    then go "0x27:" ++ hex_encode (fqdn_data opts.hostname)
    else go "hostname:" ++ opts.hostname

-- The arguments that NewDHCPClient gives to the command, the command itself first.
unfoldable pub client_args : GoString → DhcpClientOptions → List GoString
unfolding hostname_option
client_args iface opts =
    (if opts.v6 then go "udhcpc6" else go "udhcpc")
    ∷ go "-f"
    ∷ go "-i"
    ∷ iface
    ∷ go "-s"
    ∷ (if opts.handler_script == [] then default_handler else opts.handler_script)
    ∷ (if opts.once then go "-q" else go "-R")
    ∷ ((if opts.hostname == [] then [] else go "-x" ∷ hostname_option opts ∷ [])
        ++ (if opts.v6 then [] else go "-V" ∷ vendor_id ∷ []))

abbrev pub is_lease : Event → Bool
is_lease e = e.kind == go "bound" || e.kind == go "renew"

-- The goroutine of GetIP, on the events that it takes before `done` is closed.
unfoldable pub collect : Option Info → List Event → Option Info
collect info [] = info
collect info (e ∷ es) = collect (if is_lease e then some e.info else info) es

abbrev pub lease_or_error : Option Info → Outcome Info
lease_or_error none = err (sentinel err_no_lease)
lease_or_error (some info) = ok info

-- GetIP behind the start of the client, with what Finish returns.
abbrev pub finished_with : Outcome (Unit {0}) → Option Info → Outcome Info
finished_with (ok _) info = lease_or_error info
finished_with (err e) info = err e
finished_with panic info = panic

unfoldable pub get_ip : Outcome (Unit {0}) → List Event → Outcome Info
unfolding collect
get_ip finish events = finished_with finish (collect none events)

-- The environment of the handler: a variable, if it is set; and the network that net.ParseCIDR
-- and String make of a text.
pub record HandlerEnv : Type 0 where
  pub look_up : GoString → Option GoString
  pub net_of_cidr : GoString → GoString

abbrev pub get_env : Option GoString → GoString
get_env none = []
get_env (some v) = v

abbrev pub lease_info : HandlerEnv → Option GoString → Info
lease_info h (some v6) = record { ip = h.net_of_cidr (v6 ++ go "/128"); gateway = []; domain = [] }
lease_info h none = record {
  ip = get_env (h.look_up (go "ip")) ++ (go "/" ++ get_env (h.look_up (go "mask")));
  gateway = get_env (h.look_up (go "router"));
  domain = get_env (h.look_up (go "domain"));
}

abbrev pub no_info : Info
no_info = record { ip = []; gateway = []; domain = [] }

-- The event that the handler writes, if any, for the type in its argument.
unfoldable pub handler_event : HandlerEnv → GoString → Option Event
handler_event h kind =
    if kind == go "bound" || kind == go "renew"
    then some (record { kind = kind; info = lease_info h (h.look_up (go "ipv6")) })
    else if kind == go "deconfig" || kind == go "leasefail" || kind == go "nak"
    then some (record { kind = kind; info = no_info })
    else none
