-- ===== src/Tests/Client.antt =====
-- Witnesses for the udhcpc client.
use docker_network_dhcp.Base.{
  GoString-discrete, ℕ, ltb, leb, true, all, length, All, zero, suc, ◌≡◌, refl, ap, ◌↔◌, false,
  none, some, List, [], ◌∷◌, GoString, go, ◌==◌, if◌then◌else◌,
}
use docker_network_dhcp.Util.Errors.{other}
use docker_network_dhcp.Util.Outcome.{Outcome, ok}
use docker_network_dhcp.Plugin.Manager.{Event}
use docker_network_dhcp.Udhcpc.{handler_event, HandlerEnv, DhcpClientOptions, get_ip}
use docker_network_dhcp.Udhcpc.Lease.{IsLast}
use docker_network_dhcp.Udhcpc.Pipe.{Call, events_of, lines_of, scan, get_ip-lines_of}
use docker_network_dhcp.Plugin.Env.{Info}
use docker_network_dhcp.Udhcpc.Process.{Thread, System, launch, launch_in, enter, start}
use docker_network_dhcp.Tests.World.{World, known, nonempty}
use docker_network_dhcp.Tests.Sandbox.{tick}

abbrev hostname : GoString
hostname = 119 ∷ 101 ∷ 98 ∷ 49 ∷ []

-- The way back to the plugin's own namespace is always there; the container's is missing.
abbrev system : System World
system = record {
  get = known tick tt;
  get_from_path = λ path w. (nonempty path tt, tick w);
  set = λ ns. known tick tt;
  start_command = known tick tt;
  sigterm = known tick tt;
  kill = known tick tt;
  wait = λ w. (none, tick w);
  ended = other (go "context deadline exceeded");
}

abbrev thread : Thread World
thread = record { world = 0; namespace = none; handles = 2; locked = false; started = [] }

abbrev in_container : DhcpClientOptions
in_container = record {
  hostname = [];
  v6 = false;
  once = false;
  namespace = go "/ns";
  handler_script = [];
}

-- The process is there, in the container's namespace.
started_there : (start system in_container thread).1.started ≡ some (go "/ns") ∷ []
unfolding start launch_in enter launch go GoString-discrete
started_there = refl

-- A text with its end marked, and the rest behind it; and back.
unfoldable put : GoString → GoString → GoString
put [] rest = 0 ∷ rest
put (b ∷ s) rest = suc b ∷ put s rest

abbrev prepend : ℕ → GoString × GoString → GoString × GoString
prepend b (s, rest) = (b ∷ s, rest)

unfoldable take_text : GoString → GoString × GoString
take_text [] = ([], [])
take_text (zero ∷ rest) = ([], rest)
take_text (suc b ∷ rest) = prepend b (take_text rest)

take_text-put : (s rest : GoString) → take_text (put s rest) ≡ (s, rest)
unfolding take_text put
take_text-put [] rest = refl
take_text-put (b ∷ s) rest = ap (prepend b) (take_text-put s rest)

abbrev encode : Event → GoString
encode e = put e.kind (put e.info.ip (put e.info.gateway (put e.info.domain [])))

abbrev decode : GoString → Outcome Event
decode line =
    let kind = take_text line in
    let ip = take_text kind.1 in
    let gateway = take_text ip.1 in
    let domain = take_text gateway.1 in
    ok (record {
      kind = kind.0;
      info = record { ip = ip.0; gateway = gateway.0; domain = domain.0 };
    })

-- ASCII is valid UTF-8.
abbrev IsAscii : GoString → Type 0
IsAscii s = all (λ b. ltb b 128) s ≡ true

abbrev Plain : Event → Type 0
Plain e = IsAscii e.kind × IsAscii e.info.ip × IsAscii e.info.gateway × IsAscii e.info.domain

abbrev Short : GoString → Type 0
Short line = leb (length line) 100 ≡ true

-- A Scanner that stops at a line of more than 100 bytes.
unfoldable tokens : List GoString → List GoString
tokens [] = []
tokens (l ∷ ls) = let rest = tokens ls in if leb (length l) 100 then l ∷ rest else []

tokens-IsScanner : (ls : List GoString) → All Short ls → tokens ls ≡ ls
unfolding tokens
tokens-IsScanner [] h = refl
tokens-IsScanner (l ∷ ls) (h, hs) = rw h (ap (λ t. l ∷ t) (tokens-IsScanner ls hs))

decode-encode : (e : Event) → Plain e → decode (encode e) ≡ ok e
decode-encode e h = rw take_text-put (rw take_text-put (rw take_text-put (rw take_text-put refl)))

-- udhcpc has bound a lease of IPv4.
abbrev handler_env : HandlerEnv
handler_env = record {
  look_up = λ name. if name == go "ipv6" then none else some name;
  net_of_cidr = λ text. text;
}

abbrev handler_calls : List Call
handler_calls =
    record { env = handler_env; kind = go "deconfig" }
    ∷ record { env = handler_env; kind = go "bound" }
    ∷ []

abbrev bound_lease : Info
bound_lease = record { ip = go "ip/mask"; gateway = go "router"; domain = go "domain" }

plain : All Plain (events_of handler_calls)
unfolding events_of handler_event go GoString-discrete
plain = ((refl, refl, refl, refl), ((refl, refl, refl, refl), tt))

short : All Short (lines_of encode handler_calls)
unfolding lines_of handler_event put go GoString-discrete
short = (refl, (refl, tt))

get_ip-lines_of_example :
    (get_ip (ok tt) (scan decode (tokens (lines_of encode handler_calls))) ≡ ok bound_lease)
    ↔ IsLast bound_lease (events_of handler_calls)
get_ip-lines_of_example =
    get_ip-lines_of encode decode tokens Plain Short handler_calls bound_lease decode-encode
      tokens-IsScanner plain short
