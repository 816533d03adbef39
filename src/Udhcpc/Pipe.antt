-- ===== src/Udhcpc/Pipe.antt =====
-- The pipe between udhcpc-handler and the client: the handler writes one line for an event
-- (cmd/udhcpc-handler/main.go), and the goroutine of Start reads them line by line
-- (pkg/udhcpc/client.go). encoding/json is a parameter.
use docker_network_dhcp.Base.{◌≡◌, refl, ◌↔◌, Option, none, some, List, [], ◌∷◌, GoString, All, ap}
use docker_network_dhcp.Util.Outcome.{Outcome, ok, err, panic}
use docker_network_dhcp.Plugin.Env.{Info}
use docker_network_dhcp.Plugin.Manager.{Event}
use docker_network_dhcp.Udhcpc.{HandlerEnv, handler_event, get_ip}
use docker_network_dhcp.Udhcpc.Lease.{IsLast, get_ip_iff}

-- udhcpc runs the handler with an environment and the type of the event.
pub record Call : Type 0 where
  pub env : HandlerEnv
  pub kind : GoString

abbrev and_event : Option Event → List Event → List Event
and_event none es = es
and_event (some e) es = e ∷ es

-- The events that the handler makes of its calls.
unfoldable pub events_of : List Call → List Event
unfolding handler_event
events_of [] = []
events_of (c ∷ cs) = and_event (handler_event c.env c.kind) (events_of cs)

abbrev and_line : (Event → GoString) → Option Event → List GoString → List GoString
and_line encode none ls = ls
and_line encode (some e) ls = encode e ∷ ls

-- What the handler writes, call by call.
unfoldable pub lines_of : (Event → GoString) → List Call → List GoString
unfolding handler_event
lines_of encode [] = []
lines_of encode (c ∷ cs) = and_line encode (handler_event c.env c.kind) (lines_of encode cs)

-- The tokens of bufio.Scanner, one after the other. One that does not decode is left out. A panic ends
-- the goroutine.
abbrev pub and_decoded : Outcome Event → List Event → List Event
and_decoded (ok e) es = e ∷ es
and_decoded (err x) es = es
and_decoded panic es = []

unfoldable pub scan : (GoString → Outcome Event) → List GoString → List Event
scan decode [] = []
scan decode (l ∷ ls) = and_decoded (decode l) (scan decode ls)

-- `tokens` is bufio.Scanner: what it makes of the lines that are written. `Writable` says of an event
-- that its texts are valid UTF-8, and `Fits` of a line that it is within the Scanner's buffer.
module _ (encode : Event → GoString) (decode : GoString → Outcome Event)
    (tokens : List GoString → List GoString) (Writable : Event → Type 0)
    (Fits : GoString → Type 0) where
  -- encoding/json reads an event back from its line.
  abbrev pub IsLossless : Type 0
  IsLossless = (e : Event) → Writable e → decode (encode e) ≡ ok e

  -- Lines within the buffer come out as they are.
  abbrev pub IsScanner : Type 0
  IsScanner = (ls : List GoString) → All Fits ls → tokens ls ≡ ls

  scan-and_line :
      (o : Option Event) (ls : List GoString) (es : List Event)
      → IsLossless
      → (All Writable es → scan decode ls ≡ es)
      → All Writable (and_event o es)
      → scan decode (and_line encode o ls) ≡ and_event o es
  unfolding scan
  scan-and_line none ls es law h all = h all
  scan-and_line (some e) ls es law h (w, all) = rw (law e w) (ap (λ x. e ∷ x) (h all))

  scan-lines_of :
      (calls : List Call)
      → IsLossless
      → All Writable (events_of calls)
      → scan decode (lines_of encode calls) ≡ events_of calls
  unfolding scan lines_of events_of
  scan-lines_of [] law all = refl
  scan-lines_of (c ∷ cs) law all =
      scan-and_line (handler_event c.env c.kind) _ _ law (λ h. scan-lines_of cs law h) all

  -- Over the pipe, where the client finishes well and has read all lines, the events of the handler are
  -- valid UTF-8 and their lines fit into the Scanner's buffer: GetIP returns a lease exactly if that is
  -- the one of the last bound or renew event among those that the handler makes of its calls.
  pub get_ip-lines_of :
      (calls : List Call) (info : Info)
      → IsLossless
      → IsScanner
      → All Writable (events_of calls)
      → All Fits (lines_of encode calls)
      → (get_ip (ok tt) (scan decode (tokens (lines_of encode calls))) ≡ ok info)
        ↔ IsLast info (events_of calls)
  get_ip-lines_of calls info law scanner all fit =
      rw (scanner (lines_of encode calls) fit)
        (rw (scan-lines_of calls law all) (get_ip_iff (events_of calls) info))
