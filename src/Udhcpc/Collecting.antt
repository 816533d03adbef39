-- ===== src/Udhcpc/Collecting.antt =====
-- The goroutines of GetIP of pkg/udhcpc/client.go: the one of Start that reads the pipe line by line,
-- the one that collects the lease, and GetIP itself, which waits for the process in Finish. The
-- channel of events holds none.
pub mod Taken
pub mod Invariant
pub mod Prefix
use docker_network_dhcp.Base.{
  ◌≡◌, Bool, true, false, Option, none, some, List, [], ◌∷◌, ◌++◌, GoString, if◌then◌else◌,
}
use docker_network_dhcp.Util.Errors.{GoError}
use docker_network_dhcp.Util.Outcome.{Outcome, ok, err, panic}
use docker_network_dhcp.Plugin.Env.{Info}
use docker_network_dhcp.Plugin.Manager.{Event}
use docker_network_dhcp.Udhcpc.{is_lease, finished_with}

-- Where GetIP is: in Finish; behind it, with its result and `done` closed; or back.
pub data Getter : Type 0 where
  waits : Getter
  finished : Outcome (Unit {0}) → Getter
  returned : Outcome Info → Getter

pub record Collecting : Type 0 where
  -- the lines that the process has written, those that nobody has read yet, and those that have come
  -- to the collector or been left out
  pub written : List GoString
  pub unread : List GoString
  pub taken : List GoString
  -- the event that the reader offers on the channel, with its line
  pub holding : Option (GoString × Event)
  pub collecting : Bool
  pub info : Option Info
  -- what the process has exited with
  pub exit : Option (Outcome (Unit {0}))
  pub getter : Getter

abbrev pub at_start : Collecting
at_start = record {
  written = [];
  unread = [];
  taken = [];
  holding = none;
  collecting = true;
  info = none;
  exit = none;
  getter = waits;
}

abbrev pub with_lease : Event → Option Info → Option Info
with_lease e info = if is_lease e then some e.info else info

abbrev pub is_done : Getter → Bool
is_done waits = false
is_done (finished o) = true
is_done (returned r) = true

module _ (decode : GoString → Outcome Event) where
  pub data Step (s : Collecting) : Collecting → Type 0 where
    writes :
        (l : GoString)
        → s.exit ≡ none
        → Step s (record s { written = s.written ++ (l ∷ []); unread = s.unread ++ (l ∷ []) })
    exits : (o : Outcome (Unit {0})) → s.exit ≡ none → Step s (record s { exit = some o })
    -- the reader decodes a line, or leaves it out
    reads :
        (l : GoString) {ls : List GoString} (e : Event)
        → s.unread ≡ l ∷ ls
        → s.holding ≡ none
        → decode l ≡ ok e
        → Step s (record s { unread = ls; holding = some (l, e) })
    leaves_out :
        (l : GoString) {ls : List GoString} (x : GoError)
        → s.unread ≡ l ∷ ls
        → s.holding ≡ none
        → decode l ≡ err x
        → Step s (record s { unread = ls; taken = s.taken ++ (l ∷ []) })
    -- the collector receives
    collects :
        (l : GoString) (e : Event)
        → s.holding ≡ some (l, e)
        → s.collecting ≡ true
        → Step s
            (record s { holding = none; taken = s.taken ++ (l ∷ []); info = with_lease e s.info })
    -- the collector ends: the reader has closed the channel at the end of the pipe, or `done` is closed
    runs_dry :
        {o : Outcome (Unit {0})}
        → s.exit ≡ some o
        → s.unread ≡ []
        → s.holding ≡ none
        → Step s (record s { collecting = false })
    -- or the reader has closed it early: its Scanner stops at a line that is too long for its buffer,
    -- or at an error of the pipe
    stops_early : s.holding ≡ none → Step s (record s { collecting = false })
    is_told : is_done s.getter ≡ true → Step s (record s { collecting = false })
    -- Wait returns, and closes the pipe: of the lines that are unread the reader keeps those that it
    -- has in its buffer
    finishes :
        {o : Outcome (Unit {0})} (kept lost : List GoString)
        → s.getter ≡ waits
        → s.exit ≡ some o
        → s.unread ≡ kept ++ lost
        → Step s (record s { getter = finished o; unread = kept })
    -- the context ends first
    gives_up : (e : GoError) → s.getter ≡ waits → Step s (record s { getter = finished (err e) })
    returns :
        {o : Outcome (Unit {0})}
        → s.getter ≡ finished o
        → s.collecting ≡ false
        → Step s (record s { getter = returned (finished_with o s.info) })

  pub data Reach (s : Collecting) : Collecting → Type 0 where
    here : Reach s s
    next : {t u : Collecting} → Reach s t → Step t u → Reach s u
