-- ===== src/Plugin/Manager/Stopping.antt =====
-- How Stop of pkg/plugin/dhcp_manager.go and the event loops of setupClient meet: stopChan, and
-- errChan and errChanV6, which hold one value each. Leave, the goroutine of Join, Restore and
-- Close may each be calling Stop.
pub mod Once
pub mod Result
pub mod Live
use docker_network_dhcp.Base.{
  ℕ, suc, zero, ◌≡◌, Bool, true, false, Option, none, some, List, [], ◌∷◌, GoString, go,
  if◌then◌else◌,
}
use docker_network_dhcp.Util.Errors.{wrapped}
use docker_network_dhcp.Util.Outcome.{Outcome, ok, err, panic, wrap}

-- A call of Stop on a manager that has started.
pub data Stopper : Type 0 where
  calls awaits_v4 awaits_v6 : Stopper
  returns : Outcome (Unit {0}) → Stopper

pub record Channels : Type 0 where
  pub stop_closed : Bool
  pub running_v4 : Bool
  pub running_v6 : Bool
  pub err_chan : Option (Outcome (Unit {0}))
  pub err_chan_v6 : Option (Outcome (Unit {0}))

pub record Stopping : Type 0 where
  pub channels : Channels
  pub stoppers : List Stopper

-- `n` callers of Stop.
unfoldable pub callers : ℕ → List Stopper
callers zero = []
callers (suc n) = calls ∷ callers n

-- `ipv6` of the options, and what the two loops end with, of their own accord or when told to.
module _ (ipv6 : Bool) (exit_v4 exit_v6 : Outcome (Unit {0})) where
  abbrev pub after_v6 : Outcome (Unit {0}) → Stopper
  after_v6 r = returns (wrap (go "failed shut down DHCPv6 client") r)

  abbrev pub after_v4 : Outcome (Unit {0}) → Stopper
  after_v4 (ok _) = if ipv6 then awaits_v6 else returns (ok tt)
  after_v4 (err e) = returns (err (wrapped (go "failed shut down DHCP client") e))
  after_v4 panic = returns panic

  -- A caller closes stopChan, which a sync.Once lets happen once, and then receives from errChan,
  -- and from errChanV6 if there is IPv6.
  pub data Move (c : Channels) : Stopper → Channels → Stopper → Type 0 where
    closes : Move c calls (record c { stop_closed = true }) awaits_v4
    takes_v4 :
        (r : Outcome (Unit {0}))
        → c.err_chan ≡ some r
        → Move c awaits_v4 (record c { err_chan = none }) (after_v4 r)
    takes_v6 :
        (r : Outcome (Unit {0}))
        → c.err_chan_v6 ≡ some r
        → Move c awaits_v6 (record c { err_chan_v6 = none }) (after_v6 r)

  -- One of the callers moves.
  pub data Moves (c : Channels) : List Stopper → Channels → List Stopper → Type 0 where
    here :
        {c' : Channels} {x y : Stopper} {xs : List Stopper}
        → Move c x c' y
        → Moves c (x ∷ xs) c' (y ∷ xs)
    there :
        {c' : Channels} {x : Stopper} {xs ys : List Stopper}
        → Moves c xs c' ys
        → Moves c (x ∷ xs) c' (x ∷ ys)

  -- A loop leaves its result in its channel.
  abbrev pub end_v4 : Channels → Channels
  end_v4 c = record c { running_v4 = false; err_chan = some exit_v4 }

  abbrev pub end_v6 : Channels → Channels
  end_v6 c = record c { running_v6 = false; err_chan_v6 = some exit_v6 }

  -- A caller moves, or a loop sees that stopChan is closed and ends.
  pub data Orderly (s : Stopping) : Stopping → Type 0 where
    moves :
        {c : Channels} {xs : List Stopper}
        → Moves s.channels s.stoppers c xs
        → Orderly s (record { channels = c; stoppers = xs })
    ends_v4 :
        s.channels.running_v4 ≡ true
        → s.channels.err_chan ≡ none
        → s.channels.stop_closed ≡ true
        → Orderly s (record s { channels = end_v4 s.channels })
    ends_v6 :
        s.channels.running_v6 ≡ true
        → s.channels.err_chan_v6 ≡ none
        → s.channels.stop_closed ≡ true
        → Orderly s (record s { channels = end_v6 s.channels })

  pub data Way (s : Stopping) : Stopping → Type 0 where
    standing : Way s s
    onward : {t u : Stopping} → Way s t → Orderly t u → Way s u

  -- One of these, or a loop ends of its own accord, since it has given up restarting udhcpc or has
  -- panicked.
  pub data Step (s : Stopping) : Stopping → Type 0 where
    orderly : {t : Stopping} → Orderly s t → Step s t
    gives_up_v4 :
        s.channels.running_v4 ≡ true
        → s.channels.err_chan ≡ none
        → Step s (record s { channels = end_v4 s.channels })
    gives_up_v6 :
        s.channels.running_v6 ≡ true
        → s.channels.err_chan_v6 ≡ none
        → Step s (record s { channels = end_v6 s.channels })

  pub data Reach (s : Stopping) : Stopping → Type 0 where
    at_start : Reach s s
    after : {t u : Stopping} → Reach s t → Step t u → Reach s u

  -- A manager that has started its clients.
  abbrev pub started : ℕ → Stopping
  started n = record {
    channels = record {
      stop_closed = false;
      running_v4 = true;
      running_v6 = ipv6;
      err_chan = none;
      err_chan_v6 = none;
    };
    stoppers = callers n;
  }
