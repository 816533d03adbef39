-- ===== src/Daemon/Main.antt =====
-- main of cmd/net-dhcp/main.go and Plugin.Listen, as the goroutines that they are: main, the one of
-- the HTTP server, and the signals.
pub mod Places
pub mod Exit
use docker_network_dhcp.Base.{
  ℕ, Bool, true, false, not, ◌≡◌, Option, none, some, [], GoString, ◌==◌, if◌then◌else◌,
}
use docker_network_dhcp.Util.Errors.{GoError}
use docker_network_dhcp.Util.Outcome.{Outcome, ok, err, panic, Act, ◌>>=◌}

-- The flag before the variable DOCKER_NETWORK_DHCP_LOGFILE.
abbrev pub log_file : GoString → GoString → GoString
log_file flag_value env_value = if flag_value == [] then env_value else flag_value

-- Where the log goes: standard error, unless there is a file and it can be opened.
abbrev pub opened_or : {F : Type 0} → F → Outcome F → F
opened_or stderr (ok f) = f
opened_or stderr (err e) = stderr
opened_or stderr panic = stderr

unfoldable pub log_output : {F : Type 0} → (GoString → Outcome F) → F → GoString → F
log_output open_file stderr path = if path == [] then stderr else opened_or stderr (open_file path)

-- net.Listen on the socket, and then Serve, which returns an error at its end.
unfoldable pub listen :
    {W L : Type 0} → (GoString → Act W L) → (L → Act W (Unit {0})) → GoString → Act W (Unit {0})
listen net_listen serve bind_sock = net_listen bind_sock >>= serve

-- Where main is: before NewPlugin; before signal.Notify; between that and its `<-sigs`, with and
-- without the server started; in its `<-sigs`; in Close; or out of the process, with its status. A
-- signal that finds no channel kills the process.
pub data Main : Type 0 where
  settles constructed notified launched awaits closes killed : Main
  exited : ℕ → Main

-- The goroutine of the server: not there yet, in Listen, ended as http.ErrServerClosed tells, or
-- failed.
pub data Server : Type 0 where
  not_there listens ended failed : Server

-- What NewPlugin has come to.
pub data Construction : Type 0 where
  pending refused succeeded : Construction

pub record Daemon : Type 0 where
  pub main : Main
  pub construction : Construction
  pub server : Server
  -- is there a signal in `sigs`, which holds one?
  pub sigs : Bool
  pub monitor_cancelled : Bool
  pub restore_started : Bool
  -- has the process been sent a signal, and has a panic ended it?
  pub signalled : Bool
  pub panicked : Bool

abbrev pub at_start : Daemon
at_start = record {
  main = settles;
  construction = pending;
  server = not_there;
  sigs = false;
  monitor_cancelled = false;
  restore_started = false;
  signalled = false;
  panicked = false;
}

-- What Listen returned, with the test for http.ErrServerClosed; a panic is recovered, and only
-- logged.
abbrev pub server_end : (GoError → Bool) → Outcome (Unit {0}) → Server
server_end is_closed (ok _) = ended
server_end is_closed (err e) = if is_closed e then ended else failed
server_end is_closed panic = ended

-- `select { case sigs <- syscall.SIGTERM: default: }`
abbrev pub after_server : Server → Bool → Bool
after_server failed sigs = true
after_server _ sigs = sigs

-- Is somebody listening for signals?
abbrev pub after_signal : Main → Main
after_signal settles = killed
after_signal constructed = killed
after_signal m = m

abbrev pub is_notified : Main → Bool
is_notified settles = false
is_notified constructed = false
is_notified _ = true

abbrev pub is_over : Main → Bool
is_over killed = true
is_over (exited n) = true
is_over _ = false

module _ (is_closed : GoError → Bool) where
  pub data Step (s : Daemon) : Daemon → Type 0 where
    -- NewPlugin fails, and log.Fatal exits
    fails : s.main ≡ settles → Step s (record s { main = exited 1; construction = refused })
    constructs :
        s.main ≡ settles → Step s (record s { main = constructed; construction = succeeded })
    notifies : s.main ≡ constructed → Step s (record s { main = notified })
    -- `go func() { … p.Listen(…) … }()`, before anything that may block
    launches : s.main ≡ notified → Step s (record s { main = launched; server = listens })
    -- the check of the socket and the monitor, each in its goroutine, and StartRestore
    restores : s.main ≡ launched → Step s (record s { main = awaits; restore_started = true })
    receives :
        s.main ≡ awaits
        → s.sigs ≡ true
        → Step s (record s { main = closes; sigs = false; monitor_cancelled = true })
    -- Close returns, which it need not do; its error is only logged
    returns : s.main ≡ closes → Step s (record s { main = exited 0 })
    -- a panic that nothing recovers, such as one out of NewPlugin or Close
    panics : is_over s.main ≡ false → Step s (record s { main = exited 2; panicked = true })
    serves_out :
        (o : Outcome (Unit {0}))
        → s.server ≡ listens
        → is_over s.main ≡ false
        → Step s (record s {
          server = server_end is_closed o;
          sigs = after_server (server_end is_closed o) s.sigs;
        })
    -- SIGINT or SIGTERM; a full channel drops it
    signals :
        is_over s.main ≡ false
        → Step s (record s {
          main = after_signal s.main;
          sigs = if is_notified s.main then true else s.sigs;
          signalled = true;
        })

  pub data Reach (s : Daemon) : Daemon → Type 0 where
    here : Reach s s
    next : {t u : Daemon} → Reach s t → Step t u → Reach s u
