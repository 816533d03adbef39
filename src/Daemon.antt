-- ===== src/Daemon.antt =====
-- cmd/net-dhcp/main.go: where the daemon listens, its settings, and the loop that waits for the
-- Docker daemon.
pub mod Socket
pub mod Main
use docker_network_dhcp.Base.{
  suc, Bool, true, false, not, Option, none, some, List, [], ◌∷◌, GoString, go, ◌==◌, if◌then◌else◌,
}
use docker_network_dhcp.Base.Int.{ℤ, pos}
use docker_network_dhcp.Util.Outcome.{Outcome, ok, err, panic, Act}
use docker_network_dhcp.Util.Await.{Context, poll, try_again}

-- os.DirEntry
pub record DirEntry : Type 0 where
  pub name : GoString
  pub is_dir : Bool

unfoldable pub plugin_dirs : List DirEntry → List GoString
plugin_dirs [] = []
plugin_dirs (e ∷ es) = let rest = plugin_dirs es in if e.is_dir then e.name ∷ rest else rest

-- filepath.Join is a parameter.
module _ (join_path : List GoString → GoString) where
  abbrev pub of_dirs : GoString → GoString → List GoString → GoString
  of_dirs plugins_dir socket_name (d ∷ []) = join_path (plugins_dir ∷ d ∷ socket_name ∷ [])
  of_dirs plugins_dir socket_name _ = join_path (plugins_dir ∷ socket_name ∷ [])

  -- What os.Stat and os.ReadDir give: no entries if the directory is not there, is a file, or
  -- cannot be read.
  abbrev pub of_listing : GoString → GoString → Option (List DirEntry) → GoString
  of_listing plugins_dir socket_name none = join_path (plugins_dir ∷ socket_name ∷ [])
  of_listing plugins_dir socket_name (some es) = of_dirs plugins_dir socket_name (plugin_dirs es)

  unfoldable pub resolve_socket_path :
      GoString → GoString → GoString → GoString → Option (List DirEntry) → GoString
  unfolding plugin_dirs
  resolve_socket_path flag_value env_value plugins_dir socket_name listing =
      if not (flag_value == [])
      then flag_value
      else if not (env_value == [])
      then env_value
      else of_listing plugins_dir socket_name listing

-- A text that does not parse gives the default, and never stops the daemon.
abbrev pub or_default : {A : Type 0} → A → Outcome A → A
or_default d (ok a) = a
or_default d (err e) = d
or_default d panic = d

-- The flag before the variable DOCKER_NETWORK_DHCP_LOG_LEVEL before "info"; logrus's levels and
-- its ParseLevel are a parameter.
unfoldable pub log_level : {L : Type 0} → (GoString → Outcome L) → L → GoString → GoString → L
log_level parse info flag_value env_value = or_default info (
    parse (
      if not (flag_value == [])
      then flag_value
      else if not (env_value == [])
      then env_value
      else go "info"))

abbrev pub default_await_timeout : ℤ
default_await_timeout = pos 10_000_000_000

-- The variable DOCKER_NETWORK_DHCP_AWAIT_TIMEOUT, if it is set; time.ParseDuration is a parameter.
abbrev pub await_timeout : (GoString → Outcome ℤ) → Option GoString → ℤ
await_timeout parse none = default_await_timeout
await_timeout parse (some t) = or_default default_await_timeout (parse t)

module _ {W : Type 0} where
  -- The version is only logged.
  abbrev pub after_ping : Act W (Unit {0}) → Outcome (Unit {0}) × W → W
  after_ping version (ok _, w) = (version w).1
  after_ping version (_, w) = w

  -- At least one ping, and another behind each wait that the context leaves time for.
  unfoldable pub monitor_docker_ready : Context W → Act W (Unit {0}) → Act W (Unit {0}) → W → W
  unfolding poll
  monitor_docker_ready ctx ping version w =
      after_ping version (poll ctx (suc (ctx.polls_left w)) (λ v. try_again ctx (ping v)) w)
