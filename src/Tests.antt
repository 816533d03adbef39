-- ===== src/Tests.antt =====
-- A concrete outside world, and the results about the plugin at a concrete input.
mod World
mod Text
mod Files
mod Handlers
mod Leases
mod Client
mod Networks
mod Sandbox
mod Restore
mod Codecs
mod Service
mod Stopping
mod Shutdown
mod Rejoin
mod Daemon
mod Collecting
mod Relaunch
