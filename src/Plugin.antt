-- ===== src/Plugin.antt =====
-- pkg/plugin
pub mod Names
pub mod Driver
pub mod Disk
pub mod State
pub mod Types
pub mod Env
pub mod Table
pub mod Network
pub mod Leave
pub mod Options
pub mod Endpoint
pub mod Join
pub mod Manager
pub mod Restore
pub mod Api
pub mod Service
pub mod Shutdown
