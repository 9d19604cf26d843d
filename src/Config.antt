-- ===== src/Config.antt =====
-- The package config: settings, the runtime model and its normalisation, and the plan of a
-- sing-box configuration.
pub mod Settings
pub mod Model
pub mod Domains
pub mod Normalize
pub mod Outbounds
pub mod Plan
