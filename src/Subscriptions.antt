-- ===== src/Subscriptions.antt =====
-- The package subscriptions: the data model, the stores, the coordinator that owns the state, the
-- manager's operations on it, and updates from the providers.
pub mod Model
pub mod Maps
pub mod Store
pub mod Coordinator
pub mod Manager
pub mod Fetching
pub mod Update
pub mod Normalize
pub mod View
pub mod Events
pub mod Defaults
pub mod Handler
