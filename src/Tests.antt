-- ===== src/Tests.antt =====
-- Runs of the model on small inputs, and examples on which the theorems apply.
mod Configs
mod Fetches
mod Profiles
mod Stores
mod Updates
mod Requests
mod Runtimes
mod Handlers
mod Commands
mod Servers
mod Tokens
mod Startups
mod Broadcasts
