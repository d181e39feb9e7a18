-- ===== src/Tests.antt =====
-- Runs on the table in memory.
mod Accounts
mod Settings
mod Others
mod Profiles
mod Uploads
mod Unsubscribe
mod Defaults
mod Servers
