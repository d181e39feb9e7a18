-- ===== src/Db.antt =====
-- internal/db: the repository over the single table. Every operation takes the client `d`.
pub mod Keys
pub mod Draft
pub mod Address
pub mod Payments
pub mod Defaults
pub mod Passkeys
pub mod Account
pub mod Erasure
pub mod Settings
pub mod Consent
pub mod Preferences
pub mod Emails
