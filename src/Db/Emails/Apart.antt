-- ===== src/Db/Emails/Apart.antt =====
-- Keys of the table that differ (internal/db).
use komodo_accounts_api.Prelude.{
  ◌==◌, refl, ◌≡◌, ◌≢◌, String, false, prefixed, prefixed-apart, prefixed-ne,
}

pub partitions_apart : (a e : String) → prefixed "ACCOUNT#" a ≢ prefixed "EMAIL#" e
partitions_apart a e = prefixed-apart "ACCOUNT#" "EMAIL#" a e refl refl refl

pub addresses_apart : (x : String) → (prefixed "ADDR#" x == "PROFILE") ≡ false
addresses_apart x = prefixed-ne "ADDR#" x "PROFILE" refl refl
