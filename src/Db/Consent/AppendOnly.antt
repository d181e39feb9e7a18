-- ===== src/Db/Consent/AppendOnly.antt =====
-- The consent log only grows (internal/db/consent.go).
use komodo_accounts_api.Db.Account.Registered.{allows-absent}
use komodo_accounts_api.Models.{ConsentLog}
use komodo_accounts_api.Db.Consent.{item_not_exists, ConsentLog, append_consent_log}
use komodo_accounts_api.Dynamo.{DynamoDb}
use komodo_accounts_api.Dynamo.Items.{key_eq_sound, key_eq, item_not_exists, allows, Item, Key}
use komodo_accounts_api.Dynamo.Laws.{with_item, Lawful, Table}
use komodo_accounts_api.Prelude.{ap, inr, inl, Bool-cases, ◌≡◌}
use komodo_accounts_api.Exec.{ok}
use komodo_accounts_api.Prelude.{ℕ, String, true, Option, some}

-- What is in a table is in the other one too, unchanged.
abbrev pub Grows : Table → Table → Type 0
Grows t t' = (k : Key) (it : Item) → t k ≡ some it → t' k ≡ some it

pub with_item-Grows :
    (k : Key) (o : Option Item) (t : Table)
    → allows item_not_exists (t k) ≡ true
    → Grows t (with_item k o t)
with_item-Grows k o t free j it h = elim (Bool-cases (key_eq k j)) [
  | inl same ↦ cc (ap t (key_eq_sound k j same), allows-absent (t k) free, h)
  | inr other ↦ rw other h
]

module _ (d : DynamoDb) (laws : Lawful d) where
  pub append_consent_log-Grows :
      (stamp : ℕ → String) (now : ℕ) (account_id : String) (entry : ConsentLog) (s : d.State)
      → (append_consent_log d stamp now account_id entry s).0 ≡ ok tt
      → Grows (d.table s) (d.table (append_consent_log d stamp now account_id entry s).1)
  unfolding append_consent_log
  append_consent_log-Grows stamp now account_id entry s h k it found =
      let (free, after) = laws.write_ok _ item_not_exists s h in
      rw (after k) (with_item-Grows _ _ (d.table s) free k it found)
