-- ===== src/Tests/Accounts.antt =====
-- Registration and erasure, run on a table in memory.
use komodo_accounts_api.Db.Emails.{Step, Reach, here, step}
use komodo_accounts_api.Db.Emails.Owned.{reach-email_unique}
use komodo_accounts_api.Db.Erasure.Erased.{delete_account-erases}
use komodo_accounts_api.Errors.{repo_email_already_exists}
use komodo_accounts_api.Dynamo.Memory.Keeps.{memory-Lawful}
use komodo_accounts_api.Db.Erasure.Chunks.{delete_chunks-accepted}
use komodo_accounts_api.Db.Account.Registered.{
  create_account-registers, create_account-email_conflict, create_account-email_unique,
  reservation_key,
}
use komodo_accounts_api.Db.Erasure.Complete.{sendable, identity_keys, child_keys, cleared, deletes}
use komodo_accounts_api.Dynamo.Laws.{Table}
use komodo_accounts_api.Db.Keys.{email_reservation_pk}
use komodo_accounts_api.Dynamo.Memory.{first_refused, empty, memory, Memory}
use komodo_accounts_api.Dynamo.Items.{Item, Key}
use komodo_accounts_api.Db.Erasure.{
  partition_query, plan_loop, build_erasure_plan, delete_chunks, delete_account,
}
use komodo_accounts_api.Models.{Account, CreateAccountRequest}
use komodo_accounts_api.Prelude.{
  ◌&&◌, ◌==◌, not, true, Bool, String, ◌++◌, suc, arith, some, ◌≡◌, ℕ, ◌≤◌, ◌≢◌, none, length,
  to_lower, List, refl, [], ◌∷◌,
}
use komodo_accounts_api.Exec.{err, ok}
use komodo_accounts_api.Db.Account.{
  profile_key, profile_record, settings_default, create_account, marshal,
}

abbrev ada : CreateAccountRequest
ada = record {
  avatar_url = none;
  email = "Ada@example.com";
  first_name = "Ada";
  last_name = "Lovelace";
  phone = none;
  username = "ada";
}

abbrev shouted : CreateAccountRequest
shouted = record ada { email = "ADA@EXAMPLE.COM" }

abbrev ada_account : Account
ada_account = record {
  account_id = "a1";
  avatar_url = none;
  email = "ada@example.com";
  first_name = "Ada";
  last_name = "Lovelace";
  phone = none;
  username = "ada";
}

abbrev registered : Memory
registered = (create_account memory 5 "a1" ada empty).1

registered-ok : (create_account memory 5 "a1" ada empty).0 ≡ ok ada_account
unfolding create_account to_lower
registered-ok = refl

refused-conflict :
    (create_account memory 9 "a2" shouted registered).0 ≡ err repo_email_already_exists
unfolding create_account to_lower email_reservation_pk
refused-conflict = refl

create_account-registers_example :
    memory.table registered (record { pk = "ACCOUNT#a1"; sk = "SETTINGS" })
    ≡ some (settings_default "ACCOUNT#a1" 5)
unfolding email_reservation_pk to_lower
create_account-registers_example =
    (create_account-registers memory memory-Lawful 5 "a1" ada empty ada_account registered-ok).1
      (record { pk = "ACCOUNT#a1"; sk = "SETTINGS" })

create_account-email_unique_example :
    (create_account memory 9 "a2" shouted registered).0 ≢ ok ada_account
unfolding to_lower
create_account-email_unique_example =
    create_account-email_unique memory memory-Lawful 5 "a1" ada 9 "a2" shouted empty ada_account
      ada_account registered-ok refl

create_account-email_conflict_example :
    (memory.table registered (reservation_key (to_lower "ADA@EXAMPLE.COM")) ≢ none)
    × ((j : Key)
        → memory.table (create_account memory 9 "a2" shouted registered).1 j
          ≡ memory.table registered j)
create_account-email_conflict_example =
    create_account-email_conflict memory memory-Lawful 9 "a2" shouted registered refused-conflict

abbrev ada_items : List Item
ada_items =
    settings_default "ACCOUNT#a1" 5 ∷ marshal (profile_record 5 "a1" "ada@example.com" ada) ∷ []

listed-ok : (memory.query_all (partition_query "a1") registered).0 ≡ ok ada_items
unfolding create_account to_lower email_reservation_pk
listed-ok = refl

erased-ok : (delete_account memory "a1" registered).0 ≡ ok tt
unfolding delete_account delete_chunks build_erasure_plan plan_loop create_account to_lower
    email_reservation_pk
erased-ok = refl

delete_account-erases_example :
    ((j : Key)
      → memory.table (delete_account memory "a1" registered).1 j
        ≡ cleared (child_keys ada_items ++ identity_keys ada_items) (memory.table registered) j)
    × (identity_keys ada_items ≢ [])
delete_account-erases_example =
    delete_account-erases memory memory-Lawful "a1" registered ada_items listed-ok erased-ok

first_refused-deletes : (ks : List Key) (t : Table) (i : ℕ) → first_refused (deletes ks) t i ≡ none
first_refused-deletes [] t i = refl
first_refused-deletes (k ∷ ks) t i = first_refused-deletes ks t (suc i)

abbrev keyed_by : Key → Bool
keyed_by k = not (k.pk == "") && not (k.sk == "")

memory-accepts :
    (ks : List Key) (s : Memory)
    → 1 ≤ length ks
    → length ks ≤ 100
    → sendable keyed_by ks ≡ true
    → (memory.transact_write (deletes ks) s).0 ≡ ok tt
memory-accepts ks s some_keys few distinct = rw (first_refused-deletes ks s.at 0) refl

delete_chunks-accepted_example :
    (delete_chunks memory 2 0
      (deletes (
        record { pk = "ACCOUNT#a1"; sk = "SETTINGS" }
        ∷ record { pk = "ACCOUNT#a1"; sk = "ADDR#1" }
        ∷ []))
      registered).0
    ≡ ok tt
delete_chunks-accepted_example =
    delete_chunks-accepted memory keyed_by memory-accepts 2 0
      (record { pk = "ACCOUNT#a1"; sk = "SETTINGS" }
        ∷ record { pk = "ACCOUNT#a1"; sk = "ADDR#1" }
        ∷ [])
      registered refl (omega arith)

abbrev ada_path : Reach memory empty registered
ada_path = step empty registered here (Step.registered 5 "a1" ada empty ada_account registered-ok)

ada-stored :
    memory.table registered (profile_key "a1")
    ≡ some (marshal (profile_record 5 "a1" "ada@example.com" ada))
unfolding create_account to_lower email_reservation_pk
ada-stored = refl

abbrev ada_id : String
ada_id = "a1"

reach-email_unique_example : ada_id ≡ ada_id
reach-email_unique_example =
    reach-email_unique memory memory-Lawful empty registered (λ id. refl) ada_path "a1" "a1"
      (marshal (profile_record 5 "a1" "ada@example.com" ada))
      (marshal (profile_record 5 "a1" "ada@example.com" ada)) ada-stored ada-stored refl
