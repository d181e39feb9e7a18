-- ===== src/Api/Account/Confirmed.antt =====
-- When the erasure of an account is refused (internal/api/account.go).
use komodo_accounts_api.Clients.Events.{NewInput}
use komodo_accounts_api.Errors.{invalid_input}
use komodo_accounts_api.TtlCache.{get}
use komodo_accounts_api.Models.{Account}
use komodo_accounts_api.Dynamo.Items.{Key}
use komodo_accounts_api.Db.Account.{profile_key, get_account}
use komodo_accounts_api.Dynamo.Laws.{Lawful}
use komodo_accounts_api.Dynamo.{DynamoDb}
use komodo_accounts_api.Prelude.{
  Bool, Bool-cases, true, to_lower, equal_fold, inl, not, inr, ◌||◌, trim_space, Option-cases, ◌≡◌,
  String, ℕ, ◌==◌, refl,
}
use komodo_accounts_api.Exec.{err, Result-cases, ok}
use komodo_accounts_api.Api.Account.{
  Bool, NewInput, invalid_input, err, to_lower, equal_fold, not, get, trim_space, Account, World,
  String, ℕ, get_account, get_profile, Service, ObjectStore, DynamoDb, delete_profile,
}

module _ (d : DynamoDb) (laws : Lawful d) (o : ObjectStore) (builds : NewInput → Bool)
    (svc : Service) where
  get_account-keeps :
      (account_id : String) (s : d.State) (j : Key)
      → d.table (get_account d account_id s).1 j ≡ d.table s j
  unfolding get_account
  get_account-keeps account_id s j =
      rw laws.build_key_lem (elim (Result-cases (d.get_item (profile_key account_id) s).0) [
        | inl (it, found) ↦ rw found (laws.get_keeps (profile_key account_id) s j)
        | inr (e, failed) ↦ rw failed (laws.get_keeps (profile_key account_id) s j)
      ])

  -- Reading a profile leaves the table, the objects and the events as they are.
  get_profile-keeps :
      (now : ℕ) (account_id : String) (w : World d o)
      → ((j : Key)
          → d.table (get_profile d o builds svc now account_id w).1.table j ≡ d.table w.table j)
        × ((get_profile d o builds svc now account_id w).1.objects ≡ w.objects)
        × ((get_profile d o builds svc now account_id w).1.events ≡ w.events)
  unfolding get_profile
  get_profile-keeps now account_id w = elim (Option-cases (get now account_id w.profile_cache).0) [
    | inr (account, cached) ↦ rw cached ((λ j. refl), refl, refl)
    | inl missed ↦ elim (Result-cases (get_account d account_id w.table).0) [
      | inl (account, found) ↦ rw (missed, found) (get_account-keeps account_id w.table, refl, refl)
      | inr (e, failed) ↦ rw (missed, failed) (get_account-keeps account_id w.table, refl, refl)
    ]
  ]

  -- If the profile can be read, and the confirmation, trimmed, is empty or differs from the
  -- profile's email in more than case, then the erasure is refused as invalid input, and the table,
  -- the objects and the events are as before.
  pub delete_profile-unconfirmed :
      (now : ℕ) (account_id confirm_email : String) (w : World d o) (profile : Account)
      → (get_profile d o builds svc now account_id w).0 ≡ ok profile
      → (trim_space confirm_email == ""
          || not (equal_fold (trim_space confirm_email) (to_lower (trim_space profile.email))))
        ≡ true
      → ((delete_profile d o builds svc now account_id confirm_email w).0 ≡ err invalid_input)
        × ((j : Key)
            → d.table (delete_profile d o builds svc now account_id confirm_email w).1.table j
              ≡ d.table w.table j)
        × ((delete_profile d o builds svc now account_id confirm_email w).1.objects ≡ w.objects)
        × ((delete_profile d o builds svc now account_id confirm_email w).1.events ≡ w.events)
  unfolding delete_profile
  delete_profile-unconfirmed now account_id confirm_email w profile read differs =
      let (table, objects, events) = get_profile-keeps now account_id w in
      elim (Bool-cases (trim_space confirm_email == "")) [
        | inl blank ↦ rw blank (refl, (λ j. refl), refl, refl)
        | inr written ↦
            let foreign = rw written at differs in
            rw (written, read, foreign) (refl, table, objects, events)
      ]
